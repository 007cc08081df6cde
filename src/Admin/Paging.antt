-- ===== src/Admin/Paging.antt =====
-- Every event of the audit log is on a page that the buttons reach.
use personal_password_manage.Prelude.{
  ℕ, zero, suc, ◌+◌, ◌-◌, ◌*◌, ◌/◌, ◌≤◌, ◌<◌, ◌≡◌, ◌≢◌, refl, arith,
}
use personal_password_manage.Admin.{AuditPage, page_size, has_next, has_prev, older, newer}

-- Pressing "Older" a number of times.
pub older_times : ℕ → AuditPage → AuditPage
older_times zero page = page
older_times (suc n) page = older (older_times n page)

abbrev pub audit_page : ℕ → ℕ → AuditPage
audit_page offset total = record { offset = offset; total = total; limit = page_size }

older_times-offset :
    (n total : ℕ)
    → n * page_size ≤ total
    → (total ≢ n * page_size)
    → older_times n (audit_page 0 total) ≡ audit_page (n * page_size) total
unfolding older_times older has_next
older_times-offset zero total h l = refl
older_times-offset (suc n) total h l =
    rw (older_times-offset n total (omega arith) (omega arith)) (ground arith)

-- The i-th event of a log that pages of fifty show is on the page that i / 50 presses of "Older" reach
-- from the first, and one press of "Newer" there goes back to the page before.
pub older_times-covers :
    (i total : ℕ)
    → i < total
    → let page = older_times (i / 50) (audit_page 0 total) in
      (page.offset ≤ i)
      × (i < page.offset + page_size)
      × ((newer page).offset ≡ page.offset - page_size)
unfolding newer has_prev
older_times-covers i total h =
    rw (older_times-offset (i / 50) total (omega arith) (omega arith))
      (omega arith, omega arith, ground arith)
