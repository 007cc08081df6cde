-- ===== src/Shell/Banner.antt =====
-- How long the banner says that the vault was saved.
use personal_password_manage.Prelude.{
  ℕ, zero, suc, ◌-◌, ◌≡◌, ◌<◌, refl, inl, inr, true, false, none, some, arith, leb, if◌then◌else◌,
  Bool-cases,
}
use personal_password_manage.Vault.{saved, syncing, error}
use personal_password_manage.Shell.{
  SavedBanner, saved_for, state_changed, banner_millisecond, Shown, banner, saved_to_server,
  nothing,
}

-- Milliseconds without a change of the state.
unfoldable pub stay : ℕ → SavedBanner → SavedBanner
stay zero b = b
stay (suc n) b = stay n (banner_millisecond b)

stay-quiet :
    (n : ℕ)
    → stay n (record { show_saved = false; timer = none })
      ≡ record { show_saved = false; timer = none }
unfolding stay banner_millisecond
stay-quiet zero = refl
stay-quiet (suc n) = stay-quiet n

banner_millisecond-due :
    (left : ℕ)
    → leb left 1 ≡ true
    → banner_millisecond (record { show_saved = true; timer = some left })
      ≡ record { show_saved = false; timer = none }
unfolding banner_millisecond
banner_millisecond-due left h = rw h

banner_millisecond-early :
    (left : ℕ)
    → leb left 1 ≡ false
    → banner_millisecond (record { show_saved = true; timer = some left })
      ≡ record { show_saved = true; timer = some (left - 1) }
unfolding banner_millisecond
banner_millisecond-early left h = rw h

stay-shown :
    (n left : ℕ)
    → 0 < left
    → (stay n (record { show_saved = true; timer = some left })).show_saved
      ≡ (if leb left n then false else true)
unfolding stay
stay-shown zero left h = ground arith
stay-shown (suc n) left h = elim (Bool-cases (leb left 1)) [
  | inl due ↦ rw (stay, banner_millisecond-due left due, stay-quiet n) (ground arith)
  | inr early ↦
      rw (stay, banner_millisecond-early left early, stay-shown n (left - 1) (ground arith))
        (ground arith)
]

-- After a save the banner says so for two and a half seconds, whether it said so before or not, and then
-- nothing, as long as the state stays; a state that fails or saves again meanwhile is told at once.
pub banner-saved :
    (b : SavedBanner) (n : ℕ)
    → let c = stay n (state_changed saved b) in
      (banner saved c ≡ (if leb saved_for n then nothing else saved_to_server))
      × (banner error c ≡ Shown.sync_failed)
      × (banner syncing c ≡ Shown.saving)
unfolding state_changed banner
banner-saved b n =
    let shown = stay-shown n saved_for (omega arith) in
    (rw (banner, shown) (ground arith), refl, refl)
