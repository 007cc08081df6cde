-- ===== src/Admin.antt =====
-- The administration: the guard of components/admin/AdminShell.tsx, the pages of the audit log
-- (app/admin/audit/page.tsx), the actions of app/admin/users/page.tsx and app/devices/page.tsx, and the
-- navigation of components/Sidebar.tsx.
pub mod Paging
pub mod Auditing
use personal_password_manage.Prelude.{
  ℕ, ◌+◌, ◌-◌, Bool, true, false, not, Option, none, some, List, [], ◌∷◌, ltb, leb, if◌then◌else◌,
  Text, text_eq, filter,
}
use personal_password_manage.Json.{Value}
use personal_password_manage.Api.{Role, user, admin, Me, ApiResult, value, failed}

-- What the shell shows.
pub data Body : Type 0 where
  checking sign_in admin_required console : Body

unfoldable pub shell_body : Option Me → Bool → Body
shell_body none loading = if loading then checking else sign_in
shell_body (some me) loading = elim me.role [ admin ↦ console | user ↦ admin_required ]

abbrev pub page_size : ℕ
page_size = 50

-- The audit page with an answer of the server: the number of events and the limit that it used.
pub record AuditPage : Type 0 where
  pub offset : ℕ
  pub total : ℕ
  pub limit : ℕ

unfoldable pub has_prev : AuditPage → Bool
has_prev page = ltb 0 page.offset

unfoldable pub has_next : AuditPage → Bool
has_next page = ltb (page.offset + page.limit) page.total

-- The two buttons; a disabled one does nothing.
unfoldable pub newer : AuditPage → AuditPage
newer page = if has_prev page then record page { offset = page.offset - page_size } else page

unfoldable pub older : AuditPage → AuditPage
older page = if has_next page then record page { offset = page.offset + page_size } else page

-- `run`: the users that are shown, the error, and whether the action was called.
pub record UsersPage (A : Type 0) : Type 0 where
  pub users : List A
  pub error : Option Text

unfoldable pub run :
    {A : Type 0} → Bool → ApiResult Value → ApiResult (List A) → UsersPage A → UsersPage A
run false action list page = page
run true (failed message) list page = record page { error = some message }
run true (value v) (failed message) page = record page { error = some message }
run true (value v) (value users) page = record page { users = users; error = none }

unfoldable pub toggled : Role → Role
toggled admin = user
toggled user = admin

pub record Device : Type 0 where
  pub id : Text
  pub name : Text
  pub is_current : Bool

-- `handleRevoke`; a refused revocation throws before the list changes.
unfoldable pub handle_revoke : Text → Bool → ApiResult Value → List Device → List Device
handle_revoke id false answer devices = devices
handle_revoke id true (failed message) devices = devices
handle_revoke id true (value v) devices = filter (λ (d : Device). not (text_eq d.id id)) devices
