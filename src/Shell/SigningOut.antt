-- ===== src/Shell/SigningOut.antt =====
-- What a sign-out leaves in the browser, and what it does not do.
use personal_password_manage.Prelude.{◌≡◌, refl, arith, true, false, none, some, []}
use personal_password_manage.Api.{Me, ApiResult, value}
use personal_password_manage.Json.{Value}
use personal_password_manage.Session.{clear, begin_refresh, finish_refresh}
use personal_password_manage.Vault.{lock}
use personal_password_manage.Shell.{Session, sign_out}

-- Whatever the server answers, a sign-out leaves no user, item, folder, selection or key in the browser and
-- goes to the sign-in page. The refresh of the identity that the next route starts, when the server still
-- takes the session, sets the user again.
pub sign_out-forgets :
    {K : Type 0} (answer : ApiResult Value) (s : Session K) (me : Me)
    → s.auth.loading ≡ false
    → let t = sign_out answer s in
      (t.auth.user ≡ none)
      × (t.store.is_locked ≡ true)
      × (t.store.items ≡ [])
      × (t.store.folders ≡ [])
      × (t.store.selected_item ≡ none)
      × (t.store.key ≡ none)
      × (t.to_login ≡ true)
      × ((begin_refresh t.auth).0 ≡ true)
      × ((finish_refresh (value me) (begin_refresh t.auth).1).user ≡ some me)
unfolding sign_out lock clear begin_refresh finish_refresh
sign_out-forgets answer s me l =
    (refl, refl, refl, refl, refl, refl, refl, ground (arith, l), ground (arith, l))
