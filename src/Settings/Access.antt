-- ===== src/Settings/Access.antt =====
-- More of app/settings/page.tsx that changes state: the guard of the export, the deletion of the account,
-- two-factor authentication and passkeys. The picture of the enrolment address is a parameter; `rejected`
-- says that the browser's ceremony was cancelled by the user (NotAllowedError).
use personal_password_manage.Prelude.{
  ◌≡◌, refl, Bool, true, false, not, Option, none, some, List, [], ◌⊎◌, inl, inr, if◌then◌else◌,
  ltb, Text, codes, text_eq, js_length, is_some, filter, Unicode, Bool-cases,
}
use personal_password_manage.Json.{Value}
use personal_password_manage.Api.{PasskeyInfo, ApiResult, value, failed, session_expired}
use personal_password_manage.Session.{AuthState, clear}
use personal_password_manage.Vault.{VaultState, lock}

-- The guards of `handleExport`: the error, or none where the export runs.
unfoldable pub export_error : Bool → Text → Option Text
export_error has_key passphrase =
    if not has_key
    then some (codes "Unlock your vault first — export works on decrypted data.")
    else (if ltb (js_length passphrase) 8
        then some (codes "Use a passphrase of at least 8 characters for the export file.")
        else none)

pub record Deletion (K : Type 0) : Type 0 where
  pub store : VaultState K
  pub auth : AuthState
  pub error : Option Text
  pub left : Bool

-- `left` is the route to the start page.
unfoldable pub handle_delete_account :
    {K : Type 0} → Text → ApiResult Value → Deletion K → Deletion K
handle_delete_account confirm answer d =
    if not (text_eq confirm (codes "DELETE"))
    then record d { error = some (codes "Type DELETE to confirm.") }
    else elim answer [
      | failed message ↦ record d { error = some message }
      | value v ↦ record d { store = lock d.store; auth = clear d.auth; error = none; left = true }
    ]

pub record Totp : Type 0 where
  pub enrolling : Bool
  pub qr_data_url : Option Text
  pub secret : Option Text
  pub code : Text
  pub password : Text
  pub error : Option Text

-- What `start2faSetup` answers.
pub record Setup : Type 0 where
  pub secret : Text
  pub otpauth_uri : Text

-- The secret is set before the picture is made; `picture` may fail.
unfoldable pub start_totp_setup : (Text → ApiResult Text) → ApiResult Setup → Totp → Totp
start_totp_setup picture (failed message) t = record t { error = some message }
start_totp_setup picture (value setup) t = elim (picture setup.otpauth_uri) [
  | failed message ↦ record t { secret = some setup.secret; error = some message }
  | value url ↦ record t {
    secret = some setup.secret;
    qr_data_url = some url;
    code = [];
    enrolling = true;
    error = none;
  }
]

abbrev pub expired_retry : Text
expired_retry = codes "Your session expired — sign in again and retry."

unfoldable pub verify_totp : Unicode → ApiResult Value → Totp → Totp
verify_totp u (value v) t = record t {
  enrolling = false;
  code = [];
  secret = none;
  qr_data_url = none;
  error = none;
}
verify_totp u (failed message) t = record t {
  error = some (if session_expired u message then expired_retry else message);
}

unfoldable pub disable_totp : ApiResult Value → Totp → Totp
disable_totp (value v) t = record t { code = []; password = []; error = none }
disable_totp (failed message) t = record t { error = some message }

unfoldable pub cancel_enrollment : Totp → Totp
cancel_enrollment t = record t {
  enrolling = false;
  code = [];
  secret = none;
  qr_data_url = none;
  error = none;
}

unfoldable pub refresh_passkeys : ApiResult (List PasskeyInfo) → List PasskeyInfo
refresh_passkeys (value passkeys) = passkeys
refresh_passkeys (failed message) = []

pub record Passkeys : Type 0 where
  pub listed : List PasskeyInfo
  pub error : Option Text
  pub success : Option Text

pub data Ceremony : Type 0 where
  finished : Ceremony
  rejected : Ceremony
  broken : Text → Ceremony

unfoldable pub add_passkey : Ceremony → ApiResult (List PasskeyInfo) → Passkeys → Passkeys
add_passkey finished list s = record {
  listed = refresh_passkeys list;
  error = none;
  success = some (codes "Passkey added — you can now sign in without a password.");
}
add_passkey rejected list s = record s { error = none; success = none }
add_passkey (broken message) list s = record s { error = some message; success = none }

unfoldable pub remove_passkey : Text → ApiResult Value → Passkeys → Passkeys
remove_passkey id (value v) s = record {
  listed = filter (λ (p : PasskeyInfo). not (text_eq p.id id)) s.listed;
  error = none;
  success = some (codes "Passkey removed.");
}
remove_passkey id (failed message) s = record s { error = some message; success = none }

-- Deleting an account locks the vault, forgets the user and leaves the page only after the word DELETE was
-- typed and the server has confirmed; in every other case the vault and the user stay as they are.
pub handle_delete_account-confirmed :
    {K : Type 0} (confirm : Text) (answer : ApiResult Value) (d : Deletion K)
    → let e = handle_delete_account confirm answer d in
      ((text_eq confirm (codes "DELETE") ≡ true)
        × (e ≡ record d { store = lock d.store; auth = clear d.auth; error = none; left = true }))
      ⊎ ((is_some e.error ≡ true) × (e.store ≡ d.store) × (e.auth ≡ d.auth) × (e.left ≡ d.left))
unfolding handle_delete_account
handle_delete_account-confirmed confirm answer d =
    elim (Bool-cases (text_eq confirm (codes "DELETE"))) [
      | inr e ↦ inr (rw (e, handle_delete_account) (refl, refl, refl, refl))
      | inl e ↦ go answer e
    ]
  where
    go :
        (a : ApiResult Value)
        → text_eq confirm (codes "DELETE") ≡ true
        → ((text_eq confirm (codes "DELETE") ≡ true)
            × (handle_delete_account confirm a d ≡ record d {
              store = lock d.store;
              auth = clear d.auth;
              error = none;
              left = true;
            }))
          ⊎ ((is_some (handle_delete_account confirm a d).error ≡ true)
              × ((handle_delete_account confirm a d).store ≡ d.store)
              × ((handle_delete_account confirm a d).auth ≡ d.auth)
              × ((handle_delete_account confirm a d).left ≡ d.left))
    go (value v) e = inl (e, rw (e, handle_delete_account) refl)
    go (failed m) e = inr (rw (e, handle_delete_account) (refl, refl, refl, refl))
