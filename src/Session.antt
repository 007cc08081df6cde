-- ===== src/Session.antt =====
-- hooks/useAuth.ts, the identity of the signed-in user, and app/login/page.tsx, the sign-in with an
-- optional second factor. A call is split at its await: what it does before, and with the answer.
pub mod Signing
use personal_password_manage.Prelude.{
  ℕ, Bool, true, false, ◌||◌, Option, none, some, List, [], ◌∷◌, if◌then◌else◌, Text, codes,
  includes,
}
use personal_password_manage.Api.{Me, ApiResult, value, failed}
use personal_password_manage.Json.{Value}
use personal_password_manage.Passkeys.{
  RequestOptions, Assertion, Prompted, Outcome, not_allowed, other, done, fails,
  get_passkey_assertion,
}

pub record AuthState : Type 0 where
  pub user : Option Me
  pub loading : Bool
  pub error : Option Text

abbrev pub signed_out : AuthState
signed_out = record { user = none; loading = false; error = none }

-- `refresh` up to the request: the state, and whether the request is sent.
unfoldable pub begin_refresh : AuthState → Bool × AuthState
begin_refresh s =
    if s.loading then (false, s) else (true, record s { loading = true; error = none })

abbrev pub is_signed_out : Text → Bool
is_signed_out message =
    includes (codes "401") message || includes (codes "Authentication failed") message

unfoldable pub finish_refresh : ApiResult Me → AuthState → AuthState
finish_refresh (value me) s = record s { user = some me; loading = false }
finish_refresh (failed message) s = record s {
  user = none;
  loading = false;
  error = if is_signed_out message then none else some message;
}

unfoldable pub clear : AuthState → AuthState
clear s = record s { user = none; error = none }

pub record LoginPage : Type 0 where
  pub email : Text
  pub password : Text
  pub awaiting2fa : Bool
  pub code : Text
  pub error : Option Text
  pub loading : Bool
  pub unlocking : Bool

abbrev pub opened_page : LoginPage
opened_page = record {
  email = [];
  password = [];
  awaiting2fa = false;
  code = [];
  error = none;
  loading = false;
  unlocking = false;
}

-- `handleSubmit` up to the request.
unfoldable pub begin_submit : LoginPage → LoginPage
begin_submit page = record page { error = none; loading = true }

-- The answer of `login` is whether a second factor is required; `unlocking` is the route to /unlock.
unfoldable pub finish_login : ApiResult Bool → LoginPage → LoginPage
finish_login (failed message) page = record page { error = some message; loading = false }
finish_login (value true) page = record page { awaiting2fa = true; code = []; loading = false }
finish_login (value false) page = record page { unlocking = true; loading = false }

unfoldable pub finish_challenge : {A : Type 0} → ApiResult A → LoginPage → LoginPage
finish_challenge (failed message) page = record page { error = some message; loading = false }
finish_challenge (value v) page = record page { unlocking = true; loading = false }

-- The button "Use a different account" of the second step.
unfoldable pub use_different_account : LoginPage → LoginPage
use_different_account page = record page { awaiting2fa = false; code = []; error = none }

-- What `startPasskeyLogin` and `startPasskeyRegistration` answer.
pub record Started (O : Type 0) : Type 0 where
  pub ceremony_id : Text
  pub options : O

-- The page after the answer to an assertion.
unfoldable pub finish_passkey : ApiResult Value → LoginPage → LoginPage
finish_passkey (failed message) page = record page { error = some message }
finish_passkey (value v) page = record page { error = none; unlocking = true }

-- What follows the prompt; one that the user dismisses is no error.
unfoldable pub after_prompt :
    (Assertion Text → ApiResult Value) → Outcome (Assertion Text) → LoginPage → LoginPage
after_prompt finish (fails not_allowed) page = record page { error = none }
after_prompt finish (fails (other message)) page = record page { error = some message }
after_prompt finish (done assertion) page = finish_passkey (finish assertion) page

-- `get` is the browser's prompt, `finish` the answer of the server to the assertion.
unfoldable pub handle_passkey_login :
    ApiResult (Started (RequestOptions Text))
    → (RequestOptions (List ℕ) → Prompted (Assertion (List ℕ)))
    → (Text → Assertion Text → ApiResult Value)
    → LoginPage
    → LoginPage
handle_passkey_login (failed message) get finish page = record page { error = some message }
handle_passkey_login (value started) get finish page =
    after_prompt (finish started.ceremony_id) (get_passkey_assertion get started.options) page
