-- ===== src/Api.antt =====
-- lib/api.ts: the records that the server sends, and `request`, which turns a response into a value or
-- an error message. `Fetched` is what `fetch` gives; its network is not modelled.
pub mod Errors
pub mod Endpoints
pub mod Calls
use personal_password_manage.Prelude.{
  ℕ, zero, suc, ◌+◌, ◌-◌, ◌/◌, ◌%◌, Bool, true, false, ◌&&◌, ◌||◌, Option, none, some, List, [],
  ◌∷◌, ◌++◌, ltb, leb, ◌==◌, if◌then◌else◌, Text, codes, is_empty, includes, Unicode, to_lower_case,
}
use personal_password_manage.Json.{Value, null, string, object, property}
use personal_password_manage.Crypto.{KeyWrap}

pub data Role : Type 0 where
  user admin : Role

pub record Me : Type 0 where
  pub user_id : Text
  pub email : Text
  pub role : Role
  pub totp_enabled : Bool

pub record PasskeyInfo : Type 0 where
  pub id : Text
  pub name : Option Text
  pub created_at : Option Text
  pub last_used_at : Option Text

pub record VaultMeta : Type 0 where
  pub version : ℕ
  pub ciphertext : Option Text
  pub nonce : Option Text
  pub updated_at : Option Text
  pub kdf_algorithm : Text
  pub kdf_memory : ℕ
  pub kdf_iterations : ℕ
  pub kdf_parallelism : ℕ
  pub kdf_salt : Text
  pub encrypted_vault_key : Text
  pub kek_wrap : Option KeyWrap
  pub recovery_wrap : Option KeyWrap

-- The body of `api.vault.update`.
pub record VaultUpdate : Type 0 where
  pub version : ℕ
  pub body : KeyWrap
  pub kek_wrap : Option KeyWrap
  pub recovery_wrap : Option KeyWrap

-- The body of `api.vault.updateKeys`.
pub record KeysUpdate : Type 0 where
  pub kek_wrap : Option KeyWrap
  pub recovery_wrap : Option KeyWrap

-- A response; `none` is a body that is no JSON.
pub record Response : Type 0 where
  pub status : ℕ
  pub body : Option Value

pub data Fetched : Type 0 where
  rejected : Text → Fetched
  answered : Response → Fetched

-- A promise of an api call: its value, or the message of the `Error` that it rejects with.
pub data ApiResult {ℓ} (A : Type ℓ) : Type ℓ where
  value : A → ApiResult A
  failed : Text → ApiResult A

-- A number in decimal; the fuel bounds the number of digits.
pub decimal_from : ℕ → ℕ → Text → Text
decimal_from zero n rest = rest
decimal_from (suc fuel) n rest =
    let more = decimal_from fuel (n / 10) ((48 + n % 10) ∷ rest) in
    if ltb n 10 then (48 + n) ∷ rest else more

unfoldable pub decimal : ℕ → Text
unfolding decimal_from
decimal n = decimal_from (suc n) n []

abbrev pub request_failed : Text
request_failed = codes "Request failed"

-- The message of a `TypeError`, when `error.error` is read from `null`.
abbrev pub null_error : Text
null_error = codes "Cannot read properties of null (reading 'error')"

abbrev pub http_status : ℕ → Text
http_status status = codes "HTTP " ++ decimal status

-- `error.error || \`HTTP ${res.status}\``, where a body that is no JSON stands for a failed request.
-- An `error` that is no text would be printed; the server sends texts.
unfoldable pub body_message : ℕ → Value → Text
body_message status null = null_error
body_message status other = elim (property (codes "error") other) [
  | some (string s) ↦ if is_empty s then http_status status else s
  | _ ↦ http_status status
]

unfoldable pub error_message : Response → Text
unfolding body_message
error_message res = elim res.body [
  | none ↦ request_failed
  | some body ↦ body_message res.status body
]

-- `res.ok`
abbrev pub is_ok : ℕ → Bool
is_ok status = leb 200 status && ltb status 300

abbrev pub invalid_json : Text
invalid_json = codes "Unexpected end of JSON input"

unfoldable pub request : Fetched → ApiResult Value
request (rejected message) = failed message
request (answered res) =
    if is_ok res.status
    then (elim res.body [ some v ↦ value v | none ↦ failed invalid_json ])
    else failed (error_message res)

-- The test that the pages make on a message to tell an expired session.
unfoldable pub session_expired : Unicode → Text → Bool
session_expired u message =
    includes (codes "401") message
    || includes (codes "authentication failed") (to_lower_case u message)

-- `message.toLowerCase().includes('conflict')`, of the vault synchronisation.
unfoldable pub is_conflict : Unicode → Text → Bool
is_conflict u message = includes (codes "conflict") (to_lower_case u message)
