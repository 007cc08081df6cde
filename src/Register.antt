-- ===== src/Register.antt =====
-- app/register/page.tsx: the creation of an account and of its vault. The answers of the server and the
-- random bytes are arguments; `rawVek.fill(0)` comes after the last use of the buffer.
pub mod Kit
use personal_password_manage.Prelude.{
  ℕ, Bool, true, false, not, Option, none, some, List, [], ◌∷◌, ◌++◌, if◌then◌else◌, ltb, Text,
  codes, text_eq, js_length, Unicode,
}
use personal_password_manage.Json.{Value}
use personal_password_manage.Platform.{Platform}
use personal_password_manage.Crypto.{
  aad_kek, aad_recovery, derive_vault_key, derive_recovery_key, generate_vek, wrap_raw_key,
}
use personal_password_manage.Recovery.{
  SecretError, SecretResult, generate_recovery_secret, normalize_recovery_secret,
}
use personal_password_manage.Envelope.{encrypt_envelope}
use personal_password_manage.Api.{VaultUpdate, ApiResult, value, failed}
use personal_password_manage.Vault.{VaultState, unlock}

pub data Stage : Type 0 where
  form creating secret : Stage

pub record KdfParams : Type 0 where
  pub salt : Text
  pub iterations : ℕ

pub record RegisterPage (K : Type 0) : Type 0 where
  pub step : Stage
  pub master_password : Text
  pub confirm_master : Text
  pub error : Option Text
  pub loading : Bool
  pub secret_key : Option Text
  pub acknowledged : Bool
  pub registered : Bool
  pub kdf : Option KdfParams
  pub store : VaultState K

-- The random bytes of one initialisation: the vault key, the secret, and three nonces.
pub record Random : Type 0 where
  pub vek : List ℕ
  pub secret : ℕ → ℕ
  pub kek_nonce : List ℕ
  pub recovery_nonce : List ℕ
  pub body_nonce : List ℕ

abbrev pub no_match : Text
no_match = codes "Master passwords do not match"

abbrev pub too_short : Text
too_short = codes "Master password must be at least 12 characters"

abbrev pub not_completed : Text
not_completed = codes "Registration did not complete — refresh and try again."

abbrev pub init_failed : Text → Text
init_failed message = codes "Vault initialization failed: " ++ message

abbrev pub created_but : Text → Text
created_but message =
    codes
      "Account created, but vault initialization failed — press \"Try again\" to finish setting up your vault. ("
    ++ message
    ++ codes ")"

module _ (p : Platform) (u : Unicode) where
  -- The update that creates the vault, and the secret that is shown; `none` where a step throws.
  unfoldable pub first_update : Text → KdfParams → Random → Option (VaultUpdate × Text)
  first_update master kdf r = elim (derive_vault_key p master kdf.salt kdf.iterations) [
    | none ↦ none
    | some kek ↦ elim (normalize_recovery_secret u (generate_recovery_secret r.secret)) [
      | SecretResult.err e ↦ none
      | SecretResult.ok normalized ↦
          let recovery_key = derive_recovery_key p normalized kdf.iterations in
          let (raw_vek, vek) = generate_vek p r.vek in
          some (
            record {
              version = 1;
              body = encrypt_envelope p vek [] [] r.body_nonce;
              kek_wrap = some (wrap_raw_key p kek raw_vek aad_kek r.kek_nonce);
              recovery_wrap =
                  some (wrap_raw_key p recovery_key raw_vek aad_recovery r.recovery_nonce);
            },
            generate_recovery_secret r.secret,
          )
    ]
  ]

  -- `initializeVault`: the page after it, or the message that it throws; `of_step` is that of a step
  -- before the upload.
  unfoldable pub initialize_vault :
      Text
      → (VaultUpdate → ApiResult Value)
      → Text
      → KdfParams
      → Random
      → RegisterPage p.CryptoKey
      → ApiResult (RegisterPage p.CryptoKey)
  initialize_vault of_step put master kdf r page = elim (first_update master kdf r) [
    | none ↦ failed of_step
    | some (req, shown) ↦ elim (put req) [
      | failed message ↦ failed message
      | value v ↦ value (record page {
        store = unlock [] [] (generate_vek p r.vek).1 1 page.store;
        loading = false;
        secret_key = some shown;
        step = secret;
      })
    ]
  ]

  -- `handleSubmit`. Its `catch` reads `registered` as it was when the handler was made.
  unfoldable pub handle_submit :
      Text
      → ApiResult KdfParams
      → (VaultUpdate → ApiResult Value)
      → Random
      → RegisterPage p.CryptoKey
      → RegisterPage p.CryptoKey
  handle_submit of_step account put r page =
      if not (text_eq page.master_password page.confirm_master)
      then record page { error = some no_match }
      else (if ltb (js_length page.master_password) 12
          then record page { error = some too_short }
          else elim account [
            | failed message ↦ caught message page
            | value kdf ↦
                let made = record page {
                  error = none;
                  loading = true;
                  step = creating;
                  registered = true;
                  kdf = some kdf;
                } in
                elim (initialize_vault of_step put page.master_password kdf r made) [
                  | failed message ↦ caught message made
                  | value done ↦ done
                ]
          ])
    where
      caught : Text → RegisterPage p.CryptoKey → RegisterPage p.CryptoKey
      caught message now = record now {
        error = some (if page.registered then created_but message else message);
        step = form;
        loading = false;
      }

  unfoldable pub retry_submit :
      Text
      → (VaultUpdate → ApiResult Value)
      → Random
      → RegisterPage p.CryptoKey
      → RegisterPage p.CryptoKey
  retry_submit of_step put r page =
      if not (text_eq page.master_password page.confirm_master)
      then record page { error = some no_match }
      else (if ltb (js_length page.master_password) 12
          then record page { error = some too_short }
          else elim page.kdf [
            | none ↦ record page { error = some not_completed; step = form; loading = false }
            | some kdf ↦
                let made = record page { error = none; loading = true; step = creating } in
                elim (initialize_vault of_step put page.master_password kdf r made) [
                  | failed message ↦ record made {
                    error = some (init_failed message);
                    step = form;
                    loading = false;
                  }
                  | value done ↦ done
                ]
          ])

module _ {K : Type 0} where
  -- `continueToVault`: the kit leaves the state of the page.
  unfoldable pub continue_to_vault : RegisterPage K → RegisterPage K
  continue_to_vault page = record page { secret_key = none }
