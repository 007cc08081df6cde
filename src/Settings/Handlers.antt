-- ===== src/Settings/Handlers.antt =====
-- Whole handlers of app/settings/page.tsx: the export, the import, the recovery kit and the passkey ceremony.
-- `pretty` is the indented text of a value, `of_step` the message of a step that throws in the runtime.
use personal_password_manage.Prelude.{
  ℕ, not, ◌||◌, ◌==◌, Option, none, some, List, ◌++◌, if◌then◌else◌, Text, codes, is_empty, is_some,
  Unicode,
}
use personal_password_manage.Json.{Value}
use personal_password_manage.Platform.{Platform}
use personal_password_manage.Crypto.{KeyWrap}
use personal_password_manage.Transfer.{
  file_value, OpenError, unrecognized, bad_kdf, wrong_passphrase, not_json, malformed, opened,
  rejected, create_encrypted_export, open_encrypted_export, read_export_file,
}
use personal_password_manage.Vault.{VaultState}
use personal_password_manage.Api.{
  VaultMeta, KeysUpdate, ApiResult, value, failed, session_expired, decimal,
}
use personal_password_manage.Api.Endpoints.{Endpoint}
use personal_password_manage.Api.Calls.{finish_passkey_registration}
use personal_password_manage.Passkeys.{
  CreationOptions, Attestation, Prompted, done, fails, not_allowed, other, create_passkey,
}
use personal_password_manage.Settings.{import_opened, kit_wrap}
use personal_password_manage.Settings.Access.{
  export_error, expired_retry, Ceremony, finished, broken,
}

-- `downloaded` is the text of the last file.
pub record ExportForm : Type 0 where
  pub passphrase : Text
  pub error : Option Text
  pub downloaded : Option Text

pub record ImportForm : Type 0 where
  pub file : Option Text
  pub passphrase : Text
  pub error : Option Text
  pub result : Option Text

pub record KitPage : Type 0 where
  pub meta : Option VaultMeta
  pub secret_key : Option Text
  pub error : Option Text

-- What `openEncryptedExport` throws.
abbrev pub open_message : Text → OpenError → Text
open_message of_step unrecognized =
    codes "That file is not a SecureVault export (unrecognized format)."
open_message of_step wrong_passphrase =
    codes "Wrong passphrase — the export file could not be decrypted."
open_message of_step malformed = codes "Export file contents are malformed."
open_message of_step bad_kdf = of_step
open_message of_step not_json = of_step

abbrev pub imported_text : ℕ → Text
imported_text added =
    codes "Imported "
    ++ decimal added
    ++ codes " item"
    ++ (if added == 1 then codes "" else codes "s")
    ++ codes " — syncing…"

module _ (p : Platform) (of_step : Text) where
  unfoldable pub handle_export :
      (Value → Text) → VaultState p.CryptoKey → List ℕ → Text → List ℕ → ExportForm → ExportForm
  handle_export pretty s salt now nonce form = elim (export_error (is_some s.key) form.passphrase) [
    | some e ↦ record form { error = some e }
    | none ↦ elim (create_encrypted_export p form.passphrase s.items s.folders salt now nonce) [
      | none ↦ record form { error = some of_step }
      | some file ↦ record {
        passphrase = codes "";
        error = none;
        downloaded = some (pretty (file_value file));
      }
    ]
  ]

  unfoldable pub handle_import :
      VaultState p.CryptoKey → ImportForm → ImportForm × VaultState p.CryptoKey
  handle_import s form =
      if not (is_some form.file) || not (is_some s.key)
      then (
        record form {
          error = some (codes "Choose an export file (and unlock your vault) first.");
          result = none;
        },
        s,
      )
      else elim form.file [
        | none ↦ (form, s)
        | some text ↦ elim (read_export_file p text) [
          | none ↦ (
            record form { error = some (codes "That file is not valid JSON."); result = none },
            s,
          )
          | some parsed ↦ elim (open_encrypted_export p form.passphrase parsed) [
            | rejected e ↦ (record form { error = some (open_message of_step e); result = none }, s)
            | opened file ↦
                let (t, added) = import_opened file s in
                (
                  record {
                    file = none;
                    passphrase = codes "";
                    error = none;
                    result = some (imported_text added);
                  },
                  t,
                )
          ]
        ]
      ]

module _ (p : Platform) (u : Unicode) where
  abbrev pub kit_failure : Text → KitPage → KitPage
  kit_failure message k = record k {
    error = some (if session_expired u message then expired_retry else message);
  }

  -- The answer to the update, and `get` to the fetch after it; the secret is shown before that fetch.
  unfoldable pub kit_stored : Text → ApiResult Value → ApiResult VaultMeta → KitPage → KitPage
  kit_stored secret (failed message) get k = kit_failure message k
  kit_stored secret (value v) (failed message) k =
      kit_failure message (record k { secret_key = some secret })
  kit_stored secret (value v) (value fresh) k = record k {
    meta = some fresh;
    secret_key = some secret;
  }

  unfoldable pub kit_wrapped :
      Text
      → Option (KeyWrap × Text)
      → (KeysUpdate → ApiResult Value)
      → ApiResult VaultMeta
      → KitPage
      → KitPage
  kit_wrapped of_step none put_keys get k = kit_failure of_step k
  kit_wrapped of_step (some (wrap, secret)) put_keys get k =
      kit_stored secret (put_keys (record { kek_wrap = none; recovery_wrap = some wrap })) get k

  -- `handleGenerateKit` with the metadata at hand.
  unfoldable pub generate_with :
      Text
      → VaultMeta
      → (ℕ → ℕ)
      → List ℕ
      → (KeysUpdate → ApiResult Value)
      → ApiResult VaultMeta
      → VaultState p.CryptoKey
      → KitPage
      → KitPage
  generate_with of_step meta random nonce put_keys get s k =
      if not (is_some meta.kek_wrap)
      then record k {
        error = some (
            codes
              "This vault still uses direct master-password encryption. Change your master password once to upgrade it, then generate a recovery kit.");
      }
      else (if not (is_some s.key)
          then record k {
            error = some (codes "Vault is locked — unlock it before generating a recovery kit.");
          }
          else kit_wrapped of_step (kit_wrap p u meta random nonce s) put_keys get k)

  -- `first` answers the fetch of the metadata where none is at hand.
  unfoldable pub handle_generate_kit :
      Text
      → ApiResult VaultMeta
      → (ℕ → ℕ)
      → List ℕ
      → (KeysUpdate → ApiResult Value)
      → ApiResult VaultMeta
      → VaultState p.CryptoKey
      → KitPage
      → KitPage
  handle_generate_kit of_step first random nonce put_keys get s k =
      let cleared : KitPage = record k { error = none } in
      elim k.meta [
        | some meta ↦ generate_with of_step meta random nonce put_keys get s cleared
        | none ↦ elim first [
          | failed message ↦ kit_failure message cleared
          | value meta ↦ generate_with of_step meta random nonce put_keys get s cleared
        ]
      ]

-- The start of the registration of a passkey.
pub record StartedRegistration : Type 0 where
  pub ceremony_id : Text
  pub options : CreationOptions Text

-- The name that is sent with a new passkey.
abbrev pub passkey_name : CreationOptions Text → Text
passkey_name o = if is_empty o.rp_name then codes "This device" else o.rp_name

-- The calls of `addPasskey` before the list is read again.
unfoldable pub passkey_ceremony :
    (CreationOptions (List ℕ) → Prompted (Attestation (List ℕ)))
    → ApiResult StartedRegistration
    → (Endpoint → ApiResult Value)
    → Ceremony
passkey_ceremony create (failed message) send = broken message
passkey_ceremony create (value started) send = elim (create_passkey create started.options) [
  | fails not_allowed ↦ Ceremony.rejected
  | fails (other message) ↦ broken message
  | done a ↦
      elim (send
        (finish_passkey_registration started.ceremony_id a (some (passkey_name started.options)))) [
          | failed message ↦ broken message
          | value v ↦ finished
        ]
]
