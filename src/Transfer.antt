-- ===== src/Transfer.antt =====
-- lib/vaultTransfer.ts: the encrypted export file and its reader. The salt, the nonce and the time are
-- arguments of the export. A file that is read is any JSON value; a salt that is no text or an iteration
-- count that is no number fails like one that the cipher refuses (the runtime would coerce some of them).
pub mod RoundTrip
use personal_password_manage.Prelude.{
  ℕ, Bool, true, false, ◌&&◌, Option, none, some, List, [], ◌∷◌, ◌++◌, take, if◌then◌else◌, Text,
  codes,
}
use personal_password_manage.Base64.{b64encode, ◌>>=◌}
use personal_password_manage.Json.{
  Value, number, string, object, Fields, field, end, property, is_object, is_string, is_text,
  is_number, as_text,
}
use personal_password_manage.Platform.{Platform}
use personal_password_manage.Crypto.{KeyWrap, derive_vault_key, encrypt_string, decrypt_string}
use personal_password_manage.Vault.{VaultItem}
use personal_password_manage.Envelope.{
  contents_value, items_of, folders_of, has_contents, as_optional,
}

abbrev pub export_format : Text
export_format = codes "secure-vault-export"

abbrev pub export_version : ℕ
export_version = 1

abbrev pub export_iterations : ℕ
export_iterations = 310000

abbrev pub export_cipher : Text
export_cipher = codes "AES-256-GCM"

abbrev pub export_kdf : Text
export_kdf = codes "PBKDF2-SHA256"

pub record VaultExportFile : Type 0 where
  pub format : Text
  pub version : ℕ
  pub algorithm : Text
  pub iterations : ℕ
  pub salt : Text
  pub cipher : Text
  pub ciphertext : Text
  pub nonce : Text

-- The file as JSON.
unfoldable pub file_value : VaultExportFile → Value
file_value f = object (
    field (codes "format") (string f.format) (
      field (codes "version") (number f.version) (
        field (codes "kdf")
          (object (
            field (codes "algorithm") (string f.algorithm) (
              field (codes "iterations") (number f.iterations)
                (field (codes "salt") (string f.salt) end))))
          (field (codes "cipher") (string f.cipher) (
            field (codes "ciphertext") (string f.ciphertext)
              (field (codes "nonce") (string f.nonce) end))))))

-- The name of the downloaded file, after the time of the download.
unfoldable pub export_name : Text → Text
export_name now = codes "securevault-export-" ++ take 10 now ++ codes ".json"

abbrev pub member : Text → Option Value → Option Value
member key none = none
member key (some v) = property key v

abbrev pub is_some_object : Option Value → Bool
is_some_object none = false
is_some_object (some v) = is_object v

unfoldable pub is_vault_export_file : Value → Bool
is_vault_export_file v =
    is_object v
    && is_text export_format (property (codes "format") v)
    && is_number export_version (property (codes "version") v)
    && is_string (property (codes "ciphertext") v)
    && is_string (property (codes "nonce") v)
    && is_some_object (property (codes "kdf") v)
    && is_text export_kdf (member (codes "algorithm") (property (codes "kdf") v))

unfoldable pub is_export_payload : Value → Bool
is_export_payload v =
    is_object v && is_text (codes "vault") (property (codes "kind") v) && has_contents v

-- `{ kind: 'vault', exported_at, items, folders }`
abbrev pub payload_value : Text → List VaultItem → List Text → Value
payload_value exported_at items folders = object (
    field (codes "kind") (string (codes "vault"))
      (field (codes "exported_at") (string exported_at) (contents_value items folders end)))

pub record Opened : Type 0 where
  pub items : List VaultItem
  pub folders : List Text
  pub exported_at : Option Text

pub data OpenError : Type 0 where
  unrecognized bad_kdf wrong_passphrase not_json malformed : OpenError

pub data OpenResult : Type 0 where
  opened : Opened → OpenResult
  rejected : OpenError → OpenResult

abbrev pub number_option : Option Value → Option ℕ
number_option (some (number n)) = some n
number_option _ = none

-- `if (!isExportPayload(payload)) …` and the result.
unfoldable pub read_payload : Option Value → OpenResult
read_payload none = rejected not_json
read_payload (some payload) =
    if is_export_payload payload
    then opened (record {
      items = items_of payload;
      folders = folders_of payload;
      exported_at = as_optional (property (codes "exported_at") payload);
    })
    else rejected malformed

module _ (p : Platform) where
  -- The salt is made by `b64encode` just before, so its key derivation does not fail.
  unfoldable pub create_encrypted_export :
      Text → List VaultItem → List Text → List ℕ → Text → List ℕ → Option VaultExportFile
  create_encrypted_export passphrase items folders salt_bytes now nonce =
      elim (derive_vault_key p passphrase (b64encode salt_bytes) export_iterations) [
        | none ↦ none
        | some key ↦
            let e = encrypt_string p key (p.stringify (payload_value now items folders)) nonce in
            some (record {
              format = export_format;
              version = export_version;
              algorithm = export_kdf;
              iterations = export_iterations;
              salt = b64encode salt_bytes;
              cipher = export_cipher;
              ciphertext = e.ciphertext;
              nonce = e.nonce;
            })
      ]

  -- The key of a file.
  unfoldable pub file_key : Text → Value → Option p.CryptoKey
  file_key passphrase parsed =
      let kdf = property (codes "kdf") parsed in
      elim (as_optional (member (codes "salt") kdf)) [
        | none ↦ none
        | some salt ↦ elim (number_option (member (codes "iterations") kdf)) [
          | none ↦ none
          | some iterations ↦ derive_vault_key p passphrase salt iterations
        ]
      ]

  unfoldable pub open_encrypted_export : Text → Value → OpenResult
  open_encrypted_export passphrase parsed =
      if is_vault_export_file parsed
      then elim (file_key passphrase parsed) [
        | none ↦ rejected bad_kdf
        | some key ↦
            elim (decrypt_string p key (as_text (property (codes "ciphertext") parsed))
              (as_text (property (codes "nonce") parsed))) [
                | none ↦ rejected wrong_passphrase
                | some plaintext ↦ read_payload (p.parse plaintext)
              ]
      ]
      else rejected unrecognized

  -- `readExportFile`: the text of a file as JSON, `none` where it is none.
  unfoldable pub read_export_file : Text → Option Value
  read_export_file text = p.parse text
