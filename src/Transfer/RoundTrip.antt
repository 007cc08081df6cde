-- ===== src/Transfer/RoundTrip.antt =====
-- An export file is opened by its passphrase, and by no other.
use personal_password_manage.Prelude.{
  ℕ, ◌≡◌, ◌≢◌, refl, Option, none, some, List, Text, IsByte, All,
}
use personal_password_manage.Base64.{b64encode}
use personal_password_manage.Platform.{Platform, IsAuthenticated, IsWritten}
use personal_password_manage.Crypto.{derive_vault_key, encrypt_string, decrypt_string}
use personal_password_manage.Crypto.Wraps.{
  decrypt_string-encrypt_string, decrypt_string-encrypt_string_key,
}
use personal_password_manage.Vault.{VaultItem}
use personal_password_manage.Envelope.RoundTrip.{items_of-contents, texts-strings}
use personal_password_manage.Transfer.{
  VaultExportFile, file_value, payload_value, is_vault_export_file, is_export_payload,
  wrong_passphrase, opened, rejected, read_payload, export_format, export_version,
  export_iterations, export_cipher, export_kdf, create_encrypted_export, file_key,
  open_encrypted_export,
}

-- The file that an export with this key writes.
abbrev exported :
    (p : Platform)
    → p.CryptoKey
    → List ℕ
    → List VaultItem
    → List Text
    → Text
    → List ℕ
    → VaultExportFile
exported p key salt items folders now nonce = record {
  format = export_format;
  version = export_version;
  algorithm = export_kdf;
  iterations = export_iterations;
  salt = b64encode salt;
  cipher = export_cipher;
  ciphertext =
      (encrypt_string p key (p.stringify (payload_value now items folders)) nonce).ciphertext;
  nonce = (encrypt_string p key (p.stringify (payload_value now items folders)) nonce).nonce;
}

read_payload-value :
    (items : List VaultItem) (folders : List Text) (now : Text)
    → read_payload (some (payload_value now items folders))
      ≡ opened (record { items = items; folders = folders; exported_at = some now })
unfolding read_payload is_export_payload
read_payload-value items folders now = rw (items_of-contents items, texts-strings folders)

open-reads :
    (p : Platform) (passphrase : Text) (key : p.CryptoKey) (f : VaultExportFile) (r : Option Text)
    → f.format ≡ export_format
    → f.version ≡ export_version
    → f.algorithm ≡ export_kdf
    → derive_vault_key p passphrase f.salt f.iterations ≡ some key
    → decrypt_string p key f.ciphertext f.nonce ≡ r
    → open_encrypted_export p passphrase (file_value f)
      ≡ (elim r [ none ↦ rejected wrong_passphrase | some plain ↦ read_payload (p.parse plain) ])
unfolding open_encrypted_export file_value is_vault_export_file file_key
open-reads p passphrase key f r a b c d e = rw (a, b, c, d, e)

module _ (p : Platform) (h : IsAuthenticated p) where
  -- What is exported under a passphrase is read back with it: the items, the folders and the time.
  pub open_encrypted_export-create :
      (passphrase : Text) (key : p.CryptoKey) (items : List VaultItem) (folders : List Text)
      (salt : List ℕ) (now : Text) (nonce : List ℕ)
      → All IsByte nonce
      → IsWritten p (payload_value now items folders)
      → derive_vault_key p passphrase (b64encode salt) export_iterations ≡ some key
      → (f : VaultExportFile) × (create_encrypted_export p passphrase items folders salt now nonce
          ≡ some f)
        × (open_encrypted_export p passphrase (file_value f)
            ≡ opened (record { items = items; folders = folders; exported_at = some now }))
  unfolding create_encrypted_export
  open_encrypted_export-create passphrase key items folders salt now nonce bn w d =
      let back =
        decrypt_string-encrypt_string p h key (p.stringify (payload_value now items folders)) nonce
          w.code_points bn in
      let f = exported p key salt items folders now nonce in
      (
        f,
        rw (d, create_encrypted_export),
        rw (open-reads p passphrase key f _ refl refl refl d back, w.read_back)
            (read_payload-value items folders now),
      )

  -- A passphrase that derives another key does not open the file.
  pub open_encrypted_export-other :
      (passphrase guess : Text) (key other : p.CryptoKey) (items : List VaultItem)
      (folders : List Text) (salt : List ℕ) (now : Text) (nonce : List ℕ)
      → All IsByte nonce
      → IsWritten p (payload_value now items folders)
      → derive_vault_key p passphrase (b64encode salt) export_iterations ≡ some key
      → derive_vault_key p guess (b64encode salt) export_iterations ≡ some other
      → other ≢ key
      → (f : VaultExportFile) × (create_encrypted_export p passphrase items folders salt now nonce
          ≡ some f)
        × (open_encrypted_export p guess (file_value f) ≡ rejected wrong_passphrase)
  unfolding create_encrypted_export
  open_encrypted_export-other passphrase guess key other items folders salt now nonce bn w d g ne =
      let lost =
        decrypt_string-encrypt_string_key p h key other
          (p.stringify (payload_value now items folders)) nonce w.code_points bn ne in
      let f = exported p key salt items folders now nonce in
      (f, rw (d, create_encrypted_export), open-reads p guess other f none refl refl refl g lost)
