-- ===== src/Crypto.antt =====
-- The key hierarchy of lib/crypto.ts: keys derived from the master password and the Secret Key, the
-- vault encryption key (VEK), its wraps, and the encryption of texts. An `async` function is a
-- function; a rejected promise is `none`. Random bytes are arguments.
pub mod Wraps
use personal_password_manage.Prelude.{
  ℕ, Option, none, some, List, [], Text, codes, zero, suc, ◌∷◌, map,
}
use personal_password_manage.Base64.{b64encode, b64decode, ◌>>=◌}
use personal_password_manage.Utf8.{encode, decode}
use personal_password_manage.Platform.{Platform}

-- `WRAP_AAD`
abbrev pub aad_kek : Text
aad_kek = codes "SecureVault:v1:kek"

abbrev pub aad_recovery : Text
aad_recovery = codes "SecureVault:v1:recovery"

abbrev pub recovery_salt : Text
recovery_salt = codes "SecureVault Recovery Key v1"

-- A ciphertext and its nonce in base64: `KeyWrap`, and what `encryptString` returns.
pub record KeyWrap : Type 0 where
  pub ciphertext : Text
  pub nonce : Text

module _ (p : Platform) where
  -- A salt that is no base64 makes `b64decode` throw.
  unfoldable pub derive_vault_key : Text → Text → ℕ → Option p.CryptoKey
  derive_vault_key password salt iterations = do
    salt_bytes ← b64decode salt
    some (p.derive_key (encode password) salt_bytes iterations)

  unfoldable pub derive_recovery_key : Text → ℕ → p.CryptoKey
  derive_recovery_key secret iterations =
      p.derive_key (encode secret) (encode recovery_salt) iterations

  unfoldable pub import_vek : List ℕ → p.CryptoKey
  import_vek raw = p.import_key raw

  -- `raw` are the bytes that `getRandomValues` gave.
  unfoldable pub generate_vek : List ℕ → List ℕ × p.CryptoKey
  generate_vek raw = (raw, import_vek raw)

  unfoldable pub wrap_raw_key : p.CryptoKey → List ℕ → Text → List ℕ → KeyWrap
  wrap_raw_key key raw_vek aad nonce = record {
    ciphertext = b64encode (p.encrypt key nonce (encode aad) raw_vek);
    nonce = b64encode nonce;
  }

  unfoldable pub unwrap_raw_key : p.CryptoKey → KeyWrap → Text → Option (List ℕ)
  unwrap_raw_key key wrap aad = do
    nonce ← b64decode wrap.nonce
    cipher ← b64decode wrap.ciphertext
    p.decrypt key nonce (encode aad) cipher

  unfoldable pub encrypt_string : p.CryptoKey → Text → List ℕ → KeyWrap
  encrypt_string key plaintext nonce = record {
    ciphertext = b64encode (p.encrypt key nonce [] (encode plaintext));
    nonce = b64encode nonce;
  }

  unfoldable pub decrypt_string : p.CryptoKey → Text → Text → Option Text
  decrypt_string key ciphertext nonce = do
    iv ← b64decode nonce
    cipher ← b64decode ciphertext
    plain ← p.decrypt key iv [] cipher
    some (decode plain)

  -- The raw variants, with the nonce kept beside the bytes.
  unfoldable pub encrypt_data : List ℕ → p.CryptoKey → List ℕ → List ℕ × List ℕ
  encrypt_data plain key iv = (p.encrypt key iv [] plain, iv)

  unfoldable pub decrypt_data : List ℕ → p.CryptoKey → List ℕ → Option (List ℕ)
  decrypt_data ciphertext key iv = p.decrypt key iv [] ciphertext
