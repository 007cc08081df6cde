-- ===== src/Platform/Interface.antt =====
-- The operations and the laws.
use personal_password_manage.Prelude.{
  ℕ, ◌≡◌, ◌≢◌, Option, none, some, List, Text, IsByte, IsCodePoint, All, is_empty, false,
}
use personal_password_manage.Json.{Value}

pub record Platform : Type 1 where
  -- `CryptoKey`
  pub CryptoKey : Type 0
  -- `deriveKey`: PBKDF2-SHA256 of the password's bytes, the salt and the iterations
  pub derive_key : List ℕ → List ℕ → ℕ → CryptoKey
  -- `importKey('raw', …)` and `exportKey('raw', …)`; a derived key is not extractable (`none`)
  pub import_key : List ℕ → CryptoKey
  pub export_key : CryptoKey → Option (List ℕ)
  -- AES-GCM with the key, the nonce, the additional data and the text; `none` is a failed tag
  pub encrypt : CryptoKey → List ℕ → List ℕ → List ℕ → List ℕ
  pub decrypt : CryptoKey → List ℕ → List ℕ → List ℕ → Option (List ℕ)
  -- `JSON.stringify` and `JSON.parse`
  pub stringify : Value → Text
  pub parse : Text → Option Value

-- AES-GCM as an authenticated cipher: what is decrypted was encrypted under the same key, nonce and
-- additional data. (A forged tag, of probability 2 ^ -128, does not occur.)
pub record IsAuthenticated (p : Platform) : Type 0 where
  pub decrypt-encrypt :
      (k : p.CryptoKey) (nonce aad plain : List ℕ)
      → All IsByte plain
      → p.decrypt k nonce aad (p.encrypt k nonce aad plain) ≡ some plain
  pub encrypt-IsByte :
      (k : p.CryptoKey) (nonce aad plain : List ℕ)
      → All IsByte plain
      → All IsByte (p.encrypt k nonce aad plain)
  -- the tag is a part of the ciphertext
  pub encrypt_not_empty :
      (k : p.CryptoKey) (nonce aad plain : List ℕ) → is_empty (p.encrypt k nonce aad plain) ≡ false
  pub rejects_key :
      (k j : p.CryptoKey) (nonce aad plain : List ℕ)
      → j ≢ k
      → p.decrypt j nonce aad (p.encrypt k nonce aad plain) ≡ none
  pub rejects_aad :
      (k : p.CryptoKey) (nonce aad other plain : List ℕ)
      → other ≢ aad
      → p.decrypt k nonce other (p.encrypt k nonce aad plain) ≡ none
  -- what was imported as extractable is exported again
  pub export-import : (raw : List ℕ) → p.export_key (p.import_key raw) ≡ some raw

-- A value that `JSON.parse` reads back from what `JSON.stringify` writes, which is well-formed text.
pub record IsWritten (p : Platform) (v : Value) : Type 0 where
  pub code_points : All IsCodePoint (p.stringify v)
  pub read_back : p.parse (p.stringify v) ≡ some v
