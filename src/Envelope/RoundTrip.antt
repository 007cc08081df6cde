-- ===== src/Envelope/RoundTrip.antt =====
-- An envelope is read back under its key, and under no other.
use personal_password_manage.Prelude.{
  ℕ, ◌≡◌, ◌≢◌, refl, ap, ap₂, some, List, [], ◌∷◌, map, arith, Text, IsByte, All,
}
use personal_password_manage.Json.{Value, object, end, Fields, elements, from_list, as_text}
use personal_password_manage.Platform.{Platform, IsAuthenticated, IsWritten}
use personal_password_manage.Crypto.Wraps.{
  decrypt_string-encrypt_string, decrypt_string-encrypt_string_key,
}
use personal_password_manage.Vault.{VaultItem}
use personal_password_manage.Envelope.{
  item_value, value_item, contents_value, strings, ok, err, not_decrypted, encrypt_envelope,
  decrypt_envelope, read_envelope, VaultEnvelope,
}
use personal_password_manage.Crypto.{encrypt_string}

pub texts-strings : (ss : List Text) → map (λ s. as_text (some s)) (elements (strings ss)) ≡ ss
texts-strings [] = refl
texts-strings (s ∷ ss) = ap (λ (t : List Text). s ∷ t) (texts-strings ss)

value_item-item_value : (item : VaultItem) → value_item (item_value item) ≡ item
unfolding value_item item_value
value_item-item_value item = ground (arith, texts-strings item.urls)

pub items_of-contents :
    (items : List VaultItem) → map value_item (elements (from_list (map item_value items))) ≡ items
items_of-contents [] = refl
items_of-contents (item ∷ items) = ap₂ ◌∷◌ (value_item-item_value item) (items_of-contents items)

pub read_envelope-contents :
    (p : Platform) (items : List VaultItem) (folders : List Text) (rest : Fields)
    → read_envelope p (some (object (contents_value items folders rest)))
      ≡ ok (record { items = items; folders = folders })
unfolding read_envelope
read_envelope-contents p items folders rest = rw (items_of-contents items, texts-strings folders)

abbrev pub envelope_value : List VaultItem → List Text → Value
envelope_value items folders = object (contents_value items folders end)

module _ (p : Platform) (h : IsAuthenticated p) where
  -- The JSON of a value, encrypted as a text, is decrypted to what is read of the value.
  pub decrypt_envelope-written :
      (key : p.CryptoKey) (v : Value) (e : VaultEnvelope) (nonce : List ℕ)
      → All IsByte nonce
      → IsWritten p v
      → read_envelope p (some v) ≡ ok e
      → let x = encrypt_string p key (p.stringify v) nonce in
        decrypt_envelope p key x.ciphertext x.nonce ≡ ok e
  unfolding decrypt_envelope
  decrypt_envelope-written key v e nonce n w r =
      rw
        (
          decrypt_string-encrypt_string p h key (p.stringify v) nonce w.code_points n,
          decrypt_envelope,
          w.read_back,
        )
        r

  -- A snapshot is decrypted under its key to the items and folders that were encrypted.
  pub decrypt_envelope-encrypt_envelope :
      (key : p.CryptoKey) (items : List VaultItem) (folders : List Text) (nonce : List ℕ)
      → All IsByte nonce
      → IsWritten p (envelope_value items folders)
      → let e = encrypt_envelope p key items folders nonce in
        decrypt_envelope p key e.ciphertext e.nonce
        ≡ ok (record { items = items; folders = folders })
  unfolding encrypt_envelope
  decrypt_envelope-encrypt_envelope key items folders nonce n w =
      decrypt_envelope-written key (envelope_value items folders)
        (record { items = items; folders = folders }) nonce n w
        (read_envelope-contents p items folders end)

  -- Under any other key it is refused.
  pub decrypt_envelope-encrypt_envelope_key :
      (key other : p.CryptoKey) (items : List VaultItem) (folders : List Text) (nonce : List ℕ)
      → All IsByte nonce
      → IsWritten p (envelope_value items folders)
      → other ≢ key
      → let e = encrypt_envelope p key items folders nonce in
        decrypt_envelope p other e.ciphertext e.nonce ≡ err not_decrypted
  unfolding encrypt_envelope decrypt_envelope
  decrypt_envelope-encrypt_envelope_key key other items folders nonce n w ne = rw (
    decrypt_string-encrypt_string_key p h key other (p.stringify (envelope_value items folders))
        nonce w.code_points n ne,
    decrypt_envelope,
  )
