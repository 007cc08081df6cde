-- ===== src/Crypto/Wraps.antt =====
-- What a wrap opens to, and what does not open it.
use personal_password_manage.Prelude.{
  ℕ, ◌≡◌, ◌≢◌, ap, none, some, List, [], Text, IsByte, IsCodePoint, All,
}
use personal_password_manage.Base64.RoundTrip.{b64decode-b64encode}
use personal_password_manage.Utf8.{encode, encode_char}
use personal_password_manage.Utf8.RoundTrip.{decode-encode, encode-IsByte}
use personal_password_manage.Platform.{Platform, IsAuthenticated}
use personal_password_manage.Crypto.{
  aad_kek, aad_recovery, wrap_raw_key, unwrap_raw_key, encrypt_string, decrypt_string,
}

module _ (p : Platform) (h : IsAuthenticated p) where
  -- A wrap is opened under its key and purpose.
  pub unwrap-wrap :
      (key : p.CryptoKey) (raw nonce : List ℕ) (aad : Text)
      → All IsByte raw
      → All IsByte nonce
      → unwrap_raw_key p key (wrap_raw_key p key raw aad nonce) aad ≡ some raw
  unfolding unwrap_raw_key wrap_raw_key
  unwrap-wrap key raw nonce aad r n =
      rw
        (
          b64decode-b64encode nonce n,
          b64decode-b64encode _ (h.encrypt-IsByte key nonce (encode aad) raw r),
        )
        (h.decrypt-encrypt key nonce (encode aad) raw r)

  -- Another key does not open a wrap.
  pub unwrap-wrap_key :
      (key other : p.CryptoKey) (raw nonce : List ℕ) (aad : Text)
      → All IsByte raw
      → All IsByte nonce
      → other ≢ key
      → unwrap_raw_key p other (wrap_raw_key p key raw aad nonce) aad ≡ none
  unfolding unwrap_raw_key wrap_raw_key
  unwrap-wrap_key key other raw nonce aad r n ne =
      rw
        (
          b64decode-b64encode nonce n,
          b64decode-b64encode _ (h.encrypt-IsByte key nonce (encode aad) raw r),
        )
        (h.rejects_key key other nonce (encode aad) raw ne)

  unwrap-wrap_aad :
      (key : p.CryptoKey) (raw nonce : List ℕ) (aad other : Text)
      → All IsByte raw
      → All IsByte nonce
      → encode other ≢ encode aad
      → unwrap_raw_key p key (wrap_raw_key p key raw aad nonce) other ≡ none
  unfolding unwrap_raw_key wrap_raw_key
  unwrap-wrap_aad key raw nonce aad other r n ne =
      rw
        (
          b64decode-b64encode nonce n,
          b64decode-b64encode _ (h.encrypt-IsByte key nonce (encode aad) raw r),
        )
        (h.rejects_aad key nonce (encode aad) (encode other) raw ne)

  -- A wrap made for one purpose is not opened for the other, even under the same key: a master
  -- password wrap cannot stand in for a recovery wrap, nor the other way round.
  pub wraps_separated :
      (key : p.CryptoKey) (raw nonce : List ℕ)
      → All IsByte raw
      → All IsByte nonce
      → (unwrap_raw_key p key (wrap_raw_key p key raw aad_kek nonce) aad_recovery ≡ none)
        × (unwrap_raw_key p key (wrap_raw_key p key raw aad_recovery nonce) aad_kek ≡ none)
  unfolding encode encode_char
  wraps_separated key raw nonce r n = (
    unwrap-wrap_aad key raw nonce aad_kek aad_recovery r n (λ e. cc),
    unwrap-wrap_aad key raw nonce aad_recovery aad_kek r n (λ e. cc),
  )

  -- A text is decrypted under its key, and under no other.
  pub decrypt_string-encrypt_string :
      (key : p.CryptoKey) (s : Text) (nonce : List ℕ)
      → All IsCodePoint s
      → All IsByte nonce
      → let e = encrypt_string p key s nonce in decrypt_string p key e.ciphertext e.nonce ≡ some s
  unfolding encrypt_string decrypt_string
  decrypt_string-encrypt_string key s nonce c n =
      let bytes = encode-IsByte s c in
      rw
        (
          b64decode-b64encode nonce n,
          b64decode-b64encode _ (h.encrypt-IsByte key nonce [] (encode s) bytes),
          h.decrypt-encrypt key nonce [] (encode s) bytes,
        )
        (ap some (decode-encode s c))

  pub decrypt_string-encrypt_string_key :
      (key other : p.CryptoKey) (s : Text) (nonce : List ℕ)
      → All IsCodePoint s
      → All IsByte nonce
      → other ≢ key
      → let e = encrypt_string p key s nonce in decrypt_string p other e.ciphertext e.nonce ≡ none
  unfolding encrypt_string decrypt_string
  decrypt_string-encrypt_string_key key other s nonce c n ne = rw (
    b64decode-b64encode nonce n,
    b64decode-b64encode _ (h.encrypt-IsByte key nonce [] (encode s) (encode-IsByte s c)),
    h.rejects_key key other nonce [] (encode s) ne,
  )
