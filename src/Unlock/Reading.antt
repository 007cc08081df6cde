-- ===== src/Unlock/Reading.antt =====
-- The unlock page on a snapshot whatever wrote it: what counts is the value that its JSON reads back.
use personal_password_manage.Prelude.{
  ℕ, ◌≡◌, false, Option, none, some, List, [], arith, ltb, Text, IsByte, All, is_empty, js_length,
  Unicode,
}
use personal_password_manage.Utf8.RoundTrip.{encode-IsByte}
use personal_password_manage.Base64.RoundTrip.{b64encode_not_empty}
use personal_password_manage.Platform.{Platform, IsAuthenticated, IsWritten}
use personal_password_manage.Crypto.{
  encrypt_string, KeyWrap, aad_kek, derive_vault_key, import_vek, wrap_raw_key, unwrap_raw_key,
}
use personal_password_manage.Crypto.Wraps.{unwrap-wrap}
use personal_password_manage.Envelope.{
  VaultEnvelope, EnvelopeResult, read_envelope, decrypt_envelope,
}
use personal_password_manage.Envelope.RoundTrip.{decrypt_envelope-written}
use personal_password_manage.Api.{VaultMeta, VaultUpdate, ApiResult}
use personal_password_manage.Json.{Value}
use personal_password_manage.VaultKeys.{Mode, resolve_vault_key_with_master_password}
use personal_password_manage.Unlock.{
  Page, enter_vault, load_contents, unlock_contents, handle_unlock,
}

module _ (p : Platform) where
  pub resolve-v2 :
      (meta : VaultMeta) (master : Text) (kek : p.CryptoKey) (wrap : KeyWrap) (r : Option (List ℕ))
      → derive_vault_key p master meta.kdf_salt meta.kdf_iterations ≡ some kek
      → meta.kek_wrap ≡ some wrap
      → unwrap_raw_key p kek wrap aad_kek ≡ r
      → resolve_vault_key_with_master_password p meta master ≡ (elim r [
        | some raw ↦ some (record { data_key = import_vek p raw; mode = Mode.v2 })
        | none ↦ none
      ])
  unfolding resolve_vault_key_with_master_password
  resolve-v2 meta master kek wrap r d k w = ground (arith, d, k, w)

  load_contents-ok :
      (meta : VaultMeta) (key : p.CryptoKey) (e : KeyWrap) (c : VaultEnvelope)
      → meta.ciphertext ≡ some e.ciphertext
      → meta.nonce ≡ some e.nonce
      → is_empty e.ciphertext ≡ false
      → is_empty e.nonce ≡ false
      → decrypt_envelope p key e.ciphertext e.nonce ≡ EnvelopeResult.ok c
      → load_contents p meta key
        ≡ some (record { items = c.items; folders = c.folders; server_version = meta.version })
  unfolding load_contents
  load_contents-ok meta key e c a b f g o = ground (arith, a, b, f, g, o)

module _ (p : Platform) (h : IsAuthenticated p) where
  -- The right master password opens a vault with a wrapped key whose snapshot holds the JSON of a value: the
  -- store holds the items and folders that are read of the value.
  pub handle_unlock-reads :
      (u : Unicode) (meta : VaultMeta) (put : VaultUpdate → ApiResult Value)
      (raw wn n vek wrap_nonce nonce : List ℕ) (kek : p.CryptoKey) (v : Value) (e : VaultEnvelope)
      (page : Page p.CryptoKey)
      → ltb (js_length page.master_password) 12 ≡ false
      → All IsByte vek
      → All IsByte wrap_nonce
      → All IsByte nonce
      → IsWritten p v
      → read_envelope p (some v) ≡ EnvelopeResult.ok e
      → derive_vault_key p page.master_password meta.kdf_salt meta.kdf_iterations ≡ some kek
      → meta.kek_wrap ≡ some (wrap_raw_key p kek vek aad_kek wrap_nonce)
      → meta.ciphertext
        ≡ some (encrypt_string p (import_vek p vek) (p.stringify v) nonce).ciphertext
      → meta.nonce ≡ some (encrypt_string p (import_vek p vek) (p.stringify v) nonce).nonce
      → is_empty nonce ≡ false
      → handle_unlock p u (ApiResult.value meta) put raw wn n page
        ≡ enter_vault
            (import_vek p vek)
            (record { items = e.items; folders = e.folders; server_version = meta.version })
            page
  unfolding handle_unlock unlock_contents encrypt_string
  handle_unlock-reads u meta put raw wn n vek wrap_nonce nonce kek v e page l bv bw bn w r d k a b
        g =
      let opened =
        resolve-v2 p meta page.master_password kek _ (some vek) d k
          (unwrap-wrap p h kek vek wrap_nonce aad_kek bv bw) in
      let x = encrypt_string p (import_vek p vek) (p.stringify v) nonce in
      let bytes = encode-IsByte (p.stringify v) w.code_points in
      let full =
        b64encode_not_empty _ (h.encrypt-IsByte (import_vek p vek) nonce [] _ bytes)
          (h.encrypt_not_empty (import_vek p vek) nonce [] _) in
      let full' = b64encode_not_empty nonce bn g in
      let contents =
        load_contents-ok p meta (import_vek p vek) x e a b full full'
          (decrypt_envelope-written p h (import_vek p vek) v e nonce bn w r) in
      rw (l, handle_unlock, opened, contents)
