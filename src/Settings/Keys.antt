-- ===== src/Settings/Keys.antt =====
-- What a change of the master password and a new recovery kit leave at the server.
use personal_password_manage.Prelude.{
  ℕ, ◌≡◌, ◌≢◌, refl, none, some, List, Text, Unicode, IsByte, All, length,
}
use personal_password_manage.Json.{Value}
use personal_password_manage.Utf8.{encode}
use personal_password_manage.Server.{
  Base64Crate, IsStandard, Server, Sealed, done, update_vault_keys, get_vault, apply_wrap_update,
  to_wrap,
}
use personal_password_manage.Server.Wrapped.{sent, IsSealed, decode_wrap-sent, sent_same}
use personal_password_manage.Platform.{Platform, IsAuthenticated}
use personal_password_manage.Crypto.{
  KeyWrap, aad_kek, aad_recovery, derive_vault_key, derive_recovery_key, import_vek, wrap_raw_key,
}
use personal_password_manage.Crypto.Wraps.{unwrap-wrap, unwrap-wrap_key}
use personal_password_manage.Recovery.{secret_chars, generate_recovery_secret}
use personal_password_manage.Recovery.Typed.{normalize_recovery_secret-generate}
use personal_password_manage.Api.{VaultMeta, VaultUpdate, KeysUpdate, ApiResult}
use personal_password_manage.VaultKeys.{
  Mode, SecretOutcome, wrong_key, resolve_vault_key_with_master_password,
  resolve_vault_key_with_secret_key,
}
use personal_password_manage.Vault.{VaultState}
use personal_password_manage.Settings.{
  rewrapped, form_failure, rewrap, change_wrapped, handle_change_master, kit_wrap,
}

-- The recovery wrap of a kit, as the server stores it.
abbrev pub sealed_kit : (p : Platform) → (ℕ → ℕ) → ℕ → List ℕ → List ℕ → Sealed
sealed_kit p random iterations nonce vek = record {
  ciphertext =
      p.encrypt (derive_recovery_key p (secret_chars random) iterations) nonce (encode aad_recovery)
        vek;
  nonce = nonce;
}

update_vault_keys-kit :
    (c : Base64Crate)
    → IsStandard c
    → (row : Server) (x : Sealed) (now : Text) → IsSealed x
    → length x.ciphertext ≡ 48
    → update_vault_keys c (record { kek_wrap = none; recovery_wrap = some (sent x) }) now row
      ≡ done (record row { updated_at = now; recovery_wrap = some x })
unfolding update_vault_keys apply_wrap_update
update_vault_keys-kit c std row x now h l = rw (decode_wrap-sent c std x h l)

module _ (p : Platform) (h : IsAuthenticated p) (u : Unicode) where
  -- A change with the right current password sends one key update and no snapshot; with the wrap in it the
  -- new password opens the same vault key, and a password that derives another key, as the old one does,
  -- opens nothing.
  pub handle_change_master-rewraps :
      (of_step : Text) (put : VaultUpdate → ApiResult Value)
      (put_keys : KeysUpdate → ApiResult Value) (v : Value) (meta : VaultMeta) (current new : Text)
      (raw wn n vek on : List ℕ) (s : VaultState p.CryptoKey) (kek new_kek : p.CryptoKey)
      → form_failure current new new ≡ none
      → All IsByte vek
      → All IsByte on
      → All IsByte wn
      → derive_vault_key p current meta.kdf_salt meta.kdf_iterations ≡ some kek
      → derive_vault_key p new meta.kdf_salt meta.kdf_iterations ≡ some new_kek
      → kek ≢ new_kek
      → meta.kek_wrap ≡ some (wrap_raw_key p kek vek aad_kek on)
      → put_keys
          (record { kek_wrap = some (wrap_raw_key p new_kek vek aad_kek wn); recovery_wrap = none })
        ≡ ApiResult.value v
      → (handle_change_master p u of_step put put_keys meta current new new raw wn n s ≡ rewrapped)
        × (resolve_vault_key_with_master_password p
              (record meta { kek_wrap = some (wrap_raw_key p new_kek vek aad_kek wn) })
              new
            ≡ some (record { data_key = import_vek p vek; mode = Mode.v2 }))
        × (resolve_vault_key_with_master_password p
              (record meta { kek_wrap = some (wrap_raw_key p new_kek vek aad_kek wn) })
              current
            ≡ none)
  unfolding handle_change_master change_wrapped rewrap resolve_vault_key_with_master_password
  handle_change_master-rewraps of_step put put_keys v meta current new raw wn n vek on s kek new_kek
        f bv bo bw d d' ne k sent =
      (
        rw
            (
              handle_change_master,
              f,
              k,
              change_wrapped,
              rewrap,
              d,
              unwrap-wrap p h kek vek on aad_kek bv bo,
              d',
              sent,
            )
            refl,
        rw (
          resolve_vault_key_with_master_password,
          d',
          unwrap-wrap p h new_kek vek wn aad_kek bv bw,
        ),
        rw (
          resolve_vault_key_with_master_password,
          d,
          unwrap-wrap_key p h new_kek kek vek wn aad_kek bv bw ne,
        ),
      )

  pub kit_wrap-made :
      (meta : VaultMeta) (random : ℕ → ℕ) (nonce vek : List ℕ) (s : VaultState p.CryptoKey)
      (wrap : KeyWrap)
      → meta.kek_wrap ≡ some wrap
      → s.key ≡ some (import_vek p vek)
      → kit_wrap p u meta random nonce s
        ≡ some (
          wrap_raw_key p
              (derive_recovery_key p (secret_chars random) meta.kdf_iterations)
              vek
              aad_recovery
              nonce,
          generate_recovery_secret random,
        )
  unfolding kit_wrap import_vek
  kit_wrap-made meta random nonce vek s wrap k e =
      rw (kit_wrap, k, e, h.export-import vek, (normalize_recovery_secret-generate u random).1)

  -- A new recovery kit of a vault at the server: the update with its wrap is accepted, and of the metadata
  -- that the server gives out afterwards, the new secret opens the vault key, and a secret that derives
  -- another key, as that of an older kit does whatever wrap the server had, does not; the wrap of the master
  -- password and the snapshot stay. The ciphertext of the wrap is to have the 48 bytes that the server asks.
  pub kit_wrap-replaces :
      (c : Base64Crate) (random : ℕ → ℕ) (nonce vek : List ℕ) (s : VaultState p.CryptoKey)
      (row : Server) (kek : Sealed) (older now : Text)
      → IsStandard c
      → All IsByte vek
      → All IsByte nonce
      → length nonce ≡ 12
      → row.kek_wrap ≡ some kek
      → s.key ≡ some (import_vek p vek)
      → length (sealed_kit p random row.kdf.iterations nonce vek).ciphertext ≡ 48
      → derive_recovery_key p older row.kdf.iterations
        ≢ derive_recovery_key p (secret_chars random) row.kdf.iterations
      → (w : KeyWrap) × (after : Server) × (kit_wrap p u (get_vault c row) random nonce s
          ≡ some (w, generate_recovery_secret random))
        × (update_vault_keys c (record { kek_wrap = none; recovery_wrap = some w }) now row
            ≡ done after)
        × (resolve_vault_key_with_secret_key p (get_vault c after) (secret_chars random)
            ≡ SecretOutcome.recovered (record { data_key = import_vek p vek; raw_vek = vek }))
        × (resolve_vault_key_with_secret_key p (get_vault c after) older
            ≡ SecretOutcome.refused wrong_key)
        × ((get_vault c after).kek_wrap ≡ (get_vault c row).kek_wrap)
        × ((get_vault c after).ciphertext ≡ (get_vault c row).ciphertext)
  unfolding resolve_vault_key_with_secret_key get_vault wrap_raw_key
  kit_wrap-replaces c random nonce vek s row kek older now std bv bn ln k e ls ne =
      let x = sealed_kit p random row.kdf.iterations nonce vek in
      let rk = derive_recovery_key p (secret_chars random) row.kdf.iterations in
      let sealed : IsSealed x = record {
        ciphertext_bytes = h.encrypt-IsByte rk nonce (encode aad_recovery) vek bv;
        nonce_bytes = bn;
        nonce_length = ln;
      } in
      let same = sent_same c std x sealed in
      (
        sent x,
        record row { updated_at = now; recovery_wrap = some x },
        kit_wrap-made (get_vault c row) random nonce vek s (to_wrap c kek) (rw (get_vault, k)) e,
        update_vault_keys-kit c std row x now sealed ls,
        rw (
          resolve_vault_key_with_secret_key,
          same,
          unwrap-wrap p h rk vek nonce aad_recovery bv bn,
        ),
        rw (
          resolve_vault_key_with_secret_key,
          same,
          unwrap-wrap_key p h rk (derive_recovery_key p older row.kdf.iterations) vek nonce
              aad_recovery bv bn ne,
        ),
        refl,
        refl,
      )
