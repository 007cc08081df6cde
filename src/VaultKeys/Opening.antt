-- ===== src/VaultKeys/Opening.antt =====
-- What opens a vault that both wraps of one vault encryption key protect.
use personal_password_manage.Prelude.{ℕ, ◌≡◌, ◌≢◌, none, some, List, Text, IsByte, All}
use personal_password_manage.Platform.{Platform, IsAuthenticated}
use personal_password_manage.Crypto.{
  aad_kek, aad_recovery, derive_vault_key, derive_recovery_key, import_vek, wrap_raw_key,
}
use personal_password_manage.Crypto.Wraps.{unwrap-wrap, unwrap-wrap_key}
use personal_password_manage.Api.{VaultMeta}
use personal_password_manage.VaultKeys.{
  v2, wrong_key, recovered, refused, resolve_vault_key_with_master_password,
  resolve_vault_key_with_secret_key,
}

module _ (p : Platform) (h : IsAuthenticated p) where
  -- The master password of a vault with a wrapped key gives the vault encryption key, and the
  -- Secret Key of its recovery kit gives the same key and its bytes.
  pub resolve-agree :
      (meta : VaultMeta) (password secret : Text) (kek : p.CryptoKey) (raw nonce nonce' : List ℕ)
      → All IsByte raw
      → All IsByte nonce
      → All IsByte nonce'
      → derive_vault_key p password meta.kdf_salt meta.kdf_iterations ≡ some kek
      → meta.kek_wrap ≡ some (wrap_raw_key p kek raw aad_kek nonce)
      → meta.recovery_wrap
        ≡ some (
            wrap_raw_key p
              (derive_recovery_key p secret meta.kdf_iterations)
              raw
              aad_recovery
              nonce')
      → (resolve_vault_key_with_master_password p meta password
          ≡ some (record { data_key = import_vek p raw; mode = v2 }))
        × (resolve_vault_key_with_secret_key p meta secret
            ≡ recovered (record { data_key = import_vek p raw; raw_vek = raw }))
  unfolding resolve_vault_key_with_master_password resolve_vault_key_with_secret_key
  resolve-agree meta password secret kek raw nonce nonce' r n n' d k w = (
    rw (d, k, unwrap-wrap p h kek raw nonce aad_kek r n),
    rw (
      resolve_vault_key_with_secret_key,
      w,
      unwrap-wrap p h (derive_recovery_key p secret meta.kdf_iterations) raw nonce' aad_recovery r
          n',
    ),
  )

  -- A master password that derives another key, and a Secret Key that derives another key, do not
  -- open the vault.
  pub resolve-others :
      (meta : VaultMeta) (password secret : Text) (kek other rk : p.CryptoKey)
      (raw nonce nonce' : List ℕ)
      → All IsByte raw
      → All IsByte nonce
      → All IsByte nonce'
      → derive_vault_key p password meta.kdf_salt meta.kdf_iterations ≡ some other
      → other ≢ kek
      → derive_recovery_key p secret meta.kdf_iterations ≢ rk
      → meta.kek_wrap ≡ some (wrap_raw_key p kek raw aad_kek nonce)
      → meta.recovery_wrap ≡ some (wrap_raw_key p rk raw aad_recovery nonce')
      → (resolve_vault_key_with_master_password p meta password ≡ none)
        × (resolve_vault_key_with_secret_key p meta secret ≡ refused wrong_key)
  unfolding resolve_vault_key_with_master_password resolve_vault_key_with_secret_key
  resolve-others meta password secret kek other rk raw nonce nonce' r n n' d ne ne' k w = (
    rw (d, k, unwrap-wrap_key p h kek other raw nonce aad_kek r n ne),
    rw (
      resolve_vault_key_with_secret_key,
      w,
      unwrap-wrap_key p h rk (derive_recovery_key p secret meta.kdf_iterations) raw nonce'
          aad_recovery r n' ne',
    ),
  )
