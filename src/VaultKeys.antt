-- ===== src/VaultKeys.antt =====
-- lib/vaultKeys.ts: which data key opens a vault, from the master password or from the Secret Key.
pub mod Opening
use personal_password_manage.Prelude.{ℕ, Option, none, some, List, Text}
use personal_password_manage.Base64.{◌>>=◌}
use personal_password_manage.Platform.{Platform}
use personal_password_manage.Crypto.{
  aad_kek, aad_recovery, derive_vault_key, derive_recovery_key, import_vek, unwrap_raw_key,
}
use personal_password_manage.Api.{VaultMeta}

pub data Mode : Type 0 where
  v2 legacy : Mode

pub record Resolved (K : Type 0) : Type 0 where
  pub data_key : K
  pub mode : Mode

pub record Recovered (K : Type 0) : Type 0 where
  pub data_key : K
  pub raw_vek : List ℕ

-- What `resolveVaultKeyWithSecretKey` throws.
pub data SecretFailure : Type 0 where
  no_kit wrong_key : SecretFailure

pub data SecretOutcome (K : Type 0) : Type 0 where
  recovered : Recovered K → SecretOutcome K
  refused : SecretFailure → SecretOutcome K

module _ (p : Platform) where
  unfoldable pub resolve_vault_key_with_master_password :
      VaultMeta → Text → Option (Resolved p.CryptoKey)
  resolve_vault_key_with_master_password meta master_password = do
    kek ← derive_vault_key p master_password meta.kdf_salt meta.kdf_iterations
    elim meta.kek_wrap [
      | some wrap ↦ do
        raw ← unwrap_raw_key p kek wrap aad_kek
        some (record { data_key = import_vek p raw; mode = v2 })
      | none ↦ some (record { data_key = kek; mode = legacy })
    ]

  unfoldable pub resolve_vault_key_with_secret_key : VaultMeta → Text → SecretOutcome p.CryptoKey
  resolve_vault_key_with_secret_key meta normalized_secret = elim meta.recovery_wrap [
    | none ↦ refused no_kit
    | some wrap ↦
        let rk = derive_recovery_key p normalized_secret meta.kdf_iterations in
        elim (unwrap_raw_key p rk wrap aad_recovery) [
          | none ↦ refused wrong_key
          | some raw_vek ↦ recovered (record { data_key = import_vek p raw_vek; raw_vek = raw_vek })
        ]
  ]
