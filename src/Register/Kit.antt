-- ===== src/Register/Kit.antt =====
-- The two ways into a new vault, and the second attempt at its creation.
use personal_password_manage.Prelude.{
  ◌≡◌, refl, true, false, some, [], arith, ltb, Text, text_eq, js_length, Unicode, IsByte, All,
}
use personal_password_manage.Json.{Value}
use personal_password_manage.Platform.{Platform, IsAuthenticated}
use personal_password_manage.Crypto.{
  derive_vault_key, derive_recovery_key, generate_vek, import_vek, aad_kek, aad_recovery,
  wrap_raw_key,
}
use personal_password_manage.Recovery.{
  SecretResult, generate_recovery_secret, normalize_recovery_secret, secret_chars,
}
use personal_password_manage.Recovery.Typed.{normalize_recovery_secret-generate}
use personal_password_manage.Envelope.{encrypt_envelope}
use personal_password_manage.Api.{VaultMeta, VaultUpdate, ApiResult, value, failed}
use personal_password_manage.VaultKeys.{
  Mode, SecretOutcome, resolve_vault_key_with_master_password, resolve_vault_key_with_secret_key,
}
use personal_password_manage.VaultKeys.Opening.{resolve-agree}
use personal_password_manage.Vault.{unlock}
use personal_password_manage.Register.{
  form, secret, KdfParams, RegisterPage, Random, first_update, initialize_vault, handle_submit,
  retry_submit,
}

pub first_update-made :
    (p : Platform) (u : Unicode) (master : Text) (kdf : KdfParams) (r : Random) (kek : p.CryptoKey)
    → derive_vault_key p master kdf.salt kdf.iterations ≡ some kek
    → first_update p u master kdf r
      ≡ some (
        record {
          version = 1;
          body = encrypt_envelope p (import_vek p r.vek) [] [] r.body_nonce;
          kek_wrap = some (wrap_raw_key p kek r.vek aad_kek r.kek_nonce);
          recovery_wrap = some (
              wrap_raw_key p
                (derive_recovery_key p (secret_chars r.secret) kdf.iterations)
                r.vek
                aad_recovery
                r.recovery_nonce);
        },
        generate_recovery_secret r.secret,
      )
unfolding first_update generate_vek
first_update-made p u master kdf r kek d =
    rw (d, first_update, (normalize_recovery_secret-generate u r.secret).1)

module _ (p : Platform) (h : IsAuthenticated p) (u : Unicode) where
  -- The update that creates a vault carries version 1 and two wraps of its key: with them, the master
  -- password opens the vault, and so does the Secret Key that is shown, typed as it is printed.
  pub first_update-opens :
      (master : Text) (kdf : KdfParams) (r : Random) (kek : p.CryptoKey) (after : VaultMeta)
      → All IsByte r.vek
      → All IsByte r.kek_nonce
      → All IsByte r.recovery_nonce
      → derive_vault_key p master kdf.salt kdf.iterations ≡ some kek
      → after.kdf_salt ≡ kdf.salt
      → after.kdf_iterations ≡ kdf.iterations
      → (req : VaultUpdate) × (shown : Text) × (typed : Text) × (first_update p u master kdf r
          ≡ some (req, shown))
        × (req.version ≡ 1)
        × (normalize_recovery_secret u shown ≡ SecretResult.ok typed)
        × (resolve_vault_key_with_master_password p
              (record after { kek_wrap = req.kek_wrap; recovery_wrap = req.recovery_wrap })
              master
            ≡ some (record { data_key = import_vek p r.vek; mode = Mode.v2 }))
        × (resolve_vault_key_with_secret_key p
              (record after { kek_wrap = req.kek_wrap; recovery_wrap = req.recovery_wrap })
              typed
            ≡ SecretOutcome.recovered (record { data_key = import_vek p r.vek; raw_vek = r.vek }))
  first_update-opens master kdf r kek after bv bk br d s i =
      let made = first_update-made p u master kdf r kek d in
      let typed = (normalize_recovery_secret-generate u r.secret).1 in
      let kept = wrap_raw_key p kek r.vek aad_kek r.kek_nonce in
      let printed =
        wrap_raw_key p (derive_recovery_key p (secret_chars r.secret) kdf.iterations) r.vek
          aad_recovery r.recovery_nonce in
      let (a, b) =
        resolve-agree p h (record after { kek_wrap = some kept; recovery_wrap = some printed })
          master (secret_chars r.secret) kek r.vek r.kek_nonce r.recovery_nonce bv bk br
          (rw (s, i) d) refl (rw i refl) in
      (_, _, secret_chars r.secret, made, refl, typed, a, b)

-- When the account is made but its vault is not, the page keeps the key parameters and marks the account
-- as registered; a second attempt with the same passwords, when the server takes its update, opens the
-- empty vault of version 1 and shows the secret.
pub retry_submit-finishes :
    (p : Platform) (u : Unicode) (of_step message : Text) (kdf : KdfParams)
    (put put' : VaultUpdate → ApiResult Value) (r r' : Random) (page : RegisterPage p.CryptoKey)
    (req req' : VaultUpdate) (shown shown' : Text) (v : Value)
    → text_eq page.master_password page.confirm_master ≡ true
    → ltb (js_length page.master_password) 12 ≡ false
    → first_update p u page.master_password kdf r ≡ some (req, shown)
    → put req ≡ failed message
    → first_update p u page.master_password kdf r' ≡ some (req', shown')
    → put' req' ≡ value v
    → let first = handle_submit p u of_step (value kdf) put r page in
      let second = retry_submit p u of_step put' r' first in
      (first.registered ≡ true)
      × (first.kdf ≡ some kdf)
      × (first.step ≡ form)
      × (first.store ≡ page.store)
      × (second.step ≡ secret)
      × (second.secret_key ≡ some shown')
      × (second.store ≡ unlock [] [] (import_vek p r'.vek) 1 page.store)
unfolding handle_submit retry_submit initialize_vault generate_vek
retry_submit-finishes p u of_step message kdf put put' r r' page req req' shown shown' v m l f n f'
      n' =
    (
      ground (arith, m, l, f, n),
      ground (arith, m, l, f, n),
      ground (arith, m, l, f, n),
      ground (arith, m, l, f, n),
      ground (arith, m, l, f, n, f', n'),
      ground (arith, m, l, f, n, f', n'),
      ground (arith, m, l, f, n, f', n'),
    )
