-- ===== src/Examples/Accounts.antt =====
-- The creation of an account and its vault.
use personal_password_manage.Prelude.{
  ℕ, ◌≡◌, refl, true, false, some, none, List, [], ◌∷◌, codes, ascii_only, js_length,
}
use personal_password_manage.Base64.{b64encode}
use personal_password_manage.Json.{Value, null}
use personal_password_manage.Crypto.{
  aad_kek, aad_recovery, derive_recovery_key, import_vek, wrap_raw_key,
}
use personal_password_manage.Vault.{unlock}
use personal_password_manage.Recovery.{secret_chars, generate_recovery_secret}
use personal_password_manage.Envelope.{encrypt_envelope}
use personal_password_manage.Api.{VaultUpdate, ApiResult, value, failed}
use personal_password_manage.Register.{
  KdfParams, Random, RegisterPage, Stage, handle_submit, retry_submit,
}
use personal_password_manage.Register.Kit.{first_update-made, retry_submit-finishes}
use personal_password_manage.Samples.{accept, kek, derived, platform, nonce, vek, master, store}

abbrev drawn : Random
drawn = record {
  vek = vek;
  secret = λ i. i;
  kek_nonce = nonce;
  recovery_nonce = nonce;
  body_nonce = nonce;
}

abbrev kdf : KdfParams
kdf = record { salt = b64encode (5 ∷ []); iterations = 3 }

abbrev refuse : VaultUpdate → ApiResult Value
refuse req = failed (codes "Internal server error")

abbrev filled : RegisterPage (List ℕ)
filled = record {
  step = Stage.form;
  master_password = master;
  confirm_master = master;
  error = none;
  loading = false;
  secret_key = none;
  acknowledged = false;
  registered = false;
  kdf = none;
  store = store;
}

abbrev first : VaultUpdate
first = record {
  version = 1;
  body = encrypt_envelope platform (import_vek platform vek) [] [] nonce;
  kek_wrap = some (wrap_raw_key platform kek vek aad_kek nonce);
  recovery_wrap = some (
      wrap_raw_key platform (derive_recovery_key platform (secret_chars (λ i. i)) 3) vek
        aad_recovery nonce);
}

retry_submit-finishes_example :
    let half = handle_submit platform ascii_only [] (value kdf) refuse drawn filled in
    let whole = retry_submit platform ascii_only [] accept drawn half in
    (half.registered ≡ true)
    × (half.kdf ≡ some kdf)
    × (half.step ≡ Stage.form)
    × (half.store ≡ store)
    × (whole.step ≡ Stage.secret)
    × (whole.secret_key ≡ some (generate_recovery_secret (λ i. i)))
    × (whole.store ≡ unlock [] [] (import_vek platform vek) 1 store)
unfolding js_length
retry_submit-finishes_example =
    retry_submit-finishes platform ascii_only [] (codes "Internal server error") kdf refuse accept
      drawn drawn filled first first (generate_recovery_secret (λ i. i))
      (generate_recovery_secret (λ i. i)) null refl refl
      (first_update-made platform ascii_only master kdf drawn kek (derived master 3)) refl
      (first_update-made platform ascii_only master kdf drawn kek (derived master 3)) refl
