-- ===== src/Journey.antt =====
-- The way of a new vault from the page that makes it (app/register/page.tsx, scripts/seed-demo.mjs) over the
-- server (crates/api/src/routes/vault.rs) to the unlock page of any browser.
use personal_password_manage.Prelude.{
  ℕ, none, ◌≡◌, refl, some, false, List, [], arith, ltb, length, Text, js_length, Unicode, IsByte,
  All,
}
use personal_password_manage.Utf8.{encode}
use personal_password_manage.Base64.{b64encode}
use personal_password_manage.Json.{Value, end}
use personal_password_manage.Platform.{Platform, IsAuthenticated, IsWritten}
use personal_password_manage.Crypto.{
  aad_kek, aad_recovery, derive_vault_key, derive_recovery_key, import_vek, wrap_raw_key,
  encrypt_string,
}
use personal_password_manage.Recovery.{
  SecretResult, secret_chars, generate_recovery_secret, normalize_recovery_secret,
}
use personal_password_manage.Recovery.Typed.{normalize_recovery_secret-generate}
use personal_password_manage.Envelope.{
  VaultEnvelope, encrypt_envelope, EnvelopeResult, read_envelope,
}
use personal_password_manage.Envelope.RoundTrip.{envelope_value, read_envelope-contents}
use personal_password_manage.Api.{VaultUpdate, ApiResult}
use personal_password_manage.Register.{KdfParams, Random, first_update}
use personal_password_manage.Register.Kit.{first_update-made}
use personal_password_manage.VaultKeys.{recovered, resolve_vault_key_with_secret_key}
use personal_password_manage.VaultKeys.Opening.{resolve-agree}
use personal_password_manage.Unlock.{Page, enter_vault, handle_unlock}
use personal_password_manage.Unlock.Reading.{handle_unlock-reads}
use personal_password_manage.Server.{
  Base64Crate, IsStandard, Server, Sealed, done, max_version, update_vault, get_vault,
}
use personal_password_manage.Server.Wrapped.{
  IsSealed, wrapped_update, stored_wrapped, update_vault-wrapped, get_vault-wrapped,
}

module _ (p : Platform) where
  -- What is sealed for the server: the JSON of a value under the vault key, and the vault key under the key
  -- of the master password and under that of the Secret Key.
  abbrev pub sealed_body : Value → Random → Sealed
  sealed_body v r = record {
    ciphertext = p.encrypt (import_vek p r.vek) r.body_nonce [] (encode (p.stringify v));
    nonce = r.body_nonce;
  }

  abbrev pub sealed_kek : p.CryptoKey → Random → Sealed
  sealed_kek kek r = record {
    ciphertext = p.encrypt kek r.kek_nonce (encode aad_kek) r.vek;
    nonce = r.kek_nonce;
  }

  abbrev pub sealed_recovery : ℕ → Random → Sealed
  sealed_recovery iterations r = record {
    ciphertext =
        p.encrypt (derive_recovery_key p (secret_chars r.secret) iterations) r.recovery_nonce
          (encode aad_recovery) r.vek;
    nonce = r.recovery_nonce;
  }

module _ (p : Platform) (h : IsAuthenticated p) (c : Base64Crate) (std : IsStandard c) where
  -- An account without a snapshot takes an update of version 1 with both wraps. With what GET /vault answers
  -- from then on, the master password opens a vault of what is read of the value at version 1, and the
  -- printed Secret Key, read back, gives the same key. (AES-GCM makes 48 bytes of the 32 of the key.)
  pub wrapped_update-opens :
      (u : Unicode) (master now : Text) (r : Random) (v : Value) (x : VaultEnvelope)
      (kek : p.CryptoKey) (s : Server) (put : VaultUpdate → ApiResult Value) (raw wn n : List ℕ)
      (page : Page p.CryptoKey)
      → All IsByte r.vek
      → IsSealed (sealed_body p v r)
      → IsSealed (sealed_kek p kek r)
      → IsSealed (sealed_recovery p s.kdf.iterations r)
      → length (sealed_kek p kek r).ciphertext ≡ 48
      → length (sealed_recovery p s.kdf.iterations r).ciphertext ≡ 48
      → IsWritten p v
      → read_envelope p (some v) ≡ EnvelopeResult.ok x
      → All IsByte s.kdf.salt
      → s.snapshot ≡ none
      → derive_vault_key p master (b64encode s.kdf.salt) s.kdf.iterations ≡ some kek
      → page.master_password ≡ master
      → ltb (js_length master) 12 ≡ false
      → (t : Server) × (update_vault c
            (wrapped_update 1
              (sealed_body p v r)
              (sealed_kek p kek r)
              (sealed_recovery p s.kdf.iterations r))
            now
            s
          ≡ done t)
        × (handle_unlock p u (ApiResult.value (get_vault c t)) put raw wn n page
            ≡ enter_vault
                (import_vek p r.vek)
                (record { items = x.items; folders = x.folders; server_version = 1 })
                page)
        × (normalize_recovery_secret u (generate_recovery_secret r.secret)
            ≡ SecretResult.ok (secret_chars r.secret))
        × (resolve_vault_key_with_secret_key p (get_vault c t) (secret_chars r.secret)
            ≡ recovered (record { data_key = import_vek p r.vek; raw_vek = r.vek }))
  unfolding wrap_raw_key encrypt_string get_vault
  wrapped_update-opens u master now r v x kek s put raw wn n page bv hb hk hr lk lr w o bs none_yet
        d e l =
      let body = sealed_body p v r in
      let k = sealed_kek p kek r in
      let rec = sealed_recovery p s.kdf.iterations r in
      let t = stored_wrapped c 1 body k rec now s in
      let meta = get_vault c t in
      let fresh : max_version s ≡ 0 = rw none_yet refl in
      let taken : update_vault c (wrapped_update 1 body k rec) now s ≡ done t =
        rw fresh at (update_vault-wrapped c std body k rec now s hb hk hr lk lr) in
      let (first, ct, nn, kw, recovery, salt, its) =
        get_vault-wrapped c std 1 body k rec now s hb hk hr bs in
      let d' : derive_vault_key p master meta.kdf_salt meta.kdf_iterations ≡ some kek =
        rw (salt, its) d in
      let d'' : derive_vault_key p page.master_password meta.kdf_salt meta.kdf_iterations
          ≡ some kek =
        rw e d' in
      let l' : ltb (js_length page.master_password) 12 ≡ false = rw e l in
      (
        t,
        taken,
        rw first at (
            handle_unlock-reads p h u meta put raw wn n r.vek r.kek_nonce r.body_nonce kek v x page
              l' bv hk.nonce_bytes hb.nonce_bytes w o d'' kw ct nn
              (ground (arith, hb.nonce_length))),
        (normalize_recovery_secret-generate u r.secret).1,
        (resolve-agree p h meta master (secret_chars r.secret) kek r.vek r.kek_nonce
            r.recovery_nonce bv hk.nonce_bytes hr.nonce_bytes d' kw (rw its recovery)).1,
      )

  -- A new account, from the registration page over the server to the unlock page: the server takes the
  -- update that the page makes of the answer to the registration, and with what GET /vault answers from
  -- then on, the master password opens the empty vault at version 1, and the Secret Key that the page
  -- showed, read back, gives the same key.
  pub first_update-journey :
      (u : Unicode) (master now : Text) (r : Random) (kek : p.CryptoKey) (s : Server)
      (put : VaultUpdate → ApiResult Value) (raw wn n : List ℕ) (page : Page p.CryptoKey)
      → All IsByte r.vek
      → IsSealed (sealed_body p (envelope_value [] []) r)
      → IsSealed (sealed_kek p kek r)
      → IsSealed (sealed_recovery p s.kdf.iterations r)
      → length (sealed_kek p kek r).ciphertext ≡ 48
      → length (sealed_recovery p s.kdf.iterations r).ciphertext ≡ 48
      → IsWritten p (envelope_value [] [])
      → All IsByte s.kdf.salt
      → s.snapshot ≡ none
      → derive_vault_key p master (b64encode s.kdf.salt) s.kdf.iterations ≡ some kek
      → page.master_password ≡ master
      → ltb (js_length master) 12 ≡ false
      → let kdf : KdfParams = record {
        salt = b64encode s.kdf.salt;
        iterations = s.kdf.iterations;
      } in
        (req : VaultUpdate) × (shown : Text) × (t : Server) × (first_update p u master kdf r
          ≡ some (req, shown))
        × (update_vault c req now s ≡ done t)
        × (handle_unlock p u (ApiResult.value (get_vault c t)) put raw wn n page
            ≡ enter_vault
                (import_vek p r.vek)
                (record { items = []; folders = []; server_version = 1 })
                page)
        × (normalize_recovery_secret u shown ≡ SecretResult.ok (secret_chars r.secret))
        × (resolve_vault_key_with_secret_key p (get_vault c t) (secret_chars r.secret)
            ≡ recovered (record { data_key = import_vek p r.vek; raw_vek = r.vek }))
  unfolding wrap_raw_key encrypt_envelope encrypt_string
  first_update-journey u master now r kek s put raw wn n page bv hb hk hr lk lr w bs none_yet d e
        l =
      let (t, taken, entered, typed, secret) =
        wrapped_update-opens u master now r (envelope_value [] [])
          (record { items = []; folders = [] }) kek s put raw wn n page bv hb hk hr lk lr w
          (read_envelope-contents p [] [] end) bs none_yet d e l in
      (
        wrapped_update 1 (sealed_body p (envelope_value [] []) r) (sealed_kek p kek r)
            (sealed_recovery p s.kdf.iterations r),
        generate_recovery_secret r.secret,
        t,
        first_update-made p u master _ r kek d,
        taken,
        entered,
        typed,
        secret,
      )
