-- ===== src/Seed/Ceremony.antt =====
-- The script's copy of the key ceremony against that of the browser, and the way of the demonstration
-- through the server to the unlock page.
use personal_password_manage.Prelude.{
  ℕ, none, suc, ◌≡◌, refl, ap₂, some, false, List, [], ◌∷◌, map, arith, ltb, length, Text,
  js_length, Unicode, IsByte, All,
}
use personal_password_manage.Utf8.{encode}
use personal_password_manage.Base64.{b64encode}
use personal_password_manage.Base64.Buffers.{b64-b64encode, from_b64-b64encode}
use personal_password_manage.Base64.RoundTrip.{b64decode-b64encode}
use personal_password_manage.Json.{Value, elements, from_list}
use personal_password_manage.Platform.{Platform, IsAuthenticated, IsWritten}
use personal_password_manage.Crypto.{
  derive_vault_key, derive_recovery_key, import_vek, wrap_raw_key,
}
use personal_password_manage.Recovery.{
  SecretResult, secret_chars, generate_recovery_secret, normalize_recovery_secret,
}
use personal_password_manage.Envelope.{EnvelopeResult, value_item, read_envelope}
use personal_password_manage.Envelope.RoundTrip.{texts-strings}
use personal_password_manage.Vault.{VaultItem}
use personal_password_manage.Api.{VaultUpdate, ApiResult}
use personal_password_manage.Register.{KdfParams, Random, first_update}
use personal_password_manage.Register.Kit.{first_update-made}
use personal_password_manage.VaultKeys.{recovered, resolve_vault_key_with_secret_key}
use personal_password_manage.Unlock.{Page, enter_vault, handle_unlock}
use personal_password_manage.Server.{Base64Crate, IsStandard, Server, done, update_vault, get_vault}
use personal_password_manage.Server.Wrapped.{IsSealed, wrapped_update}
use personal_password_manage.Journey.{
  sealed_body, sealed_kek, sealed_recovery, wrapped_update-opens,
}
use personal_password_manage.Seed.{
  Template, Stamp, folder_of, demo_items, demo_folders, template_value, seeded_from, seeded_value,
  seed_derive_vault_key, seed_wrap_raw_key, seed_encrypt_envelope, seed_derive_recovery_key,
  seed_update, secret_key,
}

-- The item that a template stands for.
abbrev pub item_of : Template → ℕ → Stamp → VaultItem
item_of t i stamp = record {
  id = stamp.id;
  kind = t.kind;
  title = t.title;
  username = some t.username;
  password = some t.password;
  urls = t.urls;
  notes = some t.notes;
  favorite = t.favorite;
  folder = some (folder_of i);
  created_at = stamp.created_at;
  updated_at = stamp.updated_at;
}

abbrev pub items_from : (ℕ → Stamp) → ℕ → List Template → List VaultItem
items_from stamps i [] = []
items_from stamps i (t ∷ ts) = item_of t i (stamps i) ∷ items_from stamps (suc i) ts

value_item-template :
    (t : Template) (i : ℕ) (stamp : Stamp)
    → value_item (template_value t i stamp) ≡ item_of t i stamp
unfolding value_item template_value
value_item-template t i stamp = ground (arith, texts-strings t.urls)

items_of-seeded :
    (stamps : ℕ → Stamp) (i : ℕ) (ts : List Template)
    → map value_item (elements (from_list (seeded_from stamps i ts))) ≡ items_from stamps i ts
unfolding seeded_from
items_of-seeded stamps i [] = refl
items_of-seeded stamps i (t ∷ ts) =
    ap₂ ◌∷◌ (value_item-template t i (stamps i)) (items_of-seeded stamps (suc i) ts)

-- The browser reads of the seeded snapshot the five items and the two folders.
pub read_envelope-seeded :
    (p : Platform) (stamps : ℕ → Stamp)
    → read_envelope p (some (seeded_value stamps))
      ≡ EnvelopeResult.ok
          (record { items = items_from stamps 0 demo_items; folders = demo_folders })
unfolding read_envelope
read_envelope-seeded p stamps = rw (items_of-seeded stamps 0 demo_items, texts-strings demo_folders)

module _ (p : Platform) where
  same_key :
      (master : Text) (salt : List ℕ) (iterations : ℕ) (kek : p.CryptoKey)
      → All IsByte salt
      → derive_vault_key p master (b64encode salt) iterations ≡ some kek
      → seed_derive_vault_key p master (b64encode salt) iterations ≡ kek
  unfolding seed_derive_vault_key derive_vault_key
  same_key master salt iterations kek h d =
      let e : some (p.derive_key (encode master) salt iterations) ≡ some kek =
        rw (b64decode-b64encode salt h) at d in
      rw (seed_derive_vault_key, from_b64-b64encode salt h) (ground (arith, e))

  pub seed_update-wrapped :
      (master : Text) (salt : List ℕ) (iterations : ℕ) (r : Random) (stamps : ℕ → Stamp)
      (kek : p.CryptoKey)
      → All IsByte salt
      → derive_vault_key p master (b64encode salt) iterations ≡ some kek
      → seed_update p master (record { salt = b64encode salt; iterations = iterations }) r stamps
        ≡ wrapped_update 1
            (sealed_body p (seeded_value stamps) r)
            (sealed_kek p kek r)
            (sealed_recovery p iterations r)
  unfolding seed_update seed_wrap_raw_key seed_encrypt_envelope seed_derive_recovery_key
      derive_recovery_key
  seed_update-wrapped master salt iterations r stamps kek h d =
      let recovery = sealed_recovery p iterations r in
      rw (
        same_key master salt iterations kek h d,
        b64-b64encode (sealed_kek p kek r).ciphertext,
        b64-b64encode r.kek_nonce,
        seed_wrap_raw_key,
        seed_encrypt_envelope,
        b64-b64encode (sealed_body p (seeded_value stamps) r).ciphertext,
        b64-b64encode r.body_nonce,
        b64-b64encode recovery.ciphertext,
        b64-b64encode recovery.nonce,
      )

  -- With the same random bytes and the same answer to the registration, the script sends the version and the
  -- two wraps that the browser sends, and prints the Secret Key that the browser shows.
  pub seed_update-first_update :
      (u : Unicode) (master : Text) (salt : List ℕ) (iterations : ℕ) (r : Random)
      (stamps : ℕ → Stamp) (kek : p.CryptoKey)
      → All IsByte salt
      → derive_vault_key p master (b64encode salt) iterations ≡ some kek
      → let reg : KdfParams = record { salt = b64encode salt; iterations = iterations } in
        let req = seed_update p master reg r stamps in
        (own : VaultUpdate) × (first_update p u master reg r ≡ some (own, secret_key r.secret))
        × (req.version ≡ own.version)
        × (req.kek_wrap ≡ own.kek_wrap)
        × (req.recovery_wrap ≡ own.recovery_wrap)
  unfolding wrap_raw_key secret_key generate_recovery_secret
  seed_update-first_update u master salt iterations r stamps kek h d =
      let e = seed_update-wrapped master salt iterations r stamps kek h d in
      (_, first_update-made p u master _ r kek d, rw e refl, rw e refl, rw e refl)

module _ (p : Platform) (h : IsAuthenticated p) (c : Base64Crate) (std : IsStandard c) where
  -- The demonstration, from the script over the server to the browser: an account without a snapshot takes
  -- the update of the script, and with what GET /vault answers from then on, the master password of the
  -- script opens a vault of the demo's items and folders at version 1, and the printed Secret Key gives the
  -- same key. (AES-GCM makes 48 bytes of the 32 of the key.)
  pub seed_update-opens :
      (u : Unicode) (master now : Text) (r : Random) (stamps : ℕ → Stamp) (kek : p.CryptoKey)
      (s : Server) (put : VaultUpdate → ApiResult Value) (raw wn n : List ℕ)
      (page : Page p.CryptoKey)
      → All IsByte r.vek
      → IsSealed (sealed_body p (seeded_value stamps) r)
      → IsSealed (sealed_kek p kek r)
      → IsSealed (sealed_recovery p s.kdf.iterations r)
      → length (sealed_kek p kek r).ciphertext ≡ 48
      → length (sealed_recovery p s.kdf.iterations r).ciphertext ≡ 48
      → IsWritten p (seeded_value stamps)
      → All IsByte s.kdf.salt
      → s.snapshot ≡ none
      → derive_vault_key p master (b64encode s.kdf.salt) s.kdf.iterations ≡ some kek
      → page.master_password ≡ master
      → ltb (js_length master) 12 ≡ false
      → let reg : KdfParams = record {
        salt = b64encode s.kdf.salt;
        iterations = s.kdf.iterations;
      } in
        (t : Server) × (update_vault c (seed_update p master reg r stamps) now s ≡ done t)
        × (handle_unlock p u (ApiResult.value (get_vault c t)) put raw wn n page
            ≡ enter_vault
                (import_vek p r.vek)
                (record {
                  items = items_from stamps 0 demo_items;
                  folders = demo_folders;
                  server_version = 1;
                })
                page)
        × (normalize_recovery_secret u (secret_key r.secret)
            ≡ SecretResult.ok (secret_chars r.secret))
        × (resolve_vault_key_with_secret_key p (get_vault c t) (secret_chars r.secret)
            ≡ recovered (record { data_key = import_vek p r.vek; raw_vek = r.vek }))
  unfolding secret_key generate_recovery_secret
  seed_update-opens u master now r stamps kek s put raw wn n page bv hb hk hr lk lr w bs none_yet d
        e l =
      let (t, taken, entered, typed, secret) =
        wrapped_update-opens p h c std u master now r (seeded_value stamps)
          (record { items = items_from stamps 0 demo_items; folders = demo_folders }) kek s put raw
          wn n page bv hb hk hr lk lr w (read_envelope-seeded p stamps) bs none_yet d e l in
      (
        t,
        rw (seed_update-wrapped p master s.kdf.salt s.kdf.iterations r stamps kek bs d) taken,
        entered,
        typed,
        secret,
      )
