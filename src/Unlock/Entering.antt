-- ===== src/Unlock/Entering.antt =====
-- What opens the vault at the unlock page, what a first unlock of an old vault uploads, and what becomes of
-- the recovery.
use personal_password_manage.Prelude.{
  ℕ, ◌≡◌, false, none, some, List, [], arith, ltb, Text, IsByte, All, is_empty, js_length, Unicode,
}
use personal_password_manage.Platform.{Platform, IsAuthenticated, IsWritten}
use personal_password_manage.Crypto.{aad_kek, derive_vault_key, import_vek, wrap_raw_key}
use personal_password_manage.Recovery.{SecretResult, normalize_recovery_secret}
use personal_password_manage.Envelope.{encrypt_envelope}
use personal_password_manage.Envelope.RoundTrip.{envelope_value, read_envelope-contents}
use personal_password_manage.Unlock.Reading.{handle_unlock-reads}
use personal_password_manage.Api.{VaultMeta, VaultUpdate, ApiResult}
use personal_password_manage.Json.{Value, end}
use personal_password_manage.VaultKeys.{
  Mode, Recovered, SecretOutcome, resolve_vault_key_with_master_password,
  resolve_vault_key_with_secret_key,
}
use personal_password_manage.Vault.{VaultItem, unlock}
use personal_password_manage.Unlock.{
  Page, Contents, incorrect_password, vault, set_master, already_unlocked, fail, enter_vault,
  load_contents, activation, unlock_contents, handle_unlock, handle_secret_unlock,
}

module _ (p : Platform) where
  resolve-legacy :
      (meta : VaultMeta) (master : Text) (kek : p.CryptoKey)
      → derive_vault_key p master meta.kdf_salt meta.kdf_iterations ≡ some kek
      → meta.kek_wrap ≡ none
      → resolve_vault_key_with_master_password p meta master
        ≡ some (record { data_key = kek; mode = Mode.legacy })
  unfolding resolve_vault_key_with_master_password
  resolve-legacy meta master kek d k = ground (arith, d, k)

  -- A wrong master password changes nothing but the error that is shown: no contents are loaded, and
  -- nothing is sent, whatever the server would answer.
  pub handle_unlock-wrong :
      (u : Unicode) (meta : VaultMeta) (put : VaultUpdate → ApiResult Value) (raw wn n : List ℕ)
      (page : Page p.CryptoKey)
      → ltb (js_length page.master_password) 12 ≡ false
      → resolve_vault_key_with_master_password p meta page.master_password ≡ none
      → handle_unlock p u (ApiResult.value meta) put raw wn n page ≡ fail incorrect_password page
  unfolding handle_unlock unlock_contents
  handle_unlock-wrong u meta put raw wn n page l r = rw (l, handle_unlock, r)

  -- After a Secret Key has opened the vault, the page asks for a new master password and holds the key for
  -- it; but the vault is unlocked by then, so the page's effect leaves for the vault.
  pub handle_secret_unlock-leaves :
      (u : Unicode) (meta : VaultMeta) (page : Page p.CryptoKey) (s : Text)
      (r : Recovered p.CryptoKey) (c : Contents)
      → normalize_recovery_secret u page.secret_input ≡ SecretResult.ok s
      → resolve_vault_key_with_secret_key p meta s ≡ SecretOutcome.recovered r
      → load_contents p meta r.data_key ≡ some c
      → let q = handle_secret_unlock p u (ApiResult.value meta) page in
        (q.mode ≡ set_master)
        × (q.pending_rewrap ≡ some (record { meta = meta; raw_vek = r.raw_vek }))
        × (q.store.items ≡ c.items)
        × ((already_unlocked q).route ≡ some vault)
  unfolding handle_secret_unlock already_unlocked unlock
  handle_secret_unlock-leaves u meta page s r c a b d = (
    ground (arith, a, b, d),
    ground (arith, a, b, d),
    ground (arith, a, b, d),
    ground (arith, a, b, d),
  )

module _ (p : Platform) (h : IsAuthenticated p) where
  -- The right master password opens a vault with a wrapped key and a snapshot: the store holds the items
  -- and folders of the snapshot, the vault encryption key and the server's version, and the page goes to
  -- the dashboard.
  pub handle_unlock-right :
      (u : Unicode) (meta : VaultMeta) (put : VaultUpdate → ApiResult Value)
      (raw wn n vek wrap_nonce nonce : List ℕ) (kek : p.CryptoKey) (items : List VaultItem)
      (folders : List Text) (page : Page p.CryptoKey)
      → ltb (js_length page.master_password) 12 ≡ false
      → All IsByte vek
      → All IsByte wrap_nonce
      → All IsByte nonce
      → IsWritten p (envelope_value items folders)
      → derive_vault_key p page.master_password meta.kdf_salt meta.kdf_iterations ≡ some kek
      → meta.kek_wrap ≡ some (wrap_raw_key p kek vek aad_kek wrap_nonce)
      → meta.ciphertext
        ≡ some (encrypt_envelope p (import_vek p vek) items folders nonce).ciphertext
      → meta.nonce ≡ some (encrypt_envelope p (import_vek p vek) items folders nonce).nonce
      → is_empty nonce ≡ false
      → handle_unlock p u (ApiResult.value meta) put raw wn n page
        ≡ enter_vault
            (import_vek p vek)
            (record { items = items; folders = folders; server_version = meta.version })
            page
  unfolding encrypt_envelope
  handle_unlock-right u meta put raw wn n vek wrap_nonce nonce kek items folders page l bv bw bn w d
        k a b g =
      handle_unlock-reads p h u meta put raw wn n vek wrap_nonce nonce kek
        (envelope_value items folders) (record { items = items; folders = folders }) page l bv bw bn
        w (read_envelope-contents p items folders end) d k a b g

  -- The first unlock of a vault without a wrapped key and without a snapshot enters an empty vault of
  -- version 1 under a fresh key, when the server takes the update; and once the server gives out the wrap
  -- and the snapshot of that update, with the same salt and cost, an unlock with the same master password
  -- at any later page opens the empty vault with that key and the server's version.
  pub handle_unlock-activates :
      (u : Unicode) (meta after : VaultMeta) (put again : VaultUpdate → ApiResult Value) (v : Value)
      (raw wrap_nonce nonce raw' wrap_nonce' nonce' : List ℕ) (kek : p.CryptoKey)
      (page later : Page p.CryptoKey)
      → ltb (js_length page.master_password) 12 ≡ false
      → All IsByte raw
      → All IsByte wrap_nonce
      → All IsByte nonce
      → is_empty nonce ≡ false
      → IsWritten p (envelope_value [] [])
      → derive_vault_key p page.master_password meta.kdf_salt meta.kdf_iterations ≡ some kek
      → meta.kek_wrap ≡ none
      → meta.ciphertext ≡ none
      → put (activation p kek raw wrap_nonce nonce) ≡ ApiResult.value v
      → after.kek_wrap ≡ (activation p kek raw wrap_nonce nonce).kek_wrap
      → after.ciphertext ≡ some (activation p kek raw wrap_nonce nonce).body.ciphertext
      → after.nonce ≡ some (activation p kek raw wrap_nonce nonce).body.nonce
      → after.kdf_salt ≡ meta.kdf_salt
      → after.kdf_iterations ≡ meta.kdf_iterations
      → later.master_password ≡ page.master_password
      → (handle_unlock p u (ApiResult.value meta) put raw wrap_nonce nonce page
          ≡ enter_vault
              (import_vek p raw)
              (record { items = []; folders = []; server_version = 1 })
              page)
        × (handle_unlock p u (ApiResult.value after) again raw' wrap_nonce' nonce' later
            ≡ enter_vault
                (import_vek p raw)
                (record { items = []; folders = []; server_version = after.version })
                later)
  unfolding handle_unlock unlock_contents activation
  handle_unlock-activates u meta after put again v raw wn n raw' wn' n' kek page later l br bw bn
        full written d k c sent k' a' b' s' i' same =
      let legacy = resolve-legacy p meta page.master_password kek d k in
      (
        rw (l, handle_unlock, legacy, k, c, unlock_contents, sent),
        handle_unlock-right u after again raw' wn' n' raw wn n kek [] [] later (rw same l) br bw bn
            written (rw (same, s', i') d) k' a' b' full,
      )
