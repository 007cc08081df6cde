-- ===== src/Examples/Pages.antt =====
-- The unlock page and the settings.
use personal_password_manage.Prelude.{
  ℕ, ◌≡◌, refl, sym, some, none, List, [], ◌∷◌, arith, Text, text_eq_apart, codes, ascii_only,
  js_length, to_upper_case,
}
use personal_password_manage.Utf8.{encode, encode_char}
use personal_password_manage.Json.{Value, null}
use personal_password_manage.Crypto.{
  derive_vault_key, KeyWrap, aad_kek, aad_recovery, derive_recovery_key, import_vek, wrap_raw_key,
  encrypt_string,
}
use personal_password_manage.VaultKeys.Opening.{resolve-agree}
use personal_password_manage.Recovery.{checked, cleaned, normalize_recovery_secret}
use personal_password_manage.Envelope.{encrypt_envelope}
use personal_password_manage.Api.{VaultMeta, VaultUpdate, KeysUpdate, ApiResult, value}
use personal_password_manage.VaultKeys.{Mode, resolve_vault_key_with_master_password}
use personal_password_manage.Unlock.{
  set_master, vault, already_unlocked, load_contents, handle_secret_unlock, Page, password,
  enter_vault, activation, handle_unlock, handle_set_new_master,
}
use personal_password_manage.Unlock.Entering.{
  handle_secret_unlock-leaves, handle_unlock-right, handle_unlock-activates,
}
use personal_password_manage.Unlock.Rewrap.{handle_set_new_master-retried}
use personal_password_manage.Platform.{Platform}
use personal_password_manage.Platform.Toy.{toy, toy-IsAuthenticated}
use personal_password_manage.Envelope.RoundTrip.{envelope_value}
use personal_password_manage.Settings.{rewrapped, form_failure, handle_change_master}
use personal_password_manage.Settings.Keys.{handle_change_master-rewraps}
use personal_password_manage.Samples.{
  accept, kek, derived, derived_in, platform, platform-IsAuthenticated, written, items, folders,
  nonce, vek, meta, master, store,
}

abbrev accept_keys : KeysUpdate → ApiResult Value
accept_keys req = value null

abbrev page : Page (List ℕ)
page = record {
  mode = password;
  master_password = master;
  secret_input = [];
  new_master = codes "a new password";
  confirm_new_master = codes "a new password";
  error = none;
  pending_rewrap = some (record { meta = meta; raw_vek = vek });
  store = store;
  route = none;
}

abbrev snapshot : KeyWrap
snapshot = encrypt_envelope platform (import_vek platform vek) items folders nonce

abbrev synced : VaultMeta
synced = record meta {
  kek_wrap = some (wrap_raw_key platform kek vek aad_kek nonce);
  ciphertext = some snapshot.ciphertext;
  nonce = some snapshot.nonce;
}

handle_unlock-right_example :
    handle_unlock platform ascii_only (value synced) accept vek nonce nonce page
    ≡ enter_vault
        (import_vek platform vek)
        (record { items = items; folders = folders; server_version = 1 })
        page
unfolding js_length encrypt_envelope encrypt_string
handle_unlock-right_example =
    handle_unlock-right platform platform-IsAuthenticated ascii_only synced accept vek nonce nonce
      vek nonce nonce kek items folders page refl (omega arith) (omega arith) (omega arith) written
      (derived master 3) refl refl refl refl

-- A platform whose JSON reads back the empty contents.
abbrev fresh : Platform
fresh = toy (envelope_value [] [])

abbrev sent : VaultUpdate
sent = activation fresh kek vek nonce nonce

abbrev activated : VaultMeta
activated = record meta {
  version = 1;
  kek_wrap = sent.kek_wrap;
  ciphertext = some sent.body.ciphertext;
  nonce = some sent.body.nonce;
}

handle_unlock-activates_example :
    (handle_unlock fresh ascii_only (value meta) accept vek nonce nonce page
      ≡ enter_vault
          (import_vek fresh vek)
          (record { items = []; folders = []; server_version = 1 })
          page)
    × (handle_unlock fresh ascii_only (value activated) accept [] [] [] page
        ≡ enter_vault
            (import_vek fresh vek)
            (record { items = []; folders = []; server_version = 1 })
            page)
unfolding js_length
handle_unlock-activates_example =
    handle_unlock-activates fresh (toy-IsAuthenticated (envelope_value [] [])) ascii_only meta
      activated accept accept null vek nonce nonce [] [] [] kek page page refl (omega arith)
      (omega arith) (omega arith) refl (record { code_points = tt; read_back = refl })
      (derived_in (envelope_value [] []) master 3) refl refl refl refl refl refl refl refl refl

abbrev new_kek : List ℕ
new_kek = encode (codes "a new password")

abbrev new_wrap : KeyWrap
new_wrap = wrap_raw_key platform new_kek vek aad_kek nonce

abbrev refuse_keys : KeysUpdate → ApiResult Value
refuse_keys req = ApiResult.failed (codes "Failed to fetch")

-- The page after an attempt that could not reach the server.
abbrev retrying : Page (List ℕ)
retrying = handle_set_new_master platform ascii_only [] refuse_keys nonce page

tried :
    (retrying.new_master ≡ codes "a new password")
    × (retrying.confirm_new_master ≡ codes "a new password")
    × (retrying.pending_rewrap ≡ some (record { meta = meta; raw_vek = 0 ∷ 0 ∷ 0 ∷ [] }))
unfolding js_length handle_set_new_master
tried = let d = derived (codes "a new password") 3 in (rw d refl, rw d refl, rw d refl)

taken :
    (q : Page (List ℕ))
    → q.new_master ≡ codes "a new password"
    → q.confirm_new_master ≡ codes "a new password"
    → q.pending_rewrap ≡ some (record { meta = meta; raw_vek = 0 ∷ 0 ∷ 0 ∷ [] })
    → derive_vault_key platform q.new_master meta.kdf_salt 3 ≡ some new_kek
    → (handle_set_new_master platform ascii_only [] accept_keys nonce q).pending_rewrap ≡ none
unfolding js_length handle_set_new_master
taken q a b c d = rw (handle_set_new_master, c, d, a, b) refl

handle_set_new_master-retried_example :
    (wrap : KeyWrap) × (v : Value) × (accept_keys
        (record { kek_wrap = some wrap; recovery_wrap = none })
      ≡ value v)
    × (resolve_vault_key_with_master_password platform
          (record meta { kek_wrap = some wrap })
          (codes "a new password")
        ≡ some (record { data_key = import_vek platform (0 ∷ 0 ∷ 0 ∷ []); mode = Mode.v2 }))
unfolding js_length
handle_set_new_master-retried_example =
    let (same, confirmed, kept) = tried in
    rw (sym same) (
      handle_set_new_master-retried platform platform-IsAuthenticated ascii_only []
        (codes "Failed to fetch") refuse_keys accept_keys nonce nonce page
        (record { meta = meta; raw_vek = vek }) new_kek refl refl (omega arith) refl
        (derived (codes "a new password") 3) refl
        (taken retrying same confirmed kept (rw same (derived (codes "a new password") 3))))

handle_change_master-rewraps_example :
    (handle_change_master platform ascii_only [] accept accept_keys synced master
        (codes "a new password")
        (codes "a new password")
        vek
        nonce
        nonce
        store
      ≡ rewrapped)
    × (resolve_vault_key_with_master_password platform
          (record synced { kek_wrap = some new_wrap })
          (codes "a new password")
        ≡ some (record { data_key = import_vek platform vek; mode = Mode.v2 }))
    × (resolve_vault_key_with_master_password platform
          (record synced { kek_wrap = some new_wrap })
          master
        ≡ none)
unfolding form_failure js_length encode encode_char
handle_change_master-rewraps_example =
    handle_change_master-rewraps platform platform-IsAuthenticated ascii_only [] accept accept_keys
      null synced master (codes "a new password") vek nonce nonce vek nonce store kek new_kek refl
      (omega arith) (omega arith) (omega arith) (derived master 3)
      (derived (codes "a new password") 3) (text_eq_apart _ _ refl) refl refl

abbrev printed : Text
printed = codes "0123456789ABCDEF0123456789ABCDEF"

abbrev recoverable : VaultMeta
recoverable = record meta {
  kek_wrap = some (wrap_raw_key platform kek vek aad_kek nonce);
  recovery_wrap =
      some (wrap_raw_key platform (derive_recovery_key platform printed 3) vek aad_recovery nonce);
}

abbrev typing : Page (List ℕ)
typing = record page { secret_input = printed; pending_rewrap = none }

handle_secret_unlock-leaves_example :
    let q = handle_secret_unlock platform ascii_only (value recoverable) typing in
    (q.mode ≡ set_master)
    × (q.pending_rewrap ≡ some (record { meta = recoverable; raw_vek = vek }))
    × (q.store.items ≡ [])
    × ((already_unlocked q).route ≡ some vault)
unfolding normalize_recovery_secret checked cleaned to_upper_case load_contents
handle_secret_unlock-leaves_example =
    handle_secret_unlock-leaves platform ascii_only recoverable typing printed
      (record { data_key = import_vek platform vek; raw_vek = vek })
      (record { items = []; folders = []; server_version = 1 }) refl
      (resolve-agree platform platform-IsAuthenticated recoverable master printed kek vek nonce
        nonce (omega arith) (omega arith) (omega arith) (derived master 3) refl refl).1
      refl
