-- ===== src/Unlock.antt =====
-- app/unlock/page.tsx: the page's state with the vault store, and its handlers. A handler runs to its end
-- with the answers of the server as arguments: `got` of GET /vault, `put` and `put_keys` as functions of
-- what they are sent. Random bytes are arguments; `rawVek.fill(0)` changes the buffer that
-- `pendingRewrap` holds too. Texts of errors that the page makes up are constructors.
pub mod Reading
pub mod Entering
pub mod Rewrap
use personal_password_manage.Prelude.{
  ℕ, Bool, true, false, ◌&&◌, not, Option, none, some, List, [], ◌∷◌, map, if◌then◌else◌, ltb, Text,
  text_eq, js_length, is_some, Unicode, is_empty,
}
use personal_password_manage.Platform.{Platform}
use personal_password_manage.Crypto.{
  KeyWrap, aad_kek, derive_vault_key, generate_vek, wrap_raw_key, import_vek,
}
use personal_password_manage.Recovery.{SecretError, SecretResult, normalize_recovery_secret}
use personal_password_manage.Envelope.{EnvelopeResult, encrypt_envelope, decrypt_envelope}
use personal_password_manage.Api.{VaultMeta, VaultUpdate, KeysUpdate, ApiResult, session_expired}
use personal_password_manage.Json.{Value}
use personal_password_manage.VaultKeys.{
  Mode, Resolved, SecretOutcome, resolve_vault_key_with_master_password,
  resolve_vault_key_with_secret_key,
}
use personal_password_manage.Vault.{VaultItem, VaultState, unlock}

pub data PageMode : Type 0 where
  password secret set_master : PageMode

pub data Failure : Type 0 where
  enter_password expired_session incorrect_password secret_no_match damaged : Failure
  no_match too_short : Failure
  message : Text → Failure
  bad_secret : SecretError → Failure

pub data Route : Type 0 where
  dashboard vault : Route

pub record Pending : Type 0 where
  pub meta : VaultMeta
  pub raw_vek : List ℕ

pub record Page (K : Type 0) : Type 0 where
  pub mode : PageMode
  pub master_password : Text
  pub secret_input : Text
  pub new_master : Text
  pub confirm_new_master : Text
  pub error : Option Failure
  pub pending_rewrap : Option Pending
  pub store : VaultState K
  pub route : Option Route

-- What the vault opens with.
pub record Contents : Type 0 where
  pub items : List VaultItem
  pub folders : List Text
  pub server_version : ℕ

abbrev pub present : Option Text → Bool
present none = false
present (some s) = not (is_empty s)

abbrev pub is_legacy : Mode → Bool
is_legacy Mode.v2 = false
is_legacy Mode.legacy = true

abbrev pub zeroed : List ℕ → List ℕ
zeroed raw = map (λ _. 0) raw

module _ {K : Type 0} where
  -- The effect of the page: an unlocked vault leaves it.
  unfoldable pub already_unlocked : Page K → Page K
  already_unlocked page = if page.store.is_locked then page else record page { route = some vault }

  abbrev pub fail : Failure → Page K → Page K
  fail e page = record page { error = some e }

  abbrev pub open_store : K → Contents → Page K → Page K
  open_store key c page = record page {
    store = unlock c.items c.folders key c.server_version page.store;
    error = none;
  }

  abbrev pub enter_vault : K → Contents → Page K → Page K
  enter_vault key c page = record (open_store key c page) { route = some dashboard }

-- The message of a failed call, or that the session expired.
abbrev pub call_failure : Unicode → Text → Failure
call_failure u text = if session_expired u text then expired_session else message text

module _ (p : Platform) where
  unfoldable pub load_contents : VaultMeta → p.CryptoKey → Option Contents
  load_contents meta key = elim meta.ciphertext [
    | none ↦ some nothing
    | some ciphertext ↦ elim meta.nonce [
      | none ↦ some nothing
      | some nonce ↦
          if is_empty ciphertext
          then some nothing
          else (if is_empty nonce
              then some nothing
              else elim (decrypt_envelope p key ciphertext nonce) [
                | EnvelopeResult.ok e ↦
                    some (record {
                      items = e.items;
                      folders = e.folders;
                      server_version = meta.version;
                    })
                | EnvelopeResult.err e ↦ none
              ])
    ]
  ]
    where
      nothing : Contents
      nothing = record {
        items = [];
        folders = [];
        server_version = if is_some meta.kek_wrap then meta.version else 0;
      }

  -- The snapshot that activates a legacy vault that never synced, and its wrapped key.
  unfoldable pub activation : p.CryptoKey → List ℕ → List ℕ → List ℕ → VaultUpdate
  activation kek raw wrap_nonce nonce = record {
    version = 1;
    body = encrypt_envelope p (import_vek p raw) [] [] nonce;
    kek_wrap = some (wrap_raw_key p kek raw aad_kek wrap_nonce);
    recovery_wrap = none;
  }

  abbrev pub never_synced : VaultMeta → Mode → Bool
  never_synced meta mode =
      is_legacy mode && not (is_some meta.kek_wrap) && not (present meta.ciphertext)

  -- The data key and the contents, or `none` where one of the two `try` blocks fails; both tell the same.
  unfoldable pub unlock_contents :
      (VaultUpdate → ApiResult Value)
      → List ℕ
      → List ℕ
      → List ℕ
      → VaultMeta
      → Text
      → Option (p.CryptoKey × Contents)
  unlock_contents put raw wrap_nonce nonce meta master =
      elim (resolve_vault_key_with_master_password p meta master) [
        | none ↦ none
        | some r ↦
            if never_synced meta r.mode
            then elim (put (activation r.data_key raw wrap_nonce nonce)) [
              | ApiResult.value v ↦
                  some (import_vek p raw, record { items = []; folders = []; server_version = 1 })
              | ApiResult.failed m ↦ none
            ]
            else elim (load_contents meta r.data_key) [
              | some c ↦ some (r.data_key, c)
              | none ↦ none
            ]
      ]

  unfoldable pub handle_unlock :
      Unicode
      → ApiResult VaultMeta
      → (VaultUpdate → ApiResult Value)
      → List ℕ
      → List ℕ
      → List ℕ
      → Page p.CryptoKey
      → Page p.CryptoKey
  handle_unlock u got put raw wrap_nonce nonce page =
      if ltb (js_length page.master_password) 12 then fail enter_password page else elim got [
        | ApiResult.failed text ↦ fail (call_failure u text) page
        | ApiResult.value meta ↦
            elim (unlock_contents put raw wrap_nonce nonce meta page.master_password) [
              | none ↦ fail incorrect_password page
              | some (key, c) ↦ enter_vault key c page
            ]
      ]

  unfoldable pub handle_secret_unlock :
      Unicode → ApiResult VaultMeta → Page p.CryptoKey → Page p.CryptoKey
  handle_secret_unlock u got page = elim (normalize_recovery_secret u page.secret_input) [
    | SecretResult.err e ↦ fail (bad_secret e) page
    | SecretResult.ok normalized ↦ elim got [
      | ApiResult.failed text ↦ fail (call_failure u text) page
      | ApiResult.value meta ↦ elim (resolve_vault_key_with_secret_key p meta normalized) [
        | SecretOutcome.refused e ↦ fail secret_no_match page
        | SecretOutcome.recovered r ↦ elim (load_contents meta r.data_key) [
          | none ↦ fail damaged page
          | some c ↦ record (open_store r.data_key c page) {
            pending_rewrap = some (record { meta = meta; raw_vek = r.raw_vek });
            mode = set_master;
          }
        ]
      ]
    ]
  ]

  -- A salt that is no base64 throws before the buffer is cleared; `of_salt` is the runtime's message.
  unfoldable pub handle_set_new_master :
      Unicode → Text → (KeysUpdate → ApiResult Value) → List ℕ → Page p.CryptoKey → Page p.CryptoKey
  handle_set_new_master u of_salt put_keys nonce page =
      if not (text_eq page.new_master page.confirm_new_master)
      then fail no_match page
      else (if ltb (js_length page.new_master) 12
          then fail too_short page
          else elim page.pending_rewrap [
            | none ↦ record page { error = none }
            | some pending ↦
                elim (derive_vault_key p page.new_master pending.meta.kdf_salt
                  pending.meta.kdf_iterations) [
                    | none ↦ fail (call_failure u of_salt) page
                    | some kek ↦
                        let wrap = wrap_raw_key p kek pending.raw_vek aad_kek nonce in
                        let cleared = record pending { raw_vek = zeroed pending.raw_vek } in
                        elim (put_keys (record { kek_wrap = some wrap; recovery_wrap = none })) [
                          | ApiResult.value v ↦ record page {
                            error = none;
                            pending_rewrap = none;
                            route = some dashboard;
                          }
                          | ApiResult.failed text ↦ record page {
                            error = some (call_failure u text);
                            pending_rewrap = some cleared;
                          }
                        ]
                  ]
          ])
