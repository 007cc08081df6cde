-- ===== src/Sync.antt =====
-- hooks/useVaultSync.tsx: the manager that uploads a snapshot after every change of the vault store and
-- reloads the server's copy on a conflict. Its refs and the operations that wait for an answer are the
-- state beside the store; each function is the code between two awaits. `JSON.stringify` and the cipher
-- are the platform's, the nonce of an upload is an argument.
pub mod Steps
pub mod Flight
pub mod Retry
pub mod Devices
use personal_password_manage.Prelude.{
  ℕ, ◌+◌, Bool, true, false, ◌&&◌, ◌||◌, not, Option, none, some, List, [], ◌∷◌, ◌++◌, ◌==◌,
  if◌then◌else◌, Text, text_eq, codes, is_empty, is_some, Unicode,
}
use personal_password_manage.Json.{Value, object, end, as_number, property}
use personal_password_manage.Platform.{Platform}
use personal_password_manage.Crypto.{KeyWrap}
use personal_password_manage.Envelope.{
  contents_value, encrypt_envelope, EnvelopeError, not_decrypted, not_json, unexpected_format,
  EnvelopeResult, ok, err, decrypt_envelope,
}
use personal_password_manage.Api.{VaultMeta, VaultUpdate, ApiResult, value, failed, is_conflict}
use personal_password_manage.Vault.{
  VaultItem, VaultState, SyncState, syncing, saved, error, set_sync_state, set_server_version,
  apply_server_contents,
}

-- `res.version` of an accepted upload
unfoldable pub new_version : ApiResult Value → ApiResult ℕ
new_version (value v) = value (as_number (property (codes "version") v))
new_version (failed message) = failed message

-- What the callback waits for.
pub data Waiting (K : Type 0) : Type 0 where
  encrypting : K → VaultState K → List ℕ → Waiting K
  uploading : VaultState K → VaultUpdate → Waiting K
  reloading : Waiting K
  decrypting : K → VaultMeta → Text → Text → Waiting K

pub record Manager (K : Type 0) : Type 0 where
  pub store : VaultState K
  pub in_flight : Bool
  pub last_sent : Option Text
  pub had_key : Bool
  pub waiting : List (Waiting K)

-- `x && …` on a string that may be null
abbrev pub present : Option Text → Bool
present none = false
present (some s) = not (is_empty s)

abbrev pub no_items : List VaultItem → Bool
no_items [] = true
no_items (_ ∷ _) = false

abbrev pub no_folders : List Text → Bool
no_folders [] = true
no_folders (_ ∷ _) = false

abbrev pub same_text : Text → Option Text → Bool
same_text t none = false
same_text t (some s) = text_eq t s

-- The messages of the errors that `decryptEnvelope` throws; the first two are the runtime's.
pub record Messages : Type 0 where
  pub of_cipher : Text
  pub of_json : Text

abbrev pub thrown : Messages → EnvelopeError → Text
thrown m not_decrypted = m.of_cipher
thrown m not_json = m.of_json
thrown m unexpected_format = codes "Vault snapshot has an unexpected format"

abbrev pub reload_failed : Text → Text
reload_failed reason =
    codes "Could not reload the newer vault copy — lock and unlock to resync ("
    ++ reason
    ++ codes ")"

module _ {K : Type 0} where
  -- `inFlight.current = false` when the callback ends, with what still waits.
  abbrev pub settle : VaultState K → List (Waiting K) → Manager K → Manager K
  settle store rest m = record m { store = store; in_flight = false; waiting = rest }

module _ (p : Platform) where
  abbrev pub payload_of : List VaultItem → List Text → Text
  payload_of items folders = p.stringify (object (contents_value items folders end))

  abbrev pub payload : VaultState p.CryptoKey → Text
  payload s = payload_of s.items s.folders

  -- The first effect, when the key changed.
  unfoldable pub seed : Manager p.CryptoKey → Manager p.CryptoKey
  seed m =
      if is_some m.store.key
      then (if m.had_key
          then m
          else record m { had_key = true; last_sent = some (payload m.store) })
      else record m { had_key = false }

  -- The second effect: whether it sets the timer, and its refs.
  unfoldable pub decide : Manager p.CryptoKey → Bool × Manager p.CryptoKey
  decide m =
      if m.store.is_locked || not (is_some m.store.key)
      then (false, m)
      else (if m.store.server_version == 0 && no_items m.store.items && no_folders m.store.folders
          then (false, record m { last_sent = some (payload m.store) })
          else (if same_text (payload m.store) m.last_sent then (false, m) else (true, m)))

  unfoldable pub upload_of : p.CryptoKey → VaultState p.CryptoKey → List ℕ → VaultUpdate
  upload_of key snapshot nonce = record {
    version = snapshot.server_version + 1;
    body = encrypt_envelope p key snapshot.items snapshot.folders nonce;
    kek_wrap = none;
    recovery_wrap = none;
  }

  -- The timer's callback up to the encryption of the snapshot.
  unfoldable pub begin : List ℕ → Manager p.CryptoKey → Manager p.CryptoKey
  begin nonce m =
      if m.in_flight
      then m
      else (if m.store.is_locked then record m { in_flight = false } else elim m.store.key [
        | none ↦ record m { in_flight = false }
        | some key ↦ record m {
          store = set_sync_state syncing none m.store;
          in_flight = true;
          waiting = m.waiting ++ encrypting key m.store nonce ∷ [];
        }
      ])

  -- The snapshot is encrypted, and the update with it is sent.
  unfoldable pub finish_encrypt :
      p.CryptoKey
      → VaultState p.CryptoKey
      → List ℕ
      → List (Waiting p.CryptoKey)
      → Manager p.CryptoKey
      → Manager p.CryptoKey
  finish_encrypt key snapshot nonce rest m = record m {
    waiting = rest ++ uploading snapshot (upload_of key snapshot nonce) ∷ [];
  }

  -- The upload was answered: with the new version, or with an error. `rest` are the other waits.
  unfoldable pub finish_upload :
      Unicode
      → VaultState p.CryptoKey
      → ApiResult ℕ
      → List (Waiting p.CryptoKey)
      → Manager p.CryptoKey
      → Manager p.CryptoKey
  finish_upload u snapshot (value version) rest m =
      record (settle (set_server_version version (set_sync_state saved none m.store)) rest m) {
        last_sent = some (payload snapshot);
      }
  finish_upload u snapshot (failed message) rest m =
      if is_conflict u message
      then record m { waiting = rest ++ reloading ∷ [] }
      else settle (set_sync_state error (some message) m.store) rest m

  -- The server's copy came, or the request failed.
  unfoldable pub finish_reload :
      ApiResult VaultMeta → List (Waiting p.CryptoKey) → Manager p.CryptoKey → Manager p.CryptoKey
  finish_reload (failed reason) rest m =
      settle (set_sync_state error (some (reload_failed reason)) m.store) rest m
  finish_reload (value fresh) rest m = elim m.store.key [
    | none ↦ settle m.store rest m
    | some key ↦ elim fresh.ciphertext [
      | none ↦ adopt_own
      | some ciphertext ↦ elim fresh.nonce [
        | none ↦ adopt_own
        | some nonce ↦
            if is_empty ciphertext || is_empty nonce
            then adopt_own
            else record m { waiting = rest ++ decrypting key fresh ciphertext nonce ∷ [] }
      ]
    ]
  ]
    where
      -- "treat local as newest"
      adopt_own : Manager p.CryptoKey
      adopt_own =
          record (settle (apply_server_contents m.store.items m.store.folders 0 m.store) rest m) {
            last_sent = some (payload m.store);
          }

  -- The server's copy is decrypted with the key that was there before the await.
  unfoldable pub finish_decrypt :
      Messages
      → VaultMeta
      → EnvelopeResult
      → List (Waiting p.CryptoKey)
      → Manager p.CryptoKey
      → Manager p.CryptoKey
  finish_decrypt msgs fresh (err e) rest m =
      settle (set_sync_state error (some (reload_failed (thrown msgs e))) m.store) rest m
  finish_decrypt msgs fresh (ok envelope) rest m =
      record (settle (apply_server_contents envelope.items envelope.folders fresh.version m.store)
        rest m) { last_sent = some (payload_of envelope.items envelope.folders) }
