-- ===== src/Server.antt =====
-- crates/api/src/routes/vault.rs and the responses of crates/api/src/errors.rs: one user's `vaults` row
-- and newest snapshot, read by GET /vault and changed by PUT /vault in one transaction. The user is
-- signed in and the row exists; the database and the audit log do not fail. The base64 crate is a
-- parameter. A version is an i32 in the source and has no bound here: it starts at 0 and grows by one with an
-- update, and the overflow after 2^31 - 1 updates is not modelled, nor are rows with a negative one.
pub mod Versions
pub mod Wrapped
pub mod Register
use personal_password_manage.Prelude.{
  ℕ, ◌≡◌, ◌+◌, Bool, true, false, ◌||◌, is_some, Option, none, some, List, [], ◌∷◌, ◌++◌, ◌==◌,
  if◌then◌else◌, length, Text, codes, IsByte, All,
}
use personal_password_manage.Base64.{b64encode}
use personal_password_manage.Crypto.{KeyWrap}
use personal_password_manage.Json.{Value, number, string, object, field, end}
use personal_password_manage.Api.{
  VaultMeta, VaultUpdate, KeysUpdate, Response, Fetched, answered, decimal,
}

-- `base64::engine::general_purpose::STANDARD`
pub record Base64Crate : Type 0 where
  pub decode : Text → Option (List ℕ)
  pub encode : List ℕ → Text

-- It reads what the browser writes, and writes the same.
pub record IsStandard (c : Base64Crate) : Type 0 where
  pub decode-b64encode : (bs : List ℕ) → All IsByte bs → c.decode (b64encode bs) ≡ some bs
  pub encode_same : (bs : List ℕ) → All IsByte bs → c.encode bs ≡ b64encode bs

-- A stored ciphertext and its nonce.
pub record Sealed : Type 0 where
  pub ciphertext : List ℕ
  pub nonce : List ℕ

-- A snapshot's ciphertext and nonce; the column of the nonce may be NULL, as no update of this module leaves
-- it.
pub record Blob : Type 0 where
  pub ciphertext : List ℕ
  pub nonce : Option (List ℕ)

pub record Snapshot : Type 0 where
  pub version : ℕ
  pub blob : Blob
  pub created_at : Text

pub record Kdf : Type 0 where
  pub algorithm : Text
  pub memory : ℕ
  pub iterations : ℕ
  pub parallelism : ℕ
  pub salt : List ℕ
  pub encrypted_vault_key : List ℕ

pub record Server : Type 0 where
  pub version : ℕ
  pub updated_at : Text
  pub kdf : Kdf
  pub snapshot : Option Snapshot
  pub kek_wrap : Option Sealed
  pub recovery_wrap : Option Sealed

-- The errors of this module; `Display` gives the text of the body.
pub data AppError : Type 0 where
  validation conflict : Text → AppError

abbrev pub error_text : AppError → Text
error_text (validation message) = codes "Validation error: " ++ message
error_text (conflict message) = codes "Conflict: " ++ message

abbrev pub error_status : AppError → ℕ
error_status (validation message) = 400
error_status (conflict message) = 409

unfoldable pub into_response : AppError → Response
into_response e = record {
  status = error_status e;
  body = some (object (field (codes "error") (string (error_text e)) end));
}

pub data Result (A : Type 0) : Type 0 where
  done : A → Result A
  fails : AppError → Result A

infixl 5 ◌>>=◌
abbrev pub ◌>>=◌ : {A B : Type 0} → Result A → (A → Result B) → Result B
done a >>= k = k a
fails e >>= k = fails e

abbrev pub ok_or : {A : Type 0} → AppError → Option A → Result A
ok_or e none = fails e
ok_or e (some a) = done a

abbrev pub ensure : Bool → AppError → Result Bool
ensure b e = if b then done true else fails e

abbrev pub bad_version : ℕ → ℕ → AppError
bad_version expected got = conflict (
    codes "Vault version conflict - expected version "
    ++ decimal expected
    ++ codes ", got "
    ++ decimal got
    ++ codes " (a newer version exists)")

-- `max_version.unwrap_or(0)`
abbrev pub max_version : Server → ℕ
max_version s = elim s.snapshot [ none ↦ 0 | some snap ↦ snap.version ]

module _ (c : Base64Crate) where
  unfoldable pub decode_wrap : KeyWrap → Result Sealed
  decode_wrap wrap = do
    ciphertext ←
        ok_or (validation (codes "wrap ciphertext must be base64-encoded"))
          (c.decode wrap.ciphertext)
    nonce ← ok_or (validation (codes "wrap nonce must be base64-encoded")) (c.decode wrap.nonce)
    _ ← ensure (length nonce == 12) (validation (codes "wrap nonce must be a 12-byte AES-GCM IV"))
    _ ←
        ensure (length ciphertext == 48)
          (validation (codes "wrap ciphertext must be 48 bytes (32-byte key + GCM tag)"))
    done (record { ciphertext = ciphertext; nonce = nonce })

  -- The column after the update: an absent wrap leaves it.
  unfoldable pub apply_wrap_update : Option KeyWrap → Option Sealed → Result (Option Sealed)
  apply_wrap_update none old = done old
  apply_wrap_update (some wrap) old = do sealed ← decode_wrap wrap; done (some sealed)

  -- The row after the transaction; an error rolls it back.
  unfoldable pub update_vault : VaultUpdate → Text → Server → Result Server
  update_vault req now s = do
    ciphertext ←
        ok_or (validation (codes "ciphertext must be base64-encoded"))
          (c.decode req.body.ciphertext)
    nonce ← ok_or (validation (codes "nonce must be base64-encoded")) (c.decode req.body.nonce)
    _ ← ensure (length nonce == 12) (validation (codes "nonce must be a 12-byte AES-GCM IV"))
    _ ← ensure (req.version == max_version s + 1) (bad_version (max_version s + 1) req.version)
    kek ← apply_wrap_update req.kek_wrap s.kek_wrap
    recovery ← apply_wrap_update req.recovery_wrap s.recovery_wrap
    done (record s {
      version = req.version;
      updated_at = now;
      snapshot = some (record {
        version = req.version;
        blob = record { ciphertext = ciphertext; nonce = some nonce };
        created_at = now;
      });
      kek_wrap = kek;
      recovery_wrap = recovery;
    })

  -- PUT /vault: the response and the row.
  unfoldable pub put_vault : VaultUpdate → Text → Server → Fetched × Server
  put_vault req now s = elim (update_vault req now s) [
    | done t ↦ (
      answered (record {
        status = 200;
        body = some (
            object (
              field (codes "message") (string (codes "Vault updated"))
                (field (codes "version") (number req.version) end)));
      }),
      t,
    )
    | fails e ↦ (answered (into_response e), s)
  ]

  -- PUT /vault/keys: the row with the wraps that are given; there is one recovery wrap.
  unfoldable pub update_vault_keys : KeysUpdate → Text → Server → Result Server
  update_vault_keys req now s = do
    _ ←
        ensure (is_some req.kek_wrap || is_some req.recovery_wrap)
          (validation (codes "provide at least one wrap to update"))
    kek ← apply_wrap_update req.kek_wrap s.kek_wrap
    recovery ← apply_wrap_update req.recovery_wrap s.recovery_wrap
    done (record s { updated_at = now; kek_wrap = kek; recovery_wrap = recovery })

  abbrev pub to_wrap : Sealed → KeyWrap
  to_wrap sealed = record { ciphertext = c.encode sealed.ciphertext; nonce = c.encode sealed.nonce }

  abbrev pub to_wrap_option : Option Sealed → Option KeyWrap
  to_wrap_option none = none
  to_wrap_option (some sealed) = some (to_wrap sealed)

  abbrev encode_option : Option (List ℕ) → Option Text
  encode_option none = none
  encode_option (some bytes) = some (c.encode bytes)

  -- GET /vault, as `request` hands it to the client.
  unfoldable pub get_vault : Server → VaultMeta
  get_vault s = record {
    version = s.version;
    ciphertext = elim s.snapshot [ none ↦ none | some snap ↦ some (c.encode snap.blob.ciphertext) ];
    nonce = elim s.snapshot [ none ↦ none | some snap ↦ encode_option snap.blob.nonce ];
    updated_at = elim s.snapshot [ none ↦ some s.updated_at | some snap ↦ some snap.created_at ];
    kdf_algorithm = s.kdf.algorithm;
    kdf_memory = s.kdf.memory;
    kdf_iterations = s.kdf.iterations;
    kdf_parallelism = s.kdf.parallelism;
    kdf_salt = c.encode s.kdf.salt;
    encrypted_vault_key = c.encode s.kdf.encrypted_vault_key;
    kek_wrap = to_wrap_option s.kek_wrap;
    recovery_wrap = to_wrap_option s.recovery_wrap;
  }
