-- ===== src/Server/Versions.antt =====
-- Which updates the server takes, and what it keeps of them.
use personal_password_manage.Prelude.{
  ℕ, suc, ◌+◌, ◌≡◌, ◌≢◌, refl, ap, true, false, none, some, List, [], ◌==◌, arith, length, Text,
  codes, IsByte, All, drop, Unicode, includes-fold, to_lower_case, lower_from, no_sigma,
}
use personal_password_manage.Base64.{b64encode}
use personal_password_manage.Api.{VaultUpdate, failed, Fetched, answered, request, is_conflict}
use personal_password_manage.Api.Errors.{request-text}
use personal_password_manage.Server.{
  Base64Crate, IsStandard, Server, AppError, done, fails, bad_version, error_text, into_response,
  max_version, update_vault, put_vault, apply_wrap_update,
}

ne_test : (a b : ℕ) → a ≢ b → (a == b) ≡ false
ne_test a b h = ground arith

eq_test : (a : ℕ) → (a == a) ≡ true
eq_test a = ground arith

module _ (c : Base64Crate) where
  -- An update that the server accepts carries the version after the newest one, and that is the newest
  -- one from then on, for the row and for the snapshot.
  update_vault-done :
      (req : VaultUpdate) (now : Text) (s t : Server)
      → update_vault c req now s ≡ done t
      → (req.version ≡ max_version s + 1)
        × (max_version t ≡ req.version)
        × (t.version ≡ req.version)
  unfolding update_vault
  update_vault-done req now s t h = ground arith

  pub put_vault-done :
      (req : VaultUpdate) (now : Text) (s t : Server)
      → update_vault c req now s ≡ done t
      → (put_vault c req now s).1 ≡ t
  unfolding put_vault
  put_vault-done req now s t h = rw (h, put_vault)

  pub put_vault-fails :
      (req : VaultUpdate) (now : Text) (s : Server) (e : AppError)
      → update_vault c req now s ≡ fails e
      → put_vault c req now s ≡ (answered (into_response e), s)
  unfolding put_vault
  put_vault-fails req now s e h = rw (h, put_vault)

  -- Updates from any devices one after another, and how many of them the server accepts.
  pub data Puts : ℕ → Server → Server → Type 0 where
    stop : {s : Server} → Puts 0 s s
    accepted :
        {k : ℕ} {s t o : Server} (req : VaultUpdate) (now : Text)
        → update_vault c req now s ≡ done t
        → Puts k (put_vault c req now s).1 o
        → Puts (suc k) s o
    refused :
        {k : ℕ} {s o : Server} (req : VaultUpdate) (now : Text) (e : AppError)
        → update_vault c req now s ≡ fails e
        → Puts k (put_vault c req now s).1 o
        → Puts k s o

  -- The newest version counts the updates that were accepted: it grows by one with each, and by nothing
  -- with a refused one, so no version is given to two snapshots and none is skipped.
  pub Puts-max_version : {k : ℕ} {s o : Server} → Puts k s o → max_version o ≡ max_version s + k
  Puts-max_version {s = s} stop = omega arith
  Puts-max_version {s = s} {o = o} (accepted {k} {t = t} req now h rest) =
      let (a, b, _) = update_vault-done req now s t h in
      let more : max_version o ≡ max_version t + k =
        rw⁻¹ (put_vault-done req now s t h) (Puts-max_version rest) in
      omega arith
  Puts-max_version {k} {s} {o} (refused req now e h rest) =
      let more : max_version o ≡ max_version (put_vault c req now s).1 + k =
        Puts-max_version rest in
      let same : (put_vault c req now s).1 ≡ s =
        ap (λ (x : Fetched × Server). x.1) (put_vault-fails req now s e h) in
      rw⁻¹ same more

  -- The row after an accepted update without wraps.
  abbrev pub stored : ℕ → List ℕ → List ℕ → Text → Server → Server
  stored version ciphertext nonce now s = record s {
    version = version;
    updated_at = now;
    snapshot = some (record {
      version = version;
      blob = record { ciphertext = ciphertext; nonce = some nonce };
      created_at = now;
    });
  }

  abbrev pub plain_update : ℕ → List ℕ → List ℕ → VaultUpdate
  plain_update version ciphertext nonce = record {
    version = version;
    body = record { ciphertext = b64encode ciphertext; nonce = b64encode nonce };
    kek_wrap = none;
    recovery_wrap = none;
  }

  module _ (std : IsStandard c) where
    pub update_vault-next :
        (cs ns : List ℕ) (now : Text) (s : Server)
        → All IsByte cs
        → All IsByte ns
        → length ns ≡ 12
        → update_vault c (plain_update (max_version s + 1) cs ns) now s
          ≡ done (stored (max_version s + 1) cs ns now s)
    unfolding update_vault apply_wrap_update
    update_vault-next cs ns now s hc hn l =
        rw (std.decode-b64encode cs hc, std.decode-b64encode ns hn, l, eq_test (max_version s + 1))

    pub update_vault-stale :
        (v : ℕ) (cs ns : List ℕ) (now : Text) (s : Server)
        → All IsByte cs
        → All IsByte ns
        → length ns ≡ 12
        → v ≢ max_version s + 1
        → update_vault c (plain_update v cs ns) now s ≡ fails (bad_version (max_version s + 1) v)
    unfolding update_vault
    update_vault-stale v cs ns now s hc hn l ne = rw (
      std.decode-b64encode cs hc,
      std.decode-b64encode ns hn,
      l,
      ne_test v (max_version s + 1) ne,
    )

-- The error of a stale version reaches the synchronisation as a conflict.
pub stale-is_conflict :
    (u : Unicode) (expected got : ℕ)
    → (message : Text) × (request (answered (into_response (bad_version expected got)))
        ≡ failed message)
      × (is_conflict u message ≡ true)
unfolding into_response is_conflict to_lower_case lower_from no_sigma
stale-is_conflict u expected got =
    let message = error_text (bad_version expected got) in
    (
      message,
      request-text 409 message refl refl,
      includes-fold u [] (codes "Conflict") (drop 8 message) (codes "conflict") refl refl,
    )
