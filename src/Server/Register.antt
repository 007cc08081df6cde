-- ===== src/Server/Register.antt =====
-- PUT /vault as a register with compare-and-swap.
use personal_password_manage.Prelude.{
  ℕ, ◌+◌, ◌≡◌, refl, ap, ap₂, ◌∙◌, Bool, true, false, ◌&&◌, Option, none, some, List, [], ◌∷◌, ◌==◌,
  if◌then◌else◌, arith, length, Text,
}
use personal_password_manage.Crypto.{KeyWrap}
use personal_password_manage.Api.{VaultUpdate, Fetched, answered}
use personal_password_manage.Server.{
  Base64Crate, Server, Blob, Result, done, fails, validation, conflict, into_response, decode_wrap,
  apply_wrap_update, max_version, update_vault, put_vault,
}

-- What a client sees of the row: the newest version and its ciphertext.
pub record Register : Type 0 where
  pub version : ℕ
  pub contents : Option Blob

abbrev pub view : Server → Register
view s = record {
  version = max_version s;
  contents = elim s.snapshot [ none ↦ none | some snap ↦ some snap.blob ];
}

-- A write that names the version which it makes; `none` is a body that is no write at all.
abbrev pub write : ℕ → Option Blob → Register → Register
write version none r = r
write version (some blob) r =
    if version == r.version + 1 then record { version = version; contents = some blob } else r

-- Whether it is taken.
abbrev pub takes : ℕ → Option Blob → Register → Bool
takes version none r = false
takes version (some blob) r = version == r.version + 1

abbrev pub is_done : Fetched → Bool
is_done (answered response) = response.status == 200
is_done _ = false

module _ (c : Base64Crate) where
  abbrev pub is_sealed : Option KeyWrap → Bool
  is_sealed none = true
  is_sealed (some wrap) = elim (decode_wrap c wrap) [ done sealed ↦ true | fails e ↦ false ]

  -- What a request writes, whatever the row holds.
  abbrev pub blob_of : VaultUpdate → Option Blob
  blob_of req = elim (c.decode req.body.ciphertext) [
    | none ↦ none
    | some ciphertext ↦ elim (c.decode req.body.nonce) [
      | none ↦ none
      | some nonce ↦
          if length nonce == 12 && is_sealed req.kek_wrap && is_sealed req.recovery_wrap
          then some (record { ciphertext = ciphertext; nonce = some nonce })
          else none
    ]
  ]

  abbrev pub after : Result Server → Server → Server
  after (done t) s = t
  after (fails e) s = s

  update_vault-write :
      (req : VaultUpdate) (now : Text) (s : Server)
      → view (after (update_vault c req now s) s) ≡ write req.version (blob_of req) (view s)
  unfolding update_vault apply_wrap_update
  update_vault-write req now s = ground arith

  abbrev taken : Result Server → Bool
  taken (done t) = true
  taken (fails e) = false

  update_vault-takes :
      (req : VaultUpdate) (now : Text) (s : Server)
      → taken (update_vault c req now s) ≡ takes req.version (blob_of req) (view s)
  unfolding update_vault apply_wrap_update
  update_vault-takes req now s = ground arith

  put_vault-outcome :
      (req : VaultUpdate) (now : Text) (s : Server) (r : Result Server)
      → update_vault c req now s ≡ r
      → (is_done (put_vault c req now s).0 ≡ taken r) × ((put_vault c req now s).1 ≡ after r s)
  unfolding put_vault into_response
  put_vault-outcome req now s (done t) e = rw (put_vault, e) (refl, refl)
  put_vault-outcome req now s (fails (validation m)) e = rw (put_vault, e) (refl, refl)
  put_vault-outcome req now s (fails (conflict m)) e = rw (put_vault, e) (refl, refl)

  -- The requests of all devices, in the order in which their transactions commit, and which were accepted.
  unfoldable pub puts : List (VaultUpdate × Text) → Server → List Bool × Server
  puts [] s = ([], s)
  puts ((req, now) ∷ reqs) s =
      let (answer, t) = put_vault c req now s in
      let (answers, o) = puts reqs t in (is_done answer ∷ answers, o)

  unfoldable pub writes : List (VaultUpdate × Text) → Register → List Bool × Register
  writes [] r = ([], r)
  writes ((req, now) ∷ reqs) r =
      let (answers, o) = writes reqs (write req.version (blob_of req) r) in
      (takes req.version (blob_of req) r ∷ answers, o)

  -- Every sequence of PUT /vault requests, malformed and stale ones included, is a sequence of
  -- compare-and-swap writes on one register: the same ones are accepted, and the newest version and its
  -- ciphertext are the register's, whatever else the row holds.
  pub puts-writes :
      (reqs : List (VaultUpdate × Text)) (s : Server)
      → ((puts reqs s).0 ≡ (writes reqs (view s)).0)
        × (view (puts reqs s).1 ≡ (writes reqs (view s)).1)
  unfolding puts writes
  puts-writes [] s = (refl, refl)
  puts-writes ((req, now) ∷ reqs) s =
      let (status, row) = put_vault-outcome req now s (update_vault c req now s) refl in
      let next : view (put_vault c req now s).1 ≡ write req.version (blob_of req) (view s) =
        ap view row ∙ update_vault-write req now s in
      let first : is_done (put_vault c req now s).0 ≡ takes req.version (blob_of req) (view s) =
        status ∙ update_vault-takes req now s in
      let (a, b) = puts-writes reqs (put_vault c req now s).1 in
      (
        ap₂ (λ (x : Bool) (xs : List Bool). x ∷ xs) first
            (a ∙ ap (λ (r : Register). (writes reqs r).0) next),
        b ∙ ap (λ (r : Register). (writes reqs r).1) next,
      )
