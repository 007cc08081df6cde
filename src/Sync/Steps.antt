-- ===== src/Sync/Steps.antt =====
-- The manager and the rest of the page as steps in any order: one operation at a time.
use personal_password_manage.Prelude.{ℕ, suc, ◌≡◌, false, none, List, [], ◌∷◌, ◌++◌, Text, Unicode}
use personal_password_manage.Platform.{Platform}
use personal_password_manage.Envelope.{EnvelopeResult}
use personal_password_manage.Api.{VaultMeta, VaultUpdate, ApiResult}
use personal_password_manage.Vault.{VaultState}
use personal_password_manage.Sync.{
  Waiting, encrypting, uploading, reloading, decrypting, Manager, Messages, seed, decide, begin,
  finish_encrypt, finish_upload, finish_reload, finish_decrypt,
}

module _ (p : Platform) (u : Unicode) (msgs : Messages) where
  -- One of the operations that wait is answered, in any way.
  pub data Answer : Manager p.CryptoKey → Manager p.CryptoKey → Type 0 where
    encrypted :
        {m : Manager p.CryptoKey} (xs ys : List (Waiting p.CryptoKey)) (key : p.CryptoKey)
        (snapshot : VaultState p.CryptoKey) (nonce : List ℕ)
        → m.waiting ≡ xs ++ encrypting key snapshot nonce ∷ ys
        → Answer m (finish_encrypt p key snapshot nonce (xs ++ ys) m)
    uploaded :
        {m : Manager p.CryptoKey} (xs ys : List (Waiting p.CryptoKey))
        (snapshot : VaultState p.CryptoKey) (request : VaultUpdate) (r : ApiResult ℕ)
        → m.waiting ≡ xs ++ uploading snapshot request ∷ ys
        → Answer m (finish_upload p u snapshot r (xs ++ ys) m)
    reloaded :
        {m : Manager p.CryptoKey} (xs ys : List (Waiting p.CryptoKey)) (r : ApiResult VaultMeta)
        → m.waiting ≡ xs ++ reloading ∷ ys
        → Answer m (finish_reload p r (xs ++ ys) m)
    decrypted :
        {m : Manager p.CryptoKey} (xs ys : List (Waiting p.CryptoKey)) (key : p.CryptoKey)
        (fresh : VaultMeta) (ciphertext nonce : Text) (r : EnvelopeResult)
        → m.waiting ≡ xs ++ decrypting key fresh ciphertext nonce ∷ ys
        → Answer m (finish_decrypt p msgs fresh r (xs ++ ys) m)

  -- Everything that can happen: the store changes in any way, an effect runs, the timer fires, or an
  -- answer comes.
  pub data Step : Manager p.CryptoKey → Manager p.CryptoKey → Type 0 where
    changed :
        {m : Manager p.CryptoKey} (store : VaultState p.CryptoKey)
        → Step m (record m { store = store })
    seeded : {m : Manager p.CryptoKey} → Step m (seed p m)
    decided : {m : Manager p.CryptoKey} → Step m (decide p m).1
    fired : {m : Manager p.CryptoKey} (nonce : List ℕ) → Step m (begin p nonce m)
    answered : {m n : Manager p.CryptoKey} → Answer m n → Step m n

  abbrev pub mounted : VaultState p.CryptoKey → Manager p.CryptoKey
  mounted store = record {
    store = store;
    in_flight = false;
    last_sent = none;
    had_key = false;
    waiting = [];
  }

  pub data Reach : Manager p.CryptoKey → Type 0 where
    start : (store : VaultState p.CryptoKey) → Reach (mounted store)
    next : {m n : Manager p.CryptoKey} → Reach m → Step m n → Reach n

  -- A chain of answers, with nothing but changes of the store between them, and its length.
  pub data Answers : ℕ → Manager p.CryptoKey → Manager p.CryptoKey → Type 0 where
    stop : {m : Manager p.CryptoKey} → Answers 0 m m
    edit :
        {k : ℕ} {m n : Manager p.CryptoKey} (store : VaultState p.CryptoKey)
        → Answers k (record m { store = store }) n
        → Answers k m n
    then_answer :
        {k : ℕ} {m n o : Manager p.CryptoKey} → Answer m n → Answers k n o → Answers (suc k) m o
