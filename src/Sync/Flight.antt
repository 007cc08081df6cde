-- ===== src/Sync/Flight.antt =====
-- One upload at a time, and an end to each.
use personal_password_manage.Prelude.{
  ℕ, ◌+◌, ◌≡◌, sym, ◌∙◌, ◌<◌, ◌≤◌, refl, ap, true, false, List, [], ◌∷◌, ◌++◌, inl, inr, arith,
  Text, Unicode, Bool-cases, Option-cases, is_empty, ◌||◌,
}
use personal_password_manage.Platform.{Platform}
use personal_password_manage.Envelope.{EnvelopeResult, ok, err}
use personal_password_manage.Api.{VaultMeta, VaultUpdate, ApiResult, value, failed, is_conflict}
use personal_password_manage.Vault.{VaultState}
use personal_password_manage.Sync.{
  Waiting, encrypting, uploading, reloading, decrypting, Manager, Messages, seed, decide, begin,
  upload_of, finish_encrypt, finish_upload, finish_reload, finish_decrypt,
}
use personal_password_manage.Sync.Steps.{
  Answer, encrypted, uploaded, reloaded, decrypted, Step, changed, seeded, decided, fired, answered,
  Reach, start, next, Answers, stop, edit, then_answer,
}

-- Nothing waits and `inFlight` is off, or one operation waits and it is on.
pub data IsSingle {K : Type 0} (m : Manager K) : Type 0 where
  resting : m.waiting ≡ [] → m.in_flight ≡ false → IsSingle m
  busy : (w : Waiting K) → m.waiting ≡ w ∷ [] → m.in_flight ≡ true → IsSingle m

-- The others of a list that has one entry.
no_others :
    {K : Type 0} (w v : Waiting K) (xs ys : List (Waiting K))
    → w ∷ [] ≡ xs ++ v ∷ ys
    → (xs ++ ys ≡ [])
no_others w v [] [] e = refl
no_others w v [] (y ∷ ys) e = cc
no_others w v (x ∷ []) ys e = cc
no_others w v (x ∷ z ∷ xs) ys e = cc

not_empty : {K : Type 0} (v : Waiting K) (xs ys : List (Waiting K)) → [] ≡ xs ++ v ∷ ys → ⊥
not_empty v [] ys e = cc
not_empty v (x ∷ xs) ys e = cc

same_flight :
    {K : Type 0} (m n : Manager K)
    → n.waiting ≡ m.waiting
    → n.in_flight ≡ m.in_flight
    → IsSingle m
    → IsSingle n
same_flight m n e f (resting a b) = resting (e ∙ a) (f ∙ b)
same_flight m n e f (busy w a b) = busy w (e ∙ a) (f ∙ b)

-- How far an operation is from its end.
abbrev pub stage : {K : Type 0} → Waiting K → ℕ
stage (encrypting key snapshot nonce) = 4
stage (uploading snapshot request) = 3
stage reloading = 2
stage (decrypting key fresh ciphertext nonce) = 1

-- After an answer: the callback ends, or it waits for the next operation.
data Answered {K : Type 0} (v : Waiting K) (rest : List (Waiting K)) (m n : Manager K)
    : Type 0 where
  ends : n.waiting ≡ rest → n.in_flight ≡ false → Answered v rest m n
  goes_on :
      (w : Waiting K)
      → stage w < stage v
      → n.waiting ≡ rest ++ w ∷ []
      → n.in_flight ≡ m.in_flight
      → Answered v rest m n

Answered-IsSingle :
    {K : Type 0} (v : Waiting K) (xs ys : List (Waiting K)) (m n : Manager K)
    → m.waiting ≡ xs ++ v ∷ ys
    → Answered v (xs ++ ys) m n
    → IsSingle m
    → IsSingle n
Answered-IsSingle v xs ys m n e (ends a b) (resting c d) = absurd (not_empty v xs ys (sym c ∙ e))
Answered-IsSingle v xs ys m n e (ends a b) (busy w c d) =
    resting (a ∙ no_others w v xs ys (sym c ∙ e)) b
Answered-IsSingle v xs ys m n e (goes_on k l a b) (resting c d) =
    absurd (not_empty v xs ys (sym c ∙ e))
Answered-IsSingle v xs ys m n e (goes_on k l a b) (busy w c d) =
    busy k (a ∙ ap (λ (r : List (Waiting _)). r ++ k ∷ []) (no_others w v xs ys (sym c ∙ e)))
      (b ∙ d)

module _ (p : Platform) where
  begin-IsSingle :
      (nonce : List ℕ) (m : Manager p.CryptoKey) → IsSingle m → IsSingle (begin p nonce m)
  unfolding begin
  begin-IsSingle nonce m (busy w a b) =
      same_flight m (begin p nonce m) (rw (b, begin) refl) (rw (b, begin) refl) (busy w a b)
  begin-IsSingle nonce m (resting a b) = elim (Bool-cases m.store.is_locked) [
    | inl e ↦ rw (b, begin, e) (resting a refl)
    | inr e ↦ elim (Option-cases m.store.key) [
      | inl f ↦ rw (b, begin, e, f) (resting a refl)
      | inr (key, f) ↦ rw (b, begin, e, f) (busy (encrypting key m.store nonce) (rw a refl) refl)
    ]
  ]

  finish_encrypt-Answered :
      (key : p.CryptoKey) (snapshot : VaultState p.CryptoKey) (nonce : List ℕ)
      (rest : List (Waiting p.CryptoKey)) (m : Manager p.CryptoKey)
      → Answered (encrypting key snapshot nonce) rest m (finish_encrypt p key snapshot nonce rest m)
  unfolding finish_encrypt
  finish_encrypt-Answered key snapshot nonce rest m =
      goes_on (uploading snapshot (upload_of p key snapshot nonce)) (omega arith) refl refl

  finish_upload-Answered :
      (u : Unicode) (snapshot : VaultState p.CryptoKey) (req : VaultUpdate) (r : ApiResult ℕ)
      (rest : List (Waiting p.CryptoKey)) (m : Manager p.CryptoKey)
      → Answered (uploading snapshot req) rest m (finish_upload p u snapshot r rest m)
  unfolding finish_upload
  finish_upload-Answered u snapshot req (value v) rest m = ends refl refl
  finish_upload-Answered u snapshot req (failed t) rest m = elim (Bool-cases (is_conflict u t)) [
    | inl e ↦ rw (e, finish_upload) (goes_on reloading (omega arith) refl refl)
    | inr e ↦ rw (e, finish_upload) (ends refl refl)
  ]

  finish_reload-Answered :
      (r : ApiResult VaultMeta) (rest : List (Waiting p.CryptoKey)) (m : Manager p.CryptoKey)
      → Answered reloading rest m (finish_reload p r rest m)
  unfolding finish_reload
  finish_reload-Answered (failed t) rest m = ends refl refl
  finish_reload-Answered (value fresh) rest m = elim (Option-cases m.store.key) [
    | inl e ↦ rw (e, finish_reload) (ends refl refl)
    | inr (key, e) ↦ elim (Option-cases fresh.ciphertext) [
      | inl f ↦ rw (e, f, finish_reload) (ends refl refl)
      | inr (c, f) ↦ elim (Option-cases fresh.nonce) [
        | inl g ↦ rw (e, f, g, finish_reload) (ends refl refl)
        | inr (n, g) ↦ elim (Bool-cases (is_empty c || is_empty n)) [
          | inl h ↦ rw (e, f, g, finish_reload, h) (ends refl refl)
          | inr h ↦
              rw (e, f, g, finish_reload, h)
                (goes_on (decrypting key fresh c n) (omega arith) refl refl)
        ]
      ]
    ]
  ]

  finish_decrypt-Answered :
      (msgs : Messages) (key : p.CryptoKey) (fresh : VaultMeta) (ciphertext nonce : Text)
      (r : EnvelopeResult) (rest : List (Waiting p.CryptoKey)) (m : Manager p.CryptoKey)
      → Answered
          (decrypting key fresh ciphertext nonce)
          rest
          m
          (finish_decrypt p msgs fresh r rest m)
  unfolding finish_decrypt
  finish_decrypt-Answered msgs key fresh c n (ok e) rest m = ends refl refl
  finish_decrypt-Answered msgs key fresh c n (err e) rest m = ends refl refl

  seed-flight :
      (m : Manager p.CryptoKey)
      → ((seed p m).waiting ≡ m.waiting) × ((seed p m).in_flight ≡ m.in_flight)
  unfolding seed
  seed-flight m = ground arith

  decide-flight :
      (m : Manager p.CryptoKey)
      → ((decide p m).1.waiting ≡ m.waiting) × ((decide p m).1.in_flight ≡ m.in_flight)
  unfolding decide
  decide-flight m = ground arith

work : {K : Type 0} → List (Waiting K) → ℕ
work [] = 0
work (w ∷ ws) = stage w + work ws

work-append : {K : Type 0} (xs ys : List (Waiting K)) → work (xs ++ ys) ≡ work xs + work ys
unfolding work
work-append [] ys = omega arith
work-append (x ∷ xs) ys = omega (arith, work-append xs ys)

stage_pos : {K : Type 0} (w : Waiting K) → 0 < stage w
stage_pos (encrypting key s n) = omega arith
stage_pos (uploading s r) = omega arith
stage_pos reloading = omega arith
stage_pos (decrypting k f c n) = omega arith

Answered-work :
    {K : Type 0} (v : Waiting K) (xs ys : List (Waiting K)) (m n : Manager K)
    → m.waiting ≡ xs ++ v ∷ ys
    → Answered v (xs ++ ys) m n
    → work n.waiting < work m.waiting
unfolding work
Answered-work v xs ys m n e (ends a b) =
    rw (a, e, work-append xs ys, work-append xs (v ∷ ys)) (omega (arith, stage_pos v))
Answered-work v xs ys m n e (goes_on k l a b) =
    rw (a, e, work-append (xs ++ ys) (k ∷ []), work-append xs ys, work-append xs (v ∷ ys))
      (omega (arith, l))

work-IsSingle : {K : Type 0} (m : Manager K) → IsSingle m → work m.waiting ≤ 4
unfolding work
work-IsSingle m (resting a b) = rw a (omega arith)
work-IsSingle m (busy (encrypting key s n) a b) = rw a (omega arith)
work-IsSingle m (busy (uploading s r) a b) = rw a (omega arith)
work-IsSingle m (busy reloading a b) = rw a (omega arith)
work-IsSingle m (busy (decrypting k f c n) a b) = rw a (omega arith)

module _ (p : Platform) (u : Unicode) (msgs : Messages) where
  Answer-IsSingle : {m n : Manager p.CryptoKey} → Answer p u msgs m n → IsSingle m → IsSingle n
  Answer-IsSingle {m} (encrypted xs ys key s n e) =
      Answered-IsSingle (encrypting key s n) xs ys m _ e
        (finish_encrypt-Answered p key s n (xs ++ ys) m)
  Answer-IsSingle {m} (uploaded xs ys s req r e) =
      Answered-IsSingle (uploading s req) xs ys m _ e
        (finish_upload-Answered p u s req r (xs ++ ys) m)
  Answer-IsSingle {m} (reloaded xs ys r e) =
      Answered-IsSingle reloading xs ys m _ e (finish_reload-Answered p r (xs ++ ys) m)
  Answer-IsSingle {m} (decrypted xs ys key fresh c n r e) =
      Answered-IsSingle (decrypting key fresh c n) xs ys m _ e
        (finish_decrypt-Answered p msgs key fresh c n r (xs ++ ys) m)

  Answer-work : {m n : Manager p.CryptoKey} → Answer p u msgs m n → work n.waiting < work m.waiting
  Answer-work {m} (encrypted xs ys key s n e) =
      Answered-work (encrypting key s n) xs ys m _ e
        (finish_encrypt-Answered p key s n (xs ++ ys) m)
  Answer-work {m} (uploaded xs ys s req r e) =
      Answered-work (uploading s req) xs ys m _ e (finish_upload-Answered p u s req r (xs ++ ys) m)
  Answer-work {m} (reloaded xs ys r e) =
      Answered-work reloading xs ys m _ e (finish_reload-Answered p r (xs ++ ys) m)
  Answer-work {m} (decrypted xs ys key fresh c n r e) =
      Answered-work (decrypting key fresh c n) xs ys m _ e
        (finish_decrypt-Answered p msgs key fresh c n r (xs ++ ys) m)

  Step-IsSingle : {m n : Manager p.CryptoKey} → Step p u msgs m n → IsSingle m → IsSingle n
  Step-IsSingle {m} (changed store) h = same_flight m (record m { store = store }) refl refl h
  Step-IsSingle {m} seeded h = let (a, b) = seed-flight p m in same_flight m (seed p m) a b h
  Step-IsSingle {m} decided h = let (a, b) = decide-flight p m in same_flight m (decide p m).1 a b h
  Step-IsSingle {m} (fired nonce) h = begin-IsSingle p nonce m h
  Step-IsSingle (answered a) h = Answer-IsSingle a h

  -- However edits, locks, effects, timers and answers follow one another, at most one operation of the
  -- manager waits, and `inFlight` is on exactly while one does.
  pub Reach-IsSingle : {m : Manager p.CryptoKey} → Reach p u msgs m → IsSingle m
  Reach-IsSingle (start store) = resting refl refl
  Reach-IsSingle (next r st) = Step-IsSingle st (Reach-IsSingle r)

  Answers-work :
      {k : ℕ} {m n : Manager p.CryptoKey}
      → Answers p u msgs k m n
      → k + work n.waiting ≤ work m.waiting
  Answers-work stop = omega arith
  Answers-work (edit store c) = Answers-work c
  Answers-work (then_answer a c) = omega (arith, Answer-work a, Answers-work c)

  -- A callback that has started ends after at most four answered promises (of the encryption, the upload,
  -- the reload and the decryption), whatever the answers are and however the store changes between them.
  pub Reach-ends :
      {k : ℕ} {m n : Manager p.CryptoKey} → Reach p u msgs m → Answers p u msgs k m n → k ≤ 4
  Reach-ends {m} r c = omega (arith, Answers-work c, work-IsSingle m (Reach-IsSingle r))
