-- ===== src/Breach/Privacy.antt =====
-- What a breach check tells the service, and what it remembers.
use personal_password_manage.Prelude.{
  ℕ, ◌≡◌, ◌⊎◌, inl, inr, some, List, [], ◌∷◌, ◌++◌, arith, Bool-cases, Text, text_eq_refl, is_empty,
  Unicode, take,
}
use personal_password_manage.Breach.{
  pwned_passwords_api, Caches, lookup, RangeAnswer, counted, password_hash, fetch_range, check_hash,
  check_password_breach_count,
}

module _ (u : Unicode) (digest : List ℕ → List ℕ) where
  -- A check fetches nothing, or one address, which holds of the password's hash its first five characters
  -- and depends on nothing else of the password.
  pub check_password_breach_count-fetched :
      (fetch : Text → RangeAnswer) (password : Text) (caches : Caches)
      → let asked = (check_password_breach_count u digest fetch password caches).fetched in
        (asked ≡ [])
        ⊎ (asked ≡ (pwned_passwords_api ++ take 5 (password_hash u digest password)) ∷ [])
  unfolding check_password_breach_count check_hash fetch_range
  check_password_breach_count-fetched fetch password caches = ground arith

  remembered :
      (fetch : Text → RangeAnswer) (hash : Text) (caches : Caches) (n : ℕ)
      → (check_hash u digest fetch hash caches).result ≡ counted n
      → lookup hash (check_hash u digest fetch hash caches).caches.passwords ≡ some n
  unfolding check_hash fetch_range
  remembered fetch hash caches n h = ground (arith, text_eq_refl hash)

  -- A password whose count was found is not looked up again: the second check gives the same count, keeps
  -- the caches and fetches nothing, whatever the service would say.
  pub check_password_breach_count-again :
      (fetch again : Text → RangeAnswer) (password : Text) (caches : Caches) (n : ℕ)
      → (check_password_breach_count u digest fetch password caches).result ≡ counted n
      → let kept = (check_password_breach_count u digest fetch password caches).caches in
        check_password_breach_count u digest again password kept
        ≡ record { result = counted n; caches = kept; fetched = [] }
  unfolding check_password_breach_count check_hash fetch_range
  check_password_breach_count-again fetch again password caches n h =
      elim (Bool-cases (is_empty password)) [
        | inl e ↦ ground arith
        | inr e ↦
            let hash = password_hash u digest password in
            let found : (check_hash u digest fetch hash caches).result ≡ counted n =
              rw (check_password_breach_count, e) at h in
            rw (
              check_password_breach_count,
              e,
              check_hash,
              remembered fetch hash caches n found,
              check_password_breach_count,
              e,
            )
      ]
