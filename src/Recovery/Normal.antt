-- ===== src/Recovery/Normal.antt =====
-- What `normalize_recovery_secret` accepts, and that it is idempotent.
use personal_password_manage.Prelude.{
  ℕ, ◌≡◌, ◌≢◌, refl, ap, ◌∙◌, inl, inr, Bool, true, false, not, none, [], ◌∷◌, arith, Bool-cases,
  Option-cases, Text, Unicode, to_upper_case, length, find?, All,
}
use personal_password_manage.Recovery.{
  ok, is_alnum, in_alphabet, cleaned, checked, recovery_key_length, normalize_recovery_secret,
}

-- A character of the alphabet, spelled out: a digit, or a capital other than I, L, O and U.
abbrev pub IsKeyChar : ℕ → Type 0
IsKeyChar c = (is_alnum c ≡ true) × (c ≢ b'I') × (c ≢ b'L') × (c ≢ b'O') × (c ≢ b'U')

pub in_alphabet-IsKeyChar : (c : ℕ) → in_alphabet c ≡ true → IsKeyChar c
in_alphabet-IsKeyChar c h = ground arith

pub IsKeyChar-in_alphabet : (c : ℕ) → IsKeyChar c → in_alphabet c ≡ true
IsKeyChar-in_alphabet c h = ground arith

find?-none : (p : ℕ → Bool) (s : Text) → find? p s ≡ none → All (λ c. p c ≡ false) s
find?-none p [] h = tt
find?-none p (c ∷ s) h = elim (Bool-cases (p c)) [
  | inl e ↦ ground arith
  | inr e ↦ (e, find?-none p s (rw e at h))
]

find?-All-false : (p : ℕ → Bool) (s : Text) → All (λ c. p c ≡ false) s → find? p s ≡ none
find?-All-false p [] h = refl
find?-All-false p (c ∷ s) h = rw h.0 (find?-All-false p s h.1)

keys_of_search : (s : Text) → All (λ c. not (in_alphabet c) ≡ false) s → All IsKeyChar s
keys_of_search [] h = tt
keys_of_search (c ∷ s) h =
    (in_alphabet-IsKeyChar c (not_false (in_alphabet c) h.0), keys_of_search s h.1)
  where
    not_false : (b : Bool) → not b ≡ false → b ≡ true
    not_false true e = refl
    not_false false e = cc

search_of_keys : (s : Text) → All IsKeyChar s → All (λ c. not (in_alphabet c) ≡ false) s
search_of_keys [] h = tt
search_of_keys (c ∷ s) h = (rw (IsKeyChar-in_alphabet c h.0), search_of_keys s h.1)

pub checked_of_keys :
    (s : Text) → All IsKeyChar s → length s ≡ recovery_key_length → checked s ≡ ok s
unfolding checked
checked_of_keys s h e =
    rw (find?-All-false (λ c. not (in_alphabet c)) s (search_of_keys s h), checked) (ground arith)

abbrev IsKey : Text → Type 0
IsKey t = All IsKeyChar t × (length t ≡ recovery_key_length)

checked-IsKey : (s t : Text) → checked s ≡ ok t → (t ≡ s) × IsKey s
unfolding checked
checked-IsKey s t h = elim (Option-cases (find? (λ c. not (in_alphabet c)) s)) [
  | inl e ↦
      let rest = rw (e, checked) at h in
      (ground arith, (keys_of_search s (find?-none _ s e), ground arith))
  | inr (c, e) ↦ let rest = rw (e, checked) at h in cc
]

cleaned-key : (u : Unicode) (c : ℕ) (s : Text) → IsKeyChar c → cleaned u (c ∷ s) ≡ c ∷ cleaned u s
unfolding cleaned to_upper_case
cleaned-key u c s h = ground arith

cleaned_of_keys : (u : Unicode) (s : Text) → All IsKeyChar s → cleaned u s ≡ s
unfolding cleaned to_upper_case
cleaned_of_keys u [] h = refl
cleaned_of_keys u (c ∷ s) h =
    cleaned-key u c s h.0 ∙ ap (λ (t : Text). c ∷ t) (cleaned_of_keys u s h.1)

-- An accepted Secret Key is 32 characters of the alphabet, and normalising it again gives it back,
-- whatever was typed.
pub normalize_recovery_secret-IsKey :
    (u : Unicode) (input t : Text)
    → normalize_recovery_secret u input ≡ ok t
    → All IsKeyChar t × (length t ≡ recovery_key_length) × (normalize_recovery_secret u t ≡ ok t)
unfolding normalize_recovery_secret
normalize_recovery_secret-IsKey u input t h =
    let (same, (keys, long)) = checked-IsKey (cleaned u input) t h in
    let known = rw (← same) at keys in
    let size = rw (← same) at long in
    (known, size, rw (cleaned_of_keys u t known) (checked_of_keys t known size))
