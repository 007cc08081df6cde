-- ===== src/Recovery/Typed.antt =====
-- What a person may type for a Secret Key, and that it is read back as the key; the printed form of
-- a fresh key is one such text.
use mathlib.Core.Bool.{and-eq-true_iff}
use personal_password_manage.Prelude.{
  ℕ, zero, suc, ◌+◌, ◌≡◌, refl, ap, ◌∙◌, subst, inl, inr, Bool, true, not, ◌||◌, ◌&&◌, [], ◌∷◌,
  ◌++◌, arith, ltb, ◌==◌, Bool-cases, Text, Unicode, to_upper_case, length, take, drop,
  take-append-drop, All, all, is_upper, is_lower,
}
use personal_password_manage.Password.{draw}
use personal_password_manage.Password.Generated.{pick_chars-All, length-draw}
use personal_password_manage.Recovery.{
  ok, is_alnum, in_alphabet, cleaned, recovery_alphabet, recovery_key_length, recovery_group,
  secret_chars, group_chars, generate_recovery_secret, normalize_recovery_secret,
}
use personal_password_manage.Recovery.Normal.{IsKeyChar, in_alphabet-IsKeyChar, checked_of_keys}

-- `typed` stands for the key character `key`: itself, its small letter, or a lookalike of 1 or 0.
abbrev pub reads_as : ℕ → ℕ → Bool
reads_as key typed =
    typed == key
    || (is_upper key && typed == key + 32)
    || (key == b'1' && (typed == b'I' || typed == b'L' || typed == b'i' || typed == b'l'))
    || (key == b'0' && (typed == b'O' || typed == b'o'))

-- An ASCII character that is no letter and no digit.
abbrev pub is_separator : ℕ → Bool
is_separator c = ltb c 128 && not (is_alnum c || is_lower c)

-- The second text is the first, typed with separators, in either case, with lookalikes.
pub data Typed : Text → Text → Type 0 where
  done : Typed [] []
  separator : {key s : Text} (c : ℕ) → is_separator c ≡ true → Typed key s → Typed key (c ∷ s)
  letter : {key s : Text} (k c : ℕ) → reads_as k c ≡ true → Typed key s → Typed (k ∷ key) (c ∷ s)

cleaned-separator :
    (u : Unicode) (c : ℕ) (s : Text) → is_separator c ≡ true → cleaned u (c ∷ s) ≡ cleaned u s
unfolding cleaned to_upper_case
cleaned-separator u c s h = ground arith

cleaned-letter :
    (u : Unicode) (k c : ℕ) (s : Text)
    → IsKeyChar k
    → reads_as k c ≡ true
    → cleaned u (c ∷ s) ≡ k ∷ cleaned u s
unfolding cleaned to_upper_case
cleaned-letter u k c s h r = ground arith

cleaned-Typed : (u : Unicode) {key s : Text} → All IsKeyChar key → Typed key s → cleaned u s ≡ key
unfolding cleaned to_upper_case
cleaned-Typed u h done = refl
cleaned-Typed u h (separator {s} c p t) = cleaned-separator u c s p ∙ cleaned-Typed u h t
cleaned-Typed u h (letter {s} k c p t) =
    cleaned-letter u k c s h.0 p ∙ ap (λ (r : Text). k ∷ r) (cleaned-Typed u h.1 t)

-- Whatever separators, case and lookalikes a person types, the key is read back.
pub normalize_recovery_secret-Typed :
    (u : Unicode) {key s : Text}
    → All IsKeyChar key
    → length key ≡ recovery_key_length
    → Typed key s
    → normalize_recovery_secret u s ≡ ok key
unfolding normalize_recovery_secret
normalize_recovery_secret-Typed u {key} h e t = rw (cleaned-Typed u h t) (checked_of_keys key h e)

Typed-refl : (s : Text) → Typed s s
Typed-refl [] = done
Typed-refl (c ∷ s) = letter c c (ground arith) (Typed-refl s)

Typed-append : {a b c d : Text} → Typed a b → Typed c d → Typed (a ++ c) (b ++ d)
Typed-append done t = t
Typed-append (separator c p s) t = separator c p (Typed-append s t)
Typed-append (letter k c p s) t = letter k c p (Typed-append s t)

Typed-group_chars : (fuel : ℕ) (s : Text) → Typed s (group_chars fuel s)
unfolding group_chars
Typed-group_chars zero s = Typed-refl s
Typed-group_chars (suc fuel) s = elim (Bool-cases (ltb recovery_group (length s))) [
  | inl more ↦
      let joined =
        Typed-append (Typed-refl (take recovery_group s))
          (separator b'-' refl (Typed-group_chars fuel (drop recovery_group s))) in
      rw more (
        subst
          (λ k. Typed k (take recovery_group s ++ b'-' ∷ group_chars fuel (drop recovery_group s)))
          (take-append-drop recovery_group s) joined)
  | inr last ↦ rw last (Typed-refl s)
]

keys_of_all : (s : Text) → all in_alphabet s ≡ true → All IsKeyChar s
keys_of_all [] h = tt
keys_of_all (c ∷ s) h =
    let (here, later) = (and-eq-true_iff _ _).0 h in
    (in_alphabet-IsKeyChar c here, keys_of_all s later)

-- The characters of a fresh key are 32 characters of the alphabet, whatever the random words.
pub secret_chars-IsKey :
    (random : ℕ → ℕ)
    → All IsKeyChar (secret_chars random) × (length (secret_chars random) ≡ recovery_key_length)
unfolding secret_chars
secret_chars-IsKey random =
    let drawn = draw recovery_key_length random in
    let picked =
      pick_chars-All IsKeyChar recovery_alphabet drawn (keys_of_all recovery_alphabet refl)
        (omega arith) in
    (picked.0, picked.1 ∙ length-draw recovery_key_length random)

-- A fresh key has 32 characters of the alphabet, and its printed form, groups and all, is read back
-- as these.
pub normalize_recovery_secret-generate :
    (u : Unicode) (random : ℕ → ℕ)
    → (length (secret_chars random) ≡ recovery_key_length)
      × (normalize_recovery_secret u (generate_recovery_secret random) ≡ ok (secret_chars random))
unfolding generate_recovery_secret
normalize_recovery_secret-generate u random =
    let (keys, long) = secret_chars-IsKey random in
    (
      long,
      normalize_recovery_secret-Typed u keys long
          (Typed-group_chars (length (secret_chars random)) (secret_chars random)),
    )
