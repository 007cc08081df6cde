-- ===== src/Password/Generated.antt =====
-- What `generate_password` returns, whatever the random words.
use native.Mathlib.Nat.{mod-lt}
use mathlib.Core.Bool.{and-eq-true_iff}
use personal_password_manage.Prelude.{
  ℕ, zero, suc, ◌%◌, ◌<◌, ◌≡◌, refl, ap, ◌∙◌, Bool, true, false, ◌&&◌, ◌||◌, not, List, [], ◌∷◌,
  arith, ltb, ltb→lt, Text, length, All, all, is_upper, is_lower, is_digit,
}
use personal_password_manage.Password.{
  Classes, when, charset_of, draw, char_at, pick_chars, generate_password,
}

-- A character of one of the chosen classes; lower case where none is chosen.
abbrev pub is_symbol : ℕ → Bool
is_symbol c = ltb 32 c && ltb c 127 && not (is_lower c || is_upper c || is_digit c)

abbrev pub no_class : Classes → Bool
no_class o = not (o.uppercase || o.lowercase || o.numbers || o.symbols)

abbrev pub allowed : Classes → ℕ → Bool
allowed o c =
    o.uppercase && is_upper c
    || (o.lowercase || no_class o) && is_lower c
    || o.numbers && is_digit c
    || o.symbols && is_symbol c

pub length-draw : (n : ℕ) (random : ℕ → ℕ) → length (draw n random) ≡ n
unfolding draw
length-draw zero random = refl
length-draw (suc n) random = ap suc (length-draw n (λ i. random (suc i)))

module _ {κ} (P : ℕ → Type κ) where
  -- An index inside the charset gives exactly one of its characters.
  char_at-one :
      (charset : Text) (i : ℕ)
      → All P charset
      → i < length charset
      → (c : ℕ) × (char_at charset i ≡ c ∷ []) × P c
  unfolding char_at
  char_at-one [] i h k = absurd (omega arith)
  char_at-one (c ∷ charset) zero h k = (c, refl, h.0)
  char_at-one (c ∷ charset) (suc i) h k = char_at-one charset i h.1 (omega arith)

  pub pick_chars-All :
      (charset : Text) (array : List ℕ)
      → All P charset
      → 0 < length charset
      → All P (pick_chars charset array) × (length (pick_chars charset array) ≡ length array)
  unfolding pick_chars
  pick_chars-All charset [] h k = (tt, refl)
  pick_chars-All charset (x ∷ array) h k =
      let (c, e, p) = char_at-one charset (x % length charset) h (mod-lt x k) in
      let ih = pick_chars-All charset array h k in rw e ((p, ih.0), ap suc ih.1)

All-when {κ} : (P : ℕ → Type κ) (b : Bool) (s : Text) → (b ≡ true → All P s) → All P (when b s)
All-when P true s h = h refl
All-when P false s h = tt

all-All : (p : ℕ → Bool) (s : Text) → all p s ≡ true → All (λ c. p c ≡ true) s
all-All p [] h = tt
all-All p (c ∷ s) h = (ground arith, all-All p s (ground arith))

abbrev classes : Bool → Bool → Bool → Bool → Classes
classes u l n s = record { uppercase = u; lowercase = l; numbers = n; symbols = s }

abbrev both : (Bool → Bool) → Bool
both p = p true && p false

both_sound : (p : Bool → Bool) → both p ≡ true → (b : Bool) → p b ≡ true
both_sound p h true = ground arith
both_sound p h false = ground arith

abbrev good_charset : Classes → Bool
good_charset o = all (allowed o) (charset_of o) && ltb 0 (length (charset_of o))

-- Each of the sixteen choices, by evaluation.
charset_table :
    both (λ u. both (λ l. both (λ n. both (λ s. good_charset (classes u l n s))))) ≡ true
unfolding charset_of
charset_table = refl

charset_of-allowed : (o : Classes) → good_charset o ≡ true
charset_of-allowed o =
    both_sound (λ s. good_charset (classes o.uppercase o.lowercase o.numbers s))
      (both_sound (λ n. both (λ s. good_charset (classes o.uppercase o.lowercase n s)))
        (both_sound (λ l. both (λ n. both (λ s. good_charset (classes o.uppercase l n s))))
          (both_sound (λ u. both (λ l. both (λ n. both (λ s. good_charset (classes u l n s)))))
            charset_table o.uppercase)
          o.lowercase)
        o.numbers)
      o.symbols

-- A generated password has the length asked for, and each of its characters is of a chosen class.
pub generate_password-allowed :
    (n : ℕ) (o : Classes) (random : ℕ → ℕ)
    → (length (generate_password n o random) ≡ n)
      × All (λ c. allowed o c ≡ true) (generate_password n o random)
unfolding generate_password
generate_password-allowed n o random =
    let (fits, full) = (and-eq-true_iff _ _).0 (charset_of-allowed o) in
    let found =
      pick_chars-All (λ c. allowed o c ≡ true) (charset_of o) (draw n random)
        (all-All (allowed o) (charset_of o) fits) (ltb→lt 0 _ full) in
    (found.1 ∙ length-draw n random, found.0)
