-- ===== src/Password/Rating.antt =====
-- How the strength of a password depends on its characters.
use native.Mathlib.Nat.{pow-le-pow_left, pow-le-pow_right, one-le-pow, le_trans}
use personal_password_manage.Prelude.{
  ℕ, suc, ◌+◌, ◌^◌, ◌≤◌, ◌<◌, ◌≡◌, refl, Bool, true, false, ◌||◌, [], ◌∷◌, ◌++◌, arith, Text,
  js_length, length, any, is_upper, is_lower, is_digit,
}
use personal_password_manage.Password.{
  charset_size, is_other, points, floor_log2, calculate_entropy, strength_of_entropy,
  get_password_strength, generate_password, Classes,
}
use personal_password_manage.Password.Log2.{floor_log2_bounds, le-floor_log2, floor_log2_mono}
use personal_password_manage.Password.Generated.{generate_password-allowed}

any-append : (p : ℕ → Bool) (s t : Text) → any p (s ++ t) ≡ (any p s || any p t)
any-append p [] t = refl
any-append p (c ∷ s) t = ground (arith, any-append p s t)

points-or : (a b : Bool) (n : ℕ) → points a n ≤ points (a || b) n
points-or true b n = ground arith
points-or false b n = omega arith

charset_size-append : (s t : Text) → charset_size s ≤ charset_size (s ++ t)
unfolding charset_size
charset_size-append s t =
    rw
      (
        any-append is_lower s t,
        any-append is_upper s t,
        any-append is_digit s t,
        any-append is_other s t,
      )
      (omega (
        arith,
        points-or (any is_lower s) (any is_lower t) 26,
        points-or (any is_upper s) (any is_upper t) 26,
        points-or (any is_digit s) (any is_digit t) 10,
        points-or (any is_other s) (any is_other t) 32,
      ))

js_length-append : (s t : Text) → js_length (s ++ t) ≡ js_length s + js_length t
unfolding js_length
js_length-append [] t = omega arith
js_length-append (c ∷ s) t = omega (arith, js_length-append s t)

pub length-le-js_length : (s : Text) → length s ≤ js_length s
unfolding js_length
length-le-js_length [] = omega arith
length-le-js_length (c ∷ s) = ground (arith, length-le-js_length s)

-- Every character counts for one of the four classes.
charset_size-cons : (c : ℕ) (s : Text) → 10 ≤ charset_size (c ∷ s)
unfolding charset_size
charset_size-cons c s = ground arith

choices : Text → ℕ
choices s = charset_size s ^ js_length s

choices-pos : (c : ℕ) (s : Text) → 0 < choices (c ∷ s)
unfolding choices
choices-pos c s =
    one-le-pow (js_length (c ∷ s)) (charset_size (c ∷ s)) (omega (arith, charset_size-cons c s))

calculate_entropy-cons :
    (c : ℕ) (s : Text) → calculate_entropy (c ∷ s) ≡ floor_log2 (choices (c ∷ s))
unfolding calculate_entropy choices
calculate_entropy-cons c s = ground (arith, charset_size-cons c s)

-- The entropy of a non-empty password is the floor of the binary logarithm of the number of
-- passwords of its length over the classes that it uses.
pub calculate_entropy_bounds :
    (c : ℕ) (s : Text)
    → (2 ^ calculate_entropy (c ∷ s) ≤ charset_size (c ∷ s) ^ js_length (c ∷ s))
      × (charset_size (c ∷ s) ^ js_length (c ∷ s) < 2 ^ suc (calculate_entropy (c ∷ s)))
unfolding choices
calculate_entropy_bounds c s =
    rw (calculate_entropy-cons c s) (floor_log2_bounds (choices (c ∷ s)) (choices-pos c s))

choices-append : (c : ℕ) (s t : Text) → choices (c ∷ s) ≤ choices (c ∷ s ++ t)
unfolding choices
choices-append c s t =
    le_trans (pow-le-pow_left (charset_size-append (c ∷ s) t) (js_length (c ∷ s))) (
      pow-le-pow_right {n = charset_size (c ∷ s ++ t)} (omega (arith, charset_size-cons c (s ++ t)))
        (omega (arith, js_length-append (c ∷ s) t)))

calculate_entropy-append_cons :
    (c : ℕ) (s t : Text) → calculate_entropy (c ∷ s) ≤ calculate_entropy (c ∷ s ++ t)
calculate_entropy-append_cons c s t =
    rw (calculate_entropy-cons c s, calculate_entropy-cons c (s ++ t))
      (floor_log2_mono (choices (c ∷ s)) (choices (c ∷ s ++ t)) (choices-pos c s)
        (choices-append c s t))

pub calculate_entropy-append : (s t : Text) → calculate_entropy s ≤ calculate_entropy (s ++ t)
unfolding calculate_entropy charset_size
calculate_entropy-append [] t = omega arith
calculate_entropy-append (c ∷ s) t = calculate_entropy-append_cons c s t

strength_of_entropy_mono :
    (a b : ℕ) → a ≤ b → (strength_of_entropy a).score ≤ (strength_of_entropy b).score
unfolding strength_of_entropy
strength_of_entropy_mono a b h = ground arith

-- Appending characters to a password never lowers its strength score.
pub get_password_strength-append :
    (s t : Text) → (get_password_strength s).score ≤ (get_password_strength (s ++ t)).score
unfolding get_password_strength
get_password_strength-append s t = strength_of_entropy_mono _ _ (calculate_entropy-append s t)

-- A password of at least twenty code points is rated strong at least: it has 60 bits or more.
long_is_strong : (c : ℕ) (s : Text) → 20 ≤ length (c ∷ s) → 60 ≤ calculate_entropy (c ∷ s)
unfolding choices
long_is_strong c s h = rw (calculate_entropy-cons c s) (
    le-floor_log2 60 (choices (c ∷ s))
      (le_trans
        (le_trans tens (
          pow-le-pow_right {n = 10} (omega arith) {i = 20} {j = js_length (c ∷ s)}
            (omega (arith, length-le-js_length (c ∷ s)))))
        (pow-le-pow_left (charset_size-cons c s) (js_length (c ∷ s))))
      (choices-pos c s))
  where
    tens : 2 ^ 60 ≤ 10 ^ 20
    tens = omega arith

score_of_60 : (e : ℕ) → 60 ≤ e → 3 ≤ (strength_of_entropy e).score
unfolding strength_of_entropy
score_of_60 e h = ground arith

-- What the forms generate (24 characters; any length from twenty on) is rated strong at least,
-- whatever the classes chosen and the random words.
pub generate_password-strong :
    (n : ℕ) (o : Classes) (random : ℕ → ℕ)
    → 20 ≤ n
    → 3 ≤ (get_password_strength (generate_password n o random)).score
unfolding get_password_strength
generate_password-strong n o random h =
    go (generate_password n o random) (generate_password-allowed n o random).0
  where
    go : (s : Text) → length s ≡ n → 3 ≤ (strength_of_entropy (calculate_entropy s)).score
    go [] e = absurd (omega arith)
    go (c ∷ s) e = score_of_60 _ (long_is_strong c s (omega arith))
