-- ===== src/Password.antt =====
-- Password generation and strength: `generatePassword`, `calculateEntropy` and `getPasswordStrength`
-- of lib/crypto.ts. The words of `crypto.getRandomValues` are a function of the index.
pub mod Log2
pub mod Generated
pub mod Rating
use personal_password_manage.Prelude.{
  ℕ, zero, suc, ◌+◌, ◌*◌, ◌/◌, ◌%◌, ◌^◌, Bool, true, false, ◌&&◌, ◌||◌, not, Option, none, some,
  List, [], ◌∷◌, ◌++◌, ltb, leb, ◌==◌, if◌then◌else◌, Text, codes, is_empty, is_upper, is_lower,
  is_digit, js_length, length, get_elem?, any,
}
use Prim.Native.String.{String}

abbrev pub upper : Text
upper = codes "ABCDEFGHIJKLMNOPQRSTUVWXYZ"

abbrev pub lower : Text
lower = codes "abcdefghijklmnopqrstuvwxyz"

abbrev pub nums : Text
nums = codes "0123456789"

abbrev pub syms : Text
syms = codes "!@#$%^&*()_+-=[]{}|;:,.<>?"

-- The boolean parameters of `generatePassword`.
pub record Classes : Type 0 where
  pub uppercase : Bool
  pub lowercase : Bool
  pub numbers : Bool
  pub symbols : Bool

abbrev pub every_class : Classes
every_class = record { uppercase = true; lowercase = true; numbers = true; symbols = true }

abbrev pub when : Bool → Text → Text
when true s = s
when false s = []

pub charset_of : Classes → Text
charset_of o =
    let charset =
      when o.uppercase upper
      ++ when o.lowercase lower
      ++ when o.numbers nums
      ++ when o.symbols syms in
    if is_empty charset then lower else charset

-- A `Uint32Array` of the given length, filled.
unfoldable pub draw : ℕ → (ℕ → ℕ) → List ℕ
draw zero random = []
draw (suc n) random = random 0 ∷ draw n (λ i. random (suc i))

-- `charset[i]` as a piece of the joined text: out of range it would add nothing.
unfoldable pub char_at : Text → ℕ → Text
char_at charset i = elim (get_elem? charset i) [ none ↦ [] | some c ↦ c ∷ [] ]

-- `Array.from(array, (x) => charset[x % charset.length]).join('')`
unfoldable pub pick_chars : Text → List ℕ → Text
pick_chars charset [] = []
pick_chars charset (x ∷ array) = char_at charset (x % length charset) ++ pick_chars charset array

unfoldable pub generate_password : ℕ → Classes → (ℕ → ℕ) → Text
generate_password length o random = pick_chars (charset_of o) (draw length random)

abbrev pub is_other : ℕ → Bool
is_other c = not (is_lower c || is_upper c || is_digit c)

abbrev pub points : Bool → ℕ → ℕ
points b n = if b then n else 0

pub charset_size : Text → ℕ
charset_size password =
    points (any is_lower password) 26
    + points (any is_upper password) 26
    + points (any is_digit password) 10
    + points (any is_other password) 32

-- The exponent of the largest power of two that is at most `n`; zero for 0. The fuel bounds the
-- number of halvings.
pub log2_within : ℕ → ℕ → ℕ
log2_within zero n = 0
log2_within (suc fuel) n = elim (ltb n 2) [ true ↦ 0 | false ↦ suc (log2_within fuel (n / 2)) ]

pub floor_log2 : ℕ → ℕ
unfolding log2_within
floor_log2 n = log2_within n n

-- `Math.floor(password.length * Math.log2(charsetSize))`, with the logarithm read exactly:
-- it is the largest k with 2 ^ k at most charsetSize ^ password.length.
pub calculate_entropy : Text → ℕ
calculate_entropy password =
    let size = charset_size password in
    if size == 0 then 0 else floor_log2 (size ^ js_length password)

pub data Label : Type 0 where
  very_weak weak fair strong very_strong : Label

pub record Strength : Type 0 where
  pub score : ℕ
  pub label : Label
  pub color : String

unfoldable pub strength_of_entropy : ℕ → Strength
strength_of_entropy entropy =
    if ltb entropy 28
    then record { score = 0; label = very_weak; color = "bg-red-500" }
    else if ltb entropy 36
    then record { score = 1; label = weak; color = "bg-orange-500" }
    else if ltb entropy 60
    then record { score = 2; label = fair; color = "bg-yellow-500" }
    else if ltb entropy 80
    then record { score = 3; label = strong; color = "bg-green-500" }
    else record { score = 4; label = very_strong; color = "bg-emerald-500" }

unfoldable pub get_password_strength : Text → Strength
get_password_strength password = strength_of_entropy (calculate_entropy password)
