-- ===== src/Prelude/Strings.antt =====
-- JavaScript strings as lists of code points. `.length` counts UTF-16 units. The case mappings are
-- written out on ASCII; outside it they are the Unicode tables of the runtime, a parameter.
use Prim.Native.Nat.{ℕ, ◌<◌, ◌+◌, ◌-◌}
use Prim.Native.Char.{code}
use Prim.Native.String.{String}
use mathlib.Core.Path.{◌≡◌, refl, ap₂}
use mathlib.Core.Logic.{◌↔◌, ◌≢◌}
use mathlib.Core.Bool.{Bool, true, false, not, ◌&&◌, ◌||◌}
use mathlib.Core.List.{List, [], ◌∷◌, ◌++◌}
use native.Mathlib.Omega.{arith}
use personal_password_manage.Prelude.Tests.{ltb, leb, ◌==◌, if◌then◌else◌}

abbrev pub Text : Type 0
Text = List ℕ

abbrev pub codes : String → Text
codes String.[] = []
codes (String.◌∷◌ c s) = code c ∷ codes s

-- `a === b`
abbrev pub text_eq : Text → Text → Bool
text_eq [] [] = true
text_eq [] (_ ∷ _) = false
text_eq (_ ∷ _) [] = false
text_eq (a ∷ s) (b ∷ t) = a == b && text_eq s t

text_eq_sound : (s t : Text) → text_eq s t ≡ true → s ≡ t
text_eq_sound [] [] h = refl
text_eq_sound [] (b ∷ t) h = cc
text_eq_sound (a ∷ s) [] h = cc
text_eq_sound (a ∷ s) (b ∷ t) h =
    let e : a ≡ b = ground arith in ap₂ ◌∷◌ e (text_eq_sound s t (ground arith))

pub text_eq_refl : (s : Text) → text_eq s s ≡ true
text_eq_refl [] = refl
text_eq_refl (a ∷ s) = ground (arith, text_eq_refl s)

pub text_eq_iff : (s t : Text) → (text_eq s t ≡ true) ↔ (s ≡ t)
text_eq_iff s t = (text_eq_sound s t, λ e. rw e (text_eq_refl t))

pub text_eq_apart : (s t : Text) → text_eq s t ≡ false → s ≢ t
text_eq_apart s t h e =
    let same : text_eq s t ≡ true = rw e (text_eq_refl t) in
    let clash : true ≡ false = rw⁻¹ same h in cc

-- Truthiness of a string: only the empty one is falsy.
abbrev pub is_empty : Text → Bool
is_empty [] = true
is_empty (_ ∷ _) = false

abbrev pub IsByte : ℕ → Type 0
IsByte b = b < 256

-- A Unicode code point.
abbrev pub IsCodePoint : ℕ → Type 0
IsCodePoint c = c < 0x110000

-- UTF-16 units of a code point, and `.length`
abbrev pub units : ℕ → ℕ
units c = if ltb c 0x10000 then 1 else 2

unfoldable pub js_length : Text → ℕ
js_length [] = 0
js_length (c ∷ s) = units c + js_length s

abbrev pub starts_with : Text → Text → Bool
starts_with [] s = true
starts_with (p ∷ ps) [] = false
starts_with (p ∷ ps) (c ∷ s) = p == c && starts_with ps s

-- `s.includes(p)`
unfoldable pub includes : Text → Text → Bool
includes p [] = starts_with p []
includes p (c ∷ s) = starts_with p (c ∷ s) || includes p s

-- The Unicode case tables outside ASCII, where a code point may map to several, and the two properties that
-- the small form of a capital sigma depends on.
pub record Unicode : Type 0 where
  pub upper_other : ℕ → Text
  pub lower_other : ℕ → Text
  pub is_cased : ℕ → Bool
  pub is_ignorable : ℕ → Bool

-- Σ, σ and the ς that stands at the end of a word.
abbrev pub sigma : ℕ
sigma = 931

abbrev pub small_sigma : ℕ
small_sigma = 963

abbrev pub final_sigma : ℕ
final_sigma = 962

-- No capital sigma: such a text becomes small one character at a time.
unfoldable pub no_sigma : Text → Bool
no_sigma [] = true
no_sigma (c ∷ s) = not (c == sigma) && no_sigma s

abbrev pub is_upper : ℕ → Bool
is_upper c = leb b'A' c && leb c b'Z'

abbrev pub is_lower : ℕ → Bool
is_lower c = leb b'a' c && leb c b'z'

abbrev pub is_digit : ℕ → Bool
is_digit c = leb b'0' c && leb c b'9'

module _ (u : Unicode) where
  abbrev pub upper_char : ℕ → Text
  upper_char c = if ltb c 128 then (if is_lower c then c - 32 else c) ∷ [] else u.upper_other c

  abbrev pub lower_char : ℕ → Text
  lower_char c = if ltb c 128 then (if is_upper c then c + 32 else c) ∷ [] else u.lower_other c

  unfoldable pub to_upper_case : Text → Text
  to_upper_case [] = []
  to_upper_case (c ∷ s) = upper_char c ++ to_upper_case s

  -- A cased character comes next, after characters that do not count.
  unfoldable pub followed_by_cased : Text → Bool
  followed_by_cased [] = false
  followed_by_cased (c ∷ s) = u.is_cased c || (u.is_ignorable c && followed_by_cased s)

  abbrev pub cased_before : Bool → ℕ → Bool
  cased_before before c = u.is_cased c || (u.is_ignorable c && before)

  -- The condition Final_Sigma of the Unicode standard.
  abbrev pub lower_in : Bool → ℕ → Text → Text
  lower_in before c s =
      if c == sigma
      then (if before && not (followed_by_cased s) then final_sigma else small_sigma) ∷ []
      else lower_char c

  unfoldable pub lower_from : Bool → Text → Text
  lower_from before [] = []
  lower_from before (c ∷ s) = lower_in before c s ++ lower_from (cased_before before c) s

  unfoldable pub to_lower_case : Text → Text
  to_lower_case s = lower_from false s

-- No case mapping outside ASCII, for tests and instances.
abbrev pub ascii_only : Unicode
ascii_only = record {
  upper_other = λ c. c ∷ [];
  lower_other = λ c. c ∷ [];
  is_cased = λ c. is_upper c || is_lower c;
  is_ignorable = λ c. false;
}
