-- ===== src/Recovery.antt =====
-- The printable Secret Key of lib/crypto.ts: `generateRecoverySecret` and `normalizeRecoverySecret`.
-- The words of `crypto.getRandomValues` are a function of the index.
pub mod Normal
pub mod Typed
use personal_password_manage.Prelude.{
  ℕ, zero, suc, ◌%◌, Bool, true, false, ◌||◌, not, Option, none, some, List, [], ◌∷◌, ◌++◌, map,
  ltb, ◌==◌, if◌then◌else◌, Text, codes, Unicode, to_upper_case, is_upper, is_digit, length, take,
  drop, filter, any, find?,
}
use personal_password_manage.Password.{draw, pick_chars}

abbrev pub recovery_alphabet : Text
recovery_alphabet = codes "0123456789ABCDEFGHJKMNPQRSTVWXYZ"

abbrev pub recovery_key_length : ℕ
recovery_key_length = 32

abbrev pub recovery_group : ℕ
recovery_group = 8

-- The characters of a fresh key, before they are grouped.
unfoldable pub secret_chars : (ℕ → ℕ) → Text
secret_chars random = pick_chars recovery_alphabet (draw recovery_key_length random)

-- `.replace(/(.{8})(?=.)/g, '$1-')`: a `-` after each eight characters that more follow. The fuel
-- bounds the number of groups.
unfoldable pub group_chars : ℕ → Text → Text
group_chars zero s = s
group_chars (suc fuel) s =
    let rest = take recovery_group s ++ b'-' ∷ group_chars fuel (drop recovery_group s) in
    if ltb recovery_group (length s) then rest else s

unfoldable pub generate_recovery_secret : (ℕ → ℕ) → Text
generate_recovery_secret random =
    let chars = secret_chars random in group_chars (length chars) chars

-- What `normalizeRecoverySecret` throws: a character, or the length found.
pub data SecretError : Type 0 where
  invalid_character : ℕ → SecretError
  wrong_length : ℕ → SecretError

pub data SecretResult : Type 0 where
  ok : Text → SecretResult
  err : SecretError → SecretResult

abbrev pub is_alnum : ℕ → Bool
is_alnum c = is_upper c || is_digit c

-- `.replace(/[IL]/g, '1').replace(/O/g, '0')` on one character.
abbrev pub lookalike : ℕ → ℕ
lookalike c = if c == b'I' || c == b'L' then b'1' else if c == b'O' then b'0' else c

abbrev pub in_alphabet : ℕ → Bool
in_alphabet c = any (λ a. a == c) recovery_alphabet

unfoldable pub cleaned : Unicode → Text → Text
cleaned u input = map lookalike (filter is_alnum (to_upper_case u input))

unfoldable pub checked : Text → SecretResult
checked s = elim (find? (λ c. not (in_alphabet c)) s) [
  | some c ↦ err (invalid_character c)
  | none ↦ if length s == recovery_key_length then ok s else err (wrong_length (length s))
]

unfoldable pub normalize_recovery_secret : Unicode → Text → SecretResult
normalize_recovery_secret u input = checked (cleaned u input)
