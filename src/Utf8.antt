-- ===== src/Utf8.antt =====
-- `TextEncoder` and `TextDecoder` on scalar values: UTF-8, written out. A malformed byte is decoded
-- to U+FFFD; over-long forms and surrogates, which the standard refuses, are not told apart.
pub mod RoundTrip
use personal_password_manage.Prelude.{
  ℕ, ◌+◌, ◌-◌, ◌*◌, ◌/◌, ◌%◌, Bool, true, false, ◌&&◌, zero, suc, ◌==◌, List, [], ◌∷◌, ◌++◌, ltb,
  leb, if◌then◌else◌, Text,
}

unfoldable pub encode_char : ℕ → List ℕ
encode_char c =
    if ltb c 0x80
    then c ∷ []
    else if ltb c 0x800
    then (0xc0 + c / 64) ∷ (0x80 + c % 64) ∷ []
    else if ltb c 0x10000
    then (0xe0 + c / 4096) ∷ (0x80 + c / 64 % 64) ∷ (0x80 + c % 64) ∷ []
    else (0xf0 + c / 262144) ∷ (0x80 + c / 4096 % 64) ∷ (0x80 + c / 64 % 64) ∷ (0x80 + c % 64) ∷ []

unfoldable pub encode : Text → List ℕ
encode [] = []
encode (c ∷ s) = encode_char c ++ encode s

abbrev pub is_tail : ℕ → Bool
is_tail b = leb 0x80 b && ltb b 0xc0

abbrev pub replacement : ℕ
replacement = 0xfffd

-- What one byte does: the characters that it completes, the tail bytes that are still needed, and
-- the bits so far.
pub record Step : Type 0 where
  pub out : Text
  pub need : ℕ
  pub bits : ℕ

abbrev pub step : Text → ℕ → ℕ → Step
step out need bits = record { out = out; need = need; bits = bits }

abbrev pub lead : ℕ → Step
lead b =
    if ltb b 0x80
    then step (b ∷ []) 0 0
    else if is_tail b
    then step (replacement ∷ []) 0 0
    else if ltb b 0xe0
    then step [] 1 (b - 0xc0)
    else if ltb b 0xf0
    then step [] 2 (b - 0xe0)
    else if ltb b 0xf8
    then step [] 3 (b - 0xf0)
    else step (replacement ∷ []) 0 0

unfoldable pub feed : ℕ → ℕ → ℕ → Step
feed zero bits b = lead b
feed (suc need) bits b =
    if is_tail b
    then (if need == 0
        then step ((bits * 64 + (b - 0x80)) ∷ []) 0 0
        else step [] need (bits * 64 + (b - 0x80)))
    else (let fresh = lead b in step (replacement ∷ fresh.out) fresh.need fresh.bits)

pub decode_from : ℕ → ℕ → List ℕ → Text
decode_from need bits [] = if need == 0 then [] else replacement ∷ []
decode_from need bits (b ∷ bs) = let s = feed need bits b in s.out ++ decode_from s.need s.bits bs

pub decode : List ℕ → Text
unfolding decode_from
decode = decode_from 0 0
