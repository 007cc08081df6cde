-- ===== src/Base64/Buffers.antt =====
-- Base64 as scripts/seed-demo.mjs uses it, by Node's `Buffer`, against that of the browser.
use personal_password_manage.Prelude.{
  ℕ, ◌<◌, ◌+◌, ◌*◌, ◌/◌, ◌%◌, ◌≡◌, refl, none, some, List, [], ◌∷◌, arith, Text, IsByte, All,
  or_else, ◌==◌, if◌then◌else◌,
}
use personal_password_manage.Base64.{sextet_char, char_sextet, decode_sextets, btoa, b64encode}
use personal_password_manage.Base64.Codec.{
  unpadded, decode_sextets-unpadded, char_sextet-sextet_char, sextet_char-IsSextetChar,
}
use personal_password_manage.Base64.RoundTrip.{joined}

-- `Buffer.from(bytes).toString('base64')`
unfoldable pub b64 : List ℕ → Text
b64 bytes = btoa bytes

-- What `Buffer.from(s, 'base64')` reads of a text: it stops at the padding, takes the url alphabet too, and
-- skips every other character.
abbrev pub plain_char : ℕ → ℕ
plain_char c = if c == b'-' then b'+' else if c == b'_' then b'/' else c

pub sextet_chars : Text → Text
sextet_chars [] = []
sextet_chars (c ∷ s) =
    let rest = sextet_chars s in
    if c == b'='
    then []
    else elim (char_sextet (plain_char c)) [ none ↦ rest | some n ↦ plain_char c ∷ rest ]

-- A last character alone holds no byte.
pub drop_odd : Text → Text
drop_odd [] = []
drop_odd (a ∷ []) = []
drop_odd (a ∷ b ∷ []) = a ∷ b ∷ []
drop_odd (a ∷ b ∷ c ∷ []) = a ∷ b ∷ c ∷ []
drop_odd (a ∷ b ∷ c ∷ d ∷ s) = a ∷ b ∷ c ∷ d ∷ drop_odd s

unfoldable pub from_b64 : Text → List ℕ
unfolding sextet_chars drop_odd
from_b64 s = or_else (decode_sextets (drop_odd (sextet_chars s))) []

-- `Buffer` writes what `b64encode` writes, which goes through slices of the bytes.
pub b64-b64encode : (bytes : List ℕ) → b64 bytes ≡ b64encode bytes
unfolding b64 b64encode
b64-b64encode bytes = rw (joined bytes)

sextet_chars-cons :
    (n : ℕ) (s : Text) → n < 64 → sextet_chars (sextet_char n ∷ s) ≡ sextet_char n ∷ sextet_chars s
unfolding sextet_chars
sextet_chars-cons n s h =
    let (_, pad, minus, under) = sextet_char-IsSextetChar n h in
    let same : plain_char (sextet_char n) ≡ sextet_char n = ground arith in
    let e = char_sextet-sextet_char n h in ground (arith, same, e)

sextet_chars-btoa : (bytes : List ℕ) → All IsByte bytes → sextet_chars (btoa bytes) ≡ unpadded bytes
unfolding btoa unpadded sextet_chars
sextet_chars-btoa [] h = refl
sextet_chars-btoa (a ∷ []) h =
    rw (sextet_chars-cons (a / 4) _ (omega arith), sextet_chars-cons (a % 4 * 16) _ (omega arith))
sextet_chars-btoa (a ∷ b ∷ []) h = rw (
  sextet_chars-cons (a / 4) _ (omega arith),
  sextet_chars-cons (a % 4 * 16 + b / 16) _ (omega arith),
  sextet_chars-cons (b % 16 * 4) _ (omega arith),
)
sextet_chars-btoa (a ∷ b ∷ c ∷ bytes) h = rw (
  sextet_chars-cons (a / 4) _ (omega arith),
  sextet_chars-cons (a % 4 * 16 + b / 16) _ (omega arith),
  sextet_chars-cons (b % 16 * 4 + c / 64) _ (omega arith),
  sextet_chars-cons (c % 64) _ (omega arith),
  sextet_chars-btoa bytes h.1.1.1,
)

drop_odd-unpadded : (bytes : List ℕ) → drop_odd (unpadded bytes) ≡ unpadded bytes
unfolding drop_odd unpadded
drop_odd-unpadded [] = refl
drop_odd-unpadded (a ∷ []) = refl
drop_odd-unpadded (a ∷ b ∷ []) = refl
drop_odd-unpadded (a ∷ b ∷ c ∷ bytes) = rw (drop_odd-unpadded bytes)

-- `Buffer` reads back the text that the server and the browser write.
pub from_b64-b64encode : (bytes : List ℕ) → All IsByte bytes → from_b64 (b64encode bytes) ≡ bytes
unfolding from_b64 b64encode
from_b64-b64encode bytes h = rw (
  joined bytes,
  sextet_chars-btoa bytes h,
  drop_odd-unpadded bytes,
  decode_sextets-unpadded bytes h,
)
