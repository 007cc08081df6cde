-- ===== src/Percent.antt =====
-- The escapes of URLs: `encodeURIComponent` (lib/breaches.ts) and what `URLSearchParams` prints (lib/api.ts),
-- written out after their standards.
pub mod Reading
use personal_password_manage.Prelude.{
  ℕ, ◌+◌, ◌/◌, ◌%◌, Bool, ◌&&◌, ◌||◌, List, [], ◌∷◌, ◌++◌, ltb, leb, ◌==◌, if◌then◌else◌, Text,
  codes, is_digit,
}
use personal_password_manage.Utf8.{encode}

-- What `encodeURIComponent` keeps.
abbrev pub is_unreserved : ℕ → Bool
is_unreserved c =
    is_digit c
    || (leb 65 c && leb c 90)
    || (leb 97 c && leb c 122)
    || c == b'-'
    || c == b'_'
    || c == b'.'
    || c == b'!'
    || c == b'~'
    || c == b'*'
    || c == b'\''
    || c == b'('
    || c == b')'

abbrev pub upper_hex : ℕ → ℕ
upper_hex n = if ltb n 10 then 48 + n else 55 + n

unfoldable pub percent : List ℕ → Text
percent [] = []
percent (b ∷ bs) =
    let rest = percent bs in
    if is_unreserved b then b ∷ rest else b'%' ∷ upper_hex (b / 16) ∷ upper_hex (b % 16) ∷ rest

unfoldable pub encode_uri_component : Text → Text
unfolding percent
encode_uri_component s = percent (encode s)

-- What `URLSearchParams` keeps; a space becomes a plus sign.
abbrev pub form_keeps : ℕ → Bool
form_keeps c =
    is_digit c
    || (leb 65 c && leb c 90)
    || (leb 97 c && leb c 122)
    || c == b'-'
    || c == b'_'
    || c == b'.'
    || c == b'*'

unfoldable pub form_bytes : List ℕ → Text
form_bytes [] = []
form_bytes (b ∷ bs) =
    let rest = form_bytes bs in
    if form_keeps b
    then b ∷ rest
    else (if b == 32 then b'+' ∷ rest else b'%' ∷ upper_hex (b / 16) ∷ upper_hex (b % 16) ∷ rest)

unfoldable pub form_encode : Text → Text
form_encode s = form_bytes (encode s)

-- `qs.toString()` for the pairs that were set.
unfoldable pub query : List (Text × Text) → Text
query [] = []
query ((k, v) ∷ []) = form_encode k ++ b'=' ∷ form_encode v
query ((k, v) ∷ p ∷ ps) = form_encode k ++ b'=' ∷ form_encode v ++ b'&' ∷ query (p ∷ ps)
