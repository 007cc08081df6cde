-- ===== src/Base64.antt =====
-- Base64 as lib/crypto.ts (`b64encode`, `b64decode`) and lib/passkeys.ts (`b64urlToBuffer`,
-- `bufferToB64url`) use it; Buffers has that of Node. `btoa` and `atob` are written out after the HTML standard; a byte string
-- is the list of its bytes, and `none` is the exception of `atob`.
pub mod Codec
pub mod Chunks
pub mod RoundTrip
pub mod Buffers
use personal_password_manage.Prelude.{
  ℕ, zero, suc, ◌+◌, ◌-◌, ◌*◌, ◌/◌, ◌%◌, Bool, true, false, ◌||◌, Option, none, some, List, [], ◌∷◌,
  ◌++◌, map, ltb, ◌==◌, if◌then◌else◌, Text, length, take, drop, filter, not,
}

infixl 5 ◌>>=◌
abbrev pub ◌>>=◌ {ℓ κ} : {A : Type ℓ} {B : Type κ} → Option A → (A → Option B) → Option B
none >>= k = none
some a >>= k = k a

-- The character of a sextet, and back.
pub sextet_char : ℕ → ℕ
sextet_char n =
    if ltb n 26
    then n + 65
    else if ltb n 52
    then n + 71
    else if ltb n 62
    then n - 4
    else if n == 62
    then b'+'
    else b'/'

pub char_sextet : ℕ → Option ℕ
char_sextet c =
    if ltb c 43
    then none
    else if c == b'+'
    then some 62
    else if c == b'/'
    then some 63
    else if ltb c 48
    then none
    else if ltb c 58
    then some (c + 4)
    else if ltb c 65
    then none
    else if ltb c 91
    then some (c - 65)
    else if ltb c 97
    then none
    else if ltb c 123
    then some (c - 71)
    else none

pub btoa : List ℕ → Text
btoa [] = []
btoa (a ∷ []) = sextet_char (a / 4) ∷ sextet_char (a % 4 * 16) ∷ b'=' ∷ b'=' ∷ []
btoa (a ∷ b ∷ []) =
    sextet_char (a / 4) ∷ sextet_char (a % 4 * 16 + b / 16) ∷ sextet_char (b % 16 * 4) ∷ b'=' ∷ []
btoa (a ∷ b ∷ c ∷ bin) =
    sextet_char (a / 4)
    ∷ sextet_char (a % 4 * 16 + b / 16)
    ∷ sextet_char (b % 16 * 4 + c / 64)
    ∷ sextet_char (c % 64)
    ∷ btoa bin

-- The last step of `atob`, on a text without blanks and padding.
pub decode_sextets : Text → Option (List ℕ)
decode_sextets [] = some []
decode_sextets (a ∷ []) = none
decode_sextets (a ∷ b ∷ []) = do x ← char_sextet a; y ← char_sextet b; some ((x * 4 + y / 16) ∷ [])
decode_sextets (a ∷ b ∷ c ∷ []) = do
  x ← char_sextet a
  y ← char_sextet b
  z ← char_sextet c
  some ((x * 4 + y / 16) ∷ (y % 16 * 16 + z / 4) ∷ [])
decode_sextets (a ∷ b ∷ c ∷ d ∷ s) = do
  x ← char_sextet a
  y ← char_sextet b
  z ← char_sextet c
  w ← char_sextet d
  rest ← decode_sextets s
  some ((x * 4 + y / 16) ∷ (y % 16 * 16 + z / 4) ∷ (z % 4 * 64 + w) ∷ rest)

abbrev pub is_blank : ℕ → Bool
is_blank c = c == 9 || c == 10 || c == 12 || c == 13 || c == 32

-- Removes one final `=`.
pub drop_pad : Text → Text
drop_pad [] = []
drop_pad (c ∷ []) = if c == b'=' then [] else c ∷ []
drop_pad (c ∷ d ∷ s) = c ∷ drop_pad (d ∷ s)

pub atob : Text → Option (List ℕ)
atob s =
    let t = filter (λ c. not (is_blank c)) s in
    decode_sextets (if length t % 4 == 0 then drop_pad (drop_pad t) else t)

-- The loop of `b64encode` and `bufferToB64url`: `bin` grows by one slice at a time; the fuel bounds
-- the number of slices.
pub join_chunks : ℕ → ℕ → List ℕ → List ℕ
join_chunks zero size bytes = []
join_chunks (suc fuel) size [] = []
join_chunks (suc fuel) size (b ∷ bytes) =
    take size (b ∷ bytes) ++ join_chunks fuel size (drop size (b ∷ bytes))

abbrev pub chunk_size : ℕ
chunk_size = 0x8000

pub b64encode : List ℕ → Text
b64encode bytes = btoa (join_chunks (length bytes) chunk_size bytes)

-- `bytes[i] = bin.charCodeAt(i)`: a `Uint8Array` keeps the low eight bits.
pub b64decode : Text → Option (List ℕ)
b64decode b64 = do bin ← atob b64; some (map (λ c. c % 256) bin)

-- `.replace(/from/g, to)` for single characters
pub replace_char : ℕ → ℕ → Text → Text
replace_char from to = map (λ c. if c == from then to else c)

-- `.replace(/=+$/, '')`
pub strip_pads : Text → Text
strip_pads [] = []
strip_pads (c ∷ s) = elim (strip_pads s) [
  | [] ↦ if c == b'=' then [] else c ∷ []
  | d ∷ t ↦ c ∷ d ∷ t
]

abbrev pub repeat_char : ℕ → ℕ → Text
repeat_char c zero = []
repeat_char c (suc n) = c ∷ repeat_char c n

pub b64url_to_buffer : Text → Option (List ℕ)
b64url_to_buffer b64url = do
  let b64 = replace_char b'_' b'/' (replace_char b'-' b'+' b64url)
  bin ← atob (b64 ++ repeat_char b'=' ((4 - length b64 % 4) % 4))
  some (map (λ c. c % 256) bin)

pub buffer_to_b64url : List ℕ → Text
buffer_to_b64url buf = strip_pads (
    replace_char b'/' b'_'
      (replace_char b'+' b'-' (btoa (join_chunks (length buf) chunk_size buf))))
