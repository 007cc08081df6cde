-- ===== src/Base64/Codec.antt =====
-- The sextet table, and `decode_sextets` after an encoding without padding.
use personal_password_manage.Prelude.{
  ℕ, suc, ◌+◌, ◌*◌, ◌/◌, ◌%◌, ◌-◌, ◌<◌, ◌≡◌, ◌⊎◌, inl, inr, ◌≢◌, refl, ap, false, some, List, [],
  ◌∷◌, ◌++◌, arith, Text, IsByte, All, length,
}
use personal_password_manage.Base64.{
  sextet_char, char_sextet, btoa, decode_sextets, is_blank, repeat_char,
}

pub char_sextet-sextet_char : (n : ℕ) → n < 64 → char_sextet (sextet_char n) ≡ some n
unfolding char_sextet sextet_char
char_sextet-sextet_char n h = ground arith

-- The characters that `btoa` writes before the padding.
abbrev pub IsSextetChar : ℕ → Type 0
IsSextetChar c = (is_blank c ≡ false) × (c ≢ b'=') × (c ≢ b'-') × (c ≢ b'_')

pub sextet_char-IsSextetChar : (n : ℕ) → n < 64 → IsSextetChar (sextet_char n)
unfolding sextet_char
sextet_char-IsSextetChar n h = ground arith

unfoldable pub unpadded : List ℕ → Text
unpadded [] = []
unpadded (a ∷ []) = sextet_char (a / 4) ∷ sextet_char (a % 4 * 16) ∷ []
unpadded (a ∷ b ∷ []) =
    sextet_char (a / 4) ∷ sextet_char (a % 4 * 16 + b / 16) ∷ sextet_char (b % 16 * 4) ∷ []
unpadded (a ∷ b ∷ c ∷ bin) =
    sextet_char (a / 4)
    ∷ sextet_char (a % 4 * 16 + b / 16)
    ∷ sextet_char (b % 16 * 4 + c / 64)
    ∷ sextet_char (c % 64)
    ∷ unpadded bin

pub pads : List ℕ → Text
pads [] = []
pads (a ∷ []) = b'=' ∷ b'=' ∷ []
pads (a ∷ b ∷ []) = b'=' ∷ []
pads (a ∷ b ∷ c ∷ bin) = pads bin

pub btoa-unpadded : (bin : List ℕ) → btoa bin ≡ unpadded bin ++ pads bin
unfolding btoa unpadded pads
btoa-unpadded [] = refl
btoa-unpadded (a ∷ []) = refl
btoa-unpadded (a ∷ b ∷ []) = refl
btoa-unpadded (a ∷ b ∷ c ∷ bin) = rw (btoa-unpadded bin)

pub unpadded-IsSextetChar : (bin : List ℕ) → All IsByte bin → All IsSextetChar (unpadded bin)
unfolding unpadded
unpadded-IsSextetChar [] h = tt
unpadded-IsSextetChar (a ∷ []) h =
    (sextet_char-IsSextetChar _ (omega arith), (sextet_char-IsSextetChar _ (omega arith), tt))
unpadded-IsSextetChar (a ∷ b ∷ []) h = (
  sextet_char-IsSextetChar _ (omega arith),
  (sextet_char-IsSextetChar _ (omega arith), (sextet_char-IsSextetChar _ (omega arith), tt)),
)
unpadded-IsSextetChar (a ∷ b ∷ c ∷ bin) h = (
  sextet_char-IsSextetChar _ (omega arith),
  (
    sextet_char-IsSextetChar _ (omega arith),
    (
      sextet_char-IsSextetChar _ (omega arith),
      (sextet_char-IsSextetChar _ (omega arith), unpadded-IsSextetChar bin h.1.1.1),
    ),
  ),
)

decoded : {a b : ℕ} {s t : List ℕ} → a ≡ b → s ≡ t → ◌≡◌ {A = List ℕ} (a ∷ s) (b ∷ t)
decoded p q = cc

pub decode_sextets-unpadded :
    (bin : List ℕ) → All IsByte bin → decode_sextets (unpadded bin) ≡ some bin
unfolding decode_sextets unpadded
decode_sextets-unpadded [] h = refl
decode_sextets-unpadded (a ∷ []) h =
    rw
      (
        char_sextet-sextet_char (a / 4) (omega arith),
        char_sextet-sextet_char (a % 4 * 16) (omega arith),
      )
      (ap some (decoded (omega arith) refl))
decode_sextets-unpadded (a ∷ b ∷ []) h =
    rw
      (
        char_sextet-sextet_char (a / 4) (omega arith),
        char_sextet-sextet_char (a % 4 * 16 + b / 16) (omega arith),
        char_sextet-sextet_char (b % 16 * 4) (omega arith),
      )
      (ap some (decoded (omega arith) (decoded (omega arith) refl)))
decode_sextets-unpadded (a ∷ b ∷ c ∷ bin) h =
    rw
      (
        char_sextet-sextet_char (a / 4) (omega arith),
        char_sextet-sextet_char (a % 4 * 16 + b / 16) (omega arith),
        char_sextet-sextet_char (b % 16 * 4 + c / 64) (omega arith),
        char_sextet-sextet_char (c % 64) (omega arith),
        decode_sextets-unpadded bin h.1.1.1,
      )
      (ap some (decoded (omega arith) (decoded (omega arith) (decoded (omega arith) refl))))

-- The padding holds no, one or two `=`.
pub pads-cases :
    (bin : List ℕ) → (pads bin ≡ []) ⊎ (pads bin ≡ b'=' ∷ []) ⊎ (pads bin ≡ b'=' ∷ b'=' ∷ [])
unfolding pads
pads-cases [] = inl refl
pads-cases (a ∷ []) = inr (inr refl)
pads-cases (a ∷ b ∷ []) = inr (inl refl)
pads-cases (a ∷ b ∷ c ∷ bin) = pads-cases bin

-- The padding that `b64urlToBuffer` adds is the one that `btoa` writes.
pub repeat-pads : (bin : List ℕ) → repeat_char b'=' ((4 - length (unpadded bin) % 4) % 4) ≡ pads bin
unfolding unpadded pads
repeat-pads [] = refl
repeat-pads (a ∷ []) = refl
repeat-pads (a ∷ b ∷ []) = refl
repeat-pads (a ∷ b ∷ c ∷ bin) =
    let n : ℕ = length (unpadded bin) in
    let e : (4 - suc (suc (suc (suc n))) % 4) % 4 ≡ (4 - n % 4) % 4 = omega arith in
    rw e (repeat-pads bin)
