-- ===== src/Percent/Reading.antt =====
-- An escaped text is read back, and stays in its part of a URL.
use personal_password_manage.Prelude.{
  ℕ, ◌+◌, ◌-◌, ◌*◌, ◌/◌, ◌%◌, ◌≡◌, ◌≢◌, ◌<◌, refl, inl, inr, Bool, true, ◌&&◌, ◌||◌, List, [], ◌∷◌,
  arith, ltb, leb, ◌==◌, if◌then◌else◌, Bool-cases, Text, is_digit, IsByte, IsCodePoint, All,
}
use personal_password_manage.Utf8.{encode, decode}
use personal_password_manage.Utf8.RoundTrip.{decode-encode, encode-IsByte}
use personal_password_manage.Percent.{
  is_unreserved, upper_hex, percent, encode_uri_component, form_keeps, form_bytes, form_encode,
}

abbrev is_hex : ℕ → Bool
is_hex c = is_digit c || (leb 65 c && leb c 70)

abbrev hex_value : ℕ → ℕ
hex_value c = if ltb c 58 then c - 48 else c - 55

-- Percent-decoding, after a map of the other characters.
unfoldable pub unescape : (ℕ → ℕ) → Text → List ℕ
unescape f [] = []
unescape f (c ∷ []) = f c ∷ []
unescape f (c ∷ d ∷ []) = f c ∷ f d ∷ []
unescape f (c ∷ d ∷ e ∷ s) =
    let rest = unescape f s in
    let plain = unescape f (d ∷ e ∷ s) in
    if c == b'%' && is_hex d && is_hex e
    then (hex_value d * 16 + hex_value e) ∷ rest
    else f c ∷ plain

unescape-plain : (f : ℕ → ℕ) (c : ℕ) (s : Text) → c ≢ b'%' → unescape f (c ∷ s) ≡ f c ∷ unescape f s
unfolding unescape
unescape-plain f c [] h = refl
unescape-plain f c (d ∷ []) h = refl
unescape-plain f c (d ∷ e ∷ s) h = ground arith

hex_digits :
    (b : ℕ)
    → IsByte b
    → ((is_hex (upper_hex (b / 16)) && is_hex (upper_hex (b % 16))) ≡ true)
      × (hex_value (upper_hex (b / 16)) * 16 + hex_value (upper_hex (b % 16)) ≡ b)
hex_digits b h = (ground arith, ground arith)

unescape-escape :
    (f : ℕ → ℕ) (b : ℕ) (s : Text)
    → IsByte b
    → unescape f (b'%' ∷ upper_hex (b / 16) ∷ upper_hex (b % 16) ∷ s) ≡ b ∷ unescape f s
unfolding unescape
unescape-escape f b s h = let (hex, value) = hex_digits b h in rw (hex, value)

unescape-percent : (bs : List ℕ) → All IsByte bs → unescape (λ c. c) (percent bs) ≡ bs
unfolding percent unescape
unescape-percent [] h = refl
unescape-percent (b ∷ bs) h = elim (Bool-cases (is_unreserved b)) [
  | inl kept ↦
      rw (kept, unescape-plain (λ c. c) b (percent bs) (ground arith), unescape-percent bs h.1)
  | inr e ↦ rw (e, unescape-escape (λ c. c) b (percent bs) h.0, unescape-percent bs h.1)
]

-- A plus sign stands for a space.
abbrev plus_space : ℕ → ℕ
plus_space c = if c == b'+' then 32 else c

unescape-form_bytes : (bs : List ℕ) → All IsByte bs → unescape plus_space (form_bytes bs) ≡ bs
unfolding form_bytes unescape
unescape-form_bytes [] h = refl
unescape-form_bytes (b ∷ bs) h = elim (Bool-cases (form_keeps b)) [
  | inl kept ↦
      let same : plus_space b ≡ b = ground arith in
      rw (
        kept,
        unescape-plain plus_space b (form_bytes bs) (ground arith),
        unescape-form_bytes bs h.1,
        same,
      )
  | inr e ↦ elim (Bool-cases (b == 32)) [
    | inl space ↦
        let same : 32 ≡ b = ground arith in
        rw
          (
            e,
            space,
            unescape-plain plus_space b'+' (form_bytes bs) (omega arith),
            unescape-form_bytes bs h.1,
          )
          (ground arith)
    | inr other ↦
        rw (e, other, unescape-escape plus_space b (form_bytes bs) h.0, unescape-form_bytes bs h.1)
  ]
]

-- Neither a slash, a question mark, a hash, an ampersand, an equals sign nor a space.
abbrev pub IsInside : ℕ → Type 0
IsInside c = (c ≢ b'/') × (c ≢ b'?') × (c ≢ b'#') × (c ≢ b'&') × (c ≢ b'=') × (c ≢ 32)

upper_hex-IsInside : (n : ℕ) → n < 16 → IsInside (upper_hex n)
upper_hex-IsInside n h = ground arith

percent-IsInside : (bs : List ℕ) → All IsByte bs → All IsInside (percent bs)
unfolding percent
percent-IsInside [] h = tt
percent-IsInside (b ∷ bs) h = elim (Bool-cases (is_unreserved b)) [
  | inl kept ↦ rw kept (ground arith, percent-IsInside bs h.1)
  | inr e ↦ rw e (
    omega arith,
    (
      upper_hex-IsInside (b / 16) (omega (arith, h.0)),
      (upper_hex-IsInside (b % 16) (omega arith), percent-IsInside bs h.1),
    ),
  )
]

form_bytes-IsInside : (bs : List ℕ) → All IsByte bs → All IsInside (form_bytes bs)
unfolding form_bytes
form_bytes-IsInside [] h = tt
form_bytes-IsInside (b ∷ bs) h = elim (Bool-cases (form_keeps b)) [
  | inl kept ↦ rw kept (ground arith, form_bytes-IsInside bs h.1)
  | inr e ↦ elim (Bool-cases (b == 32)) [
    | inl space ↦ rw (e, space) (omega arith, form_bytes-IsInside bs h.1)
    | inr other ↦
        rw (e, other)
          (
            omega arith,
            (
              upper_hex-IsInside (b / 16) (omega (arith, h.0)),
              (upper_hex-IsInside (b % 16) (omega arith), form_bytes-IsInside bs h.1),
            ),
          )
  ]
]

-- A text that is escaped for a path or for a query is read back after percent-decoding, and holds no
-- character that ends its part of the URL.
pub encode_uri_component-read :
    (s : Text)
    → All IsCodePoint s
    → (decode (unescape (λ c. c) (encode_uri_component s)) ≡ s)
      × All IsInside (encode_uri_component s)
      × (decode (unescape plus_space (form_encode s)) ≡ s)
      × All IsInside (form_encode s)
unfolding encode_uri_component form_encode
encode_uri_component-read s h =
    let bytes = encode-IsByte s h in
    (
      rw (unescape-percent (encode s) bytes) (decode-encode s h),
      percent-IsInside (encode s) bytes,
      rw (unescape-form_bytes (encode s) bytes) (decode-encode s h),
      form_bytes-IsInside (encode s) bytes,
    )
