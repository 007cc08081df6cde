-- ===== src/Utf8/RoundTrip.antt =====
-- Decoding an encoded text gives it back, and an encoding is bytes.
use personal_password_manage.Prelude.{
  ℕ, suc, ltb→lt, ◌+◌, ◌/◌, ◌%◌, ◌≤◌, ◌<◌, ◌≡◌, refl, ap, ◌∙◌, inl, inr, List, [], ◌∷◌, ◌++◌, arith,
  ltb, Bool-cases, Text, IsByte, IsCodePoint, All, All-append,
}
use personal_password_manage.Utf8.{encode_char, encode, Step, step, feed, decode_from, decode}

decode_from-step :
    (need bits b : ℕ) (bs : List ℕ) (s : Step)
    → feed need bits b ≡ s
    → decode_from need bits (b ∷ bs) ≡ s.out ++ decode_from s.need s.bits bs
unfolding decode_from
decode_from-step need bits b bs s e = rw e

tail_more :
    (need x q : ℕ) → q ≡ x / 64 → feed (suc (suc need)) q (0x80 + x % 64) ≡ step [] (suc need) x
unfolding feed
tail_more need x q e = ground arith

tail_last : (x q : ℕ) → q ≡ x / 64 → feed 1 q (0x80 + x % 64) ≡ step (x ∷ []) 0 0
unfolding feed
tail_last x q e = ground arith

tail_of :
    (c : ℕ) (bs : List ℕ) (q : ℕ)
    → q ≡ c / 64
    → decode_from 1 q ((0x80 + c % 64) ∷ bs) ≡ c ∷ decode_from 0 0 bs
tail_of c bs q e = decode_from-step 1 q (0x80 + c % 64) bs (step (c ∷ []) 0 0) (tail_last c q e)

tails_of :
    (c : ℕ) (bs : List ℕ) (q : ℕ)
    → q ≡ c / 64 / 64
    → decode_from 2 q ((0x80 + c / 64 % 64) ∷ (0x80 + c % 64) ∷ bs) ≡ c ∷ decode_from 0 0 bs
tails_of c bs q e =
    decode_from-step 2 q (0x80 + c / 64 % 64) ((0x80 + c % 64) ∷ bs) (step [] 1 (c / 64))
      (tail_more 0 (c / 64) q e)
    ∙ tail_of c bs (c / 64) refl

lead_two : (c : ℕ) → 0x80 ≤ c → c < 0x800 → feed 0 0 (0xc0 + c / 64) ≡ step [] 1 (c / 64)
unfolding feed
lead_two c h k = ground arith

lead_three : (c : ℕ) → 0x800 ≤ c → c < 0x10000 → feed 0 0 (0xe0 + c / 4096) ≡ step [] 2 (c / 4096)
unfolding feed
lead_three c h k = ground arith

lead_four :
    (c : ℕ) → 0x10000 ≤ c → c < 0x110000 → feed 0 0 (0xf0 + c / 262144) ≡ step [] 3 (c / 262144)
unfolding feed
lead_four c h k = ground arith

lead_one : (c : ℕ) → c < 0x80 → feed 0 0 c ≡ step (c ∷ []) 0 0
unfolding feed
lead_one c h = ground arith

decode_from-encode_char :
    (c : ℕ) (bs : List ℕ)
    → IsCodePoint c
    → decode_from 0 0 (encode_char c ++ bs) ≡ c ∷ decode_from 0 0 bs
unfolding encode_char
decode_from-encode_char c bs h = elim (Bool-cases (ltb c 0x80)) [
  | inl one ↦ rw one (decode_from-step 0 0 c bs (step (c ∷ []) 0 0) (lead_one c (ltb→lt _ _ one)))
  | inr e₁ ↦ elim (Bool-cases (ltb c 0x800)) [
    | inl two ↦
        rw (e₁, two)
          (decode_from-step 0 0 (0xc0 + c / 64) ((0x80 + c % 64) ∷ bs) (step [] 1 (c / 64))
              (lead_two c (ground arith) (ltb→lt _ _ two))
            ∙ tail_of c bs (c / 64) refl)
    | inr e₂ ↦ elim (Bool-cases (ltb c 0x10000)) [
      | inl three ↦
          rw (e₁, e₂, three)
            (decode_from-step 0 0 (0xe0 + c / 4096) ((0x80 + c / 64 % 64) ∷ (0x80 + c % 64) ∷ bs)
                (step [] 2 (c / 4096)) (lead_three c (ground arith) (ltb→lt _ _ three))
              ∙ tails_of c bs (c / 4096) (omega arith))
      | inr e₃ ↦
          let t₁ = (0x80 + c / 64 % 64) ∷ (0x80 + c % 64) ∷ bs in
          rw (e₁, e₂, e₃)
            (decode_from-step 0 0 (0xf0 + c / 262144) ((0x80 + c / 4096 % 64) ∷ t₁)
                (step [] 3 (c / 262144)) (lead_four c (ground arith) h)
              ∙ (decode_from-step 3 (c / 262144) (0x80 + c / 4096 % 64) t₁ (step [] 2 (c / 4096))
                    (tail_more 1 (c / 4096) (c / 262144) (omega arith))
                  ∙ tails_of c bs (c / 4096) (omega arith)))
    ]
  ]
]

-- Decoding an encoded text gives the text back.
pub decode-encode : (s : Text) → All IsCodePoint s → decode (encode s) ≡ s
unfolding decode encode decode_from
decode-encode [] h = refl
decode-encode (c ∷ s) h =
    decode_from-encode_char c (encode s) h.0 ∙ ap (λ (t : Text). c ∷ t) (decode-encode s h.1)

encode_char-IsByte : (c : ℕ) → IsCodePoint c → All IsByte (encode_char c)
unfolding encode_char
encode_char-IsByte c h = ground arith

pub encode-IsByte : (s : Text) → All IsCodePoint s → All IsByte (encode s)
unfolding encode
encode-IsByte [] h = tt
encode-IsByte (c ∷ s) h =
    All-append IsByte (encode_char c) (encode s) (encode_char-IsByte c h.0) (encode-IsByte s h.1)
