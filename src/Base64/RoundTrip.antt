-- ===== src/Base64/RoundTrip.antt =====
-- Decoding an encoding gives the bytes back, in both alphabets.
use personal_password_manage.Prelude.{
  ℕ, ◌%◌, ◌≡◌, ◌≢◌, refl, sym, ap, ap₂, ◌∙◌, subst, inl, inr, true, false, not, some, List, [], ◌∷◌,
  ◌++◌, map, append-nil, arith, Text, IsByte, All, All-append, ◌==◌, length, filter_eq_self,
  if◌then◌else◌, is_empty, Bool-cases,
}
use personal_password_manage.Base64.{
  btoa, atob, drop_pad, is_blank, join_chunks, chunk_size, b64encode, b64decode, replace_char,
  strip_pads, b64url_to_buffer, buffer_to_b64url,
}
use personal_password_manage.Base64.Codec.{
  IsSextetChar, unpadded, pads, btoa-unpadded, unpadded-IsSextetChar, decode_sextets-unpadded,
  pads-cases, repeat-pads,
}
use personal_password_manage.Base64.Chunks.{join_chunks-eq}

abbrev NoPad : ℕ → Type 0
NoPad c = c ≢ b'='

drop_pad-append_pad : (s : Text) → drop_pad (s ++ b'=' ∷ []) ≡ s
unfolding drop_pad
drop_pad-append_pad [] = refl
drop_pad-append_pad (c ∷ []) = refl
drop_pad-append_pad (c ∷ d ∷ s) = ap (λ (t : Text). c ∷ t) (drop_pad-append_pad (d ∷ s))

drop_pad_eq_self : (s : Text) → All NoPad s → drop_pad s ≡ s
unfolding drop_pad
drop_pad_eq_self [] h = refl
drop_pad_eq_self (c ∷ []) h = ground arith
drop_pad_eq_self (c ∷ d ∷ s) h = ap (λ (t : Text). c ∷ t) (drop_pad_eq_self (d ∷ s) h.1)

two_pads : (s : Text) → s ++ b'=' ∷ b'=' ∷ [] ≡ (s ++ b'=' ∷ []) ++ b'=' ∷ []
two_pads [] = refl
two_pads (c ∷ s) = ap (λ (t : Text). c ∷ t) (two_pads s)

drop_pads : (s : Text) (bin : List ℕ) → All NoPad s → drop_pad (drop_pad (s ++ pads bin)) ≡ s
drop_pads s bin h = elim (pads-cases bin) [
  | inl e ↦ rw (e, append-nil, drop_pad_eq_self s h) (drop_pad_eq_self s h)
  | inr (inl e) ↦ rw (e, drop_pad-append_pad) (drop_pad_eq_self s h)
  | inr (inr e) ↦ rw (e, two_pads s, drop_pad-append_pad, drop_pad-append_pad)
]

length-btoa : (bin : List ℕ) → length (btoa bin) % 4 ≡ 0
unfolding btoa
length-btoa [] = refl
length-btoa (a ∷ []) = refl
length-btoa (a ∷ b ∷ []) = refl
length-btoa (a ∷ b ∷ c ∷ bin) = omega (arith, length-btoa bin)

All-map {ℓ κ} :
    {A : Type ℓ} (P Q : A → Type κ) → ((a : A) → P a → Q a) → (s : List A) → All P s → All Q s
All-map P Q f [] h = tt
All-map P Q f (c ∷ s) h = (f c h.0, All-map P Q f s h.1)

pads-not_blank : (bin : List ℕ) → All (λ c. not (is_blank c) ≡ true) (pads bin)
pads-not_blank bin = elim (pads-cases bin) [
  | inl e ↦ rw e tt
  | inr (inl e) ↦ rw e (refl, tt)
  | inr (inr e) ↦ rw e (refl, (refl, tt))
]

atob_padded : (bin : List ℕ) → All IsByte bin → atob (unpadded bin ++ pads bin) ≡ some bin
unfolding atob
atob_padded bin h =
    let chars = unpadded-IsSextetChar bin h in
    let no_pad = All-map IsSextetChar NoPad (λ c k. k.1) (unpadded bin) chars in
    let not_blank =
      All-map IsSextetChar (λ c. not (is_blank c) ≡ true) (λ c k. rw k.0) (unpadded bin) chars in
    let kept =
      filter_eq_self (λ c. not (is_blank c)) (unpadded bin ++ pads bin)
        (All-append (λ c. not (is_blank c) ≡ true) (unpadded bin) (pads bin) not_blank
          (pads-not_blank bin)) in
    let whole : length (unpadded bin ++ pads bin) % 4 ≡ 0 =
      subst (λ s. length s % 4 ≡ 0) (btoa-unpadded bin) (length-btoa bin) in
    rw (kept, whole, drop_pads (unpadded bin) bin no_pad) (decode_sextets-unpadded bin h)

low_bytes : (bin : List ℕ) → All IsByte bin → map (λ c. c % 256) bin ≡ bin
low_bytes [] h = refl
low_bytes (b ∷ bin) h = let e : b % 256 ≡ b = omega arith in rw (e, low_bytes bin h.1)

pub joined : (bytes : List ℕ) → join_chunks (length bytes) chunk_size bytes ≡ bytes
joined bytes = join_chunks-eq (length bytes) chunk_size bytes (omega arith) (omega arith)

-- `b64decode` gives back the bytes of which `b64encode` made its text, for any list of bytes.
pub b64decode-b64encode :
    (bytes : List ℕ) → All IsByte bytes → b64decode (b64encode bytes) ≡ some bytes
unfolding b64decode b64encode
b64decode-b64encode bytes h =
    rw (joined bytes, btoa-unpadded bytes, atob_padded bytes h) (ap some (low_bytes bytes h))

abbrev to_url : ℕ → ℕ
to_url c = let d = if c == b'+' then b'-' else c in if d == b'/' then b'_' else d

url_chars : (s : Text) → replace_char b'/' b'_' (replace_char b'+' b'-' s) ≡ map to_url s
unfolding replace_char
url_chars [] = refl
url_chars (c ∷ s) = ap (λ (t : Text). to_url c ∷ t) (url_chars s)

from_url :
    (s : Text)
    → All IsSextetChar s
    → replace_char b'_' b'/' (replace_char b'-' b'+' (map to_url s)) ≡ s
unfolding replace_char
from_url [] h = refl
from_url (c ∷ s) h = ap₂ ◌∷◌ (ground arith) (from_url s h.1)

to_url-NoPad : (s : Text) → All IsSextetChar s → All NoPad (map to_url s)
to_url-NoPad [] h = tt
to_url-NoPad (c ∷ s) h = (ground arith, to_url-NoPad s h.1)

map-append_pads : (s : Text) (bin : List ℕ) → map to_url (s ++ pads bin) ≡ map to_url s ++ pads bin
map-append_pads [] bin = elim (pads-cases bin) [
  | inl e ↦ rw e
  | inr (inl e) ↦ rw e
  | inr (inr e) ↦ rw e
]
map-append_pads (c ∷ s) bin = ap (λ (t : Text). to_url c ∷ t) (map-append_pads s bin)

strip_pads-pads : (bin : List ℕ) → strip_pads (pads bin) ≡ []
unfolding strip_pads
strip_pads-pads bin = elim (pads-cases bin) [
  | inl e ↦ rw e
  | inr (inl e) ↦ rw e
  | inr (inr e) ↦ rw e
]

strip_pads-last : (c : ℕ) (s : Text) → NoPad c → strip_pads s ≡ [] → strip_pads (c ∷ s) ≡ c ∷ []
unfolding strip_pads
strip_pads-last c s h e = rw (e, strip_pads) (ground arith)

strip_pads-inner : (c d : ℕ) (s t : Text) → strip_pads s ≡ d ∷ t → strip_pads (c ∷ s) ≡ c ∷ d ∷ t
unfolding strip_pads
strip_pads-inner c d s t e = rw (e, strip_pads)

strip_pads-append : (s : Text) (bin : List ℕ) → All NoPad s → strip_pads (s ++ pads bin) ≡ s
strip_pads-append [] bin h = strip_pads-pads bin
strip_pads-append (c ∷ []) bin h = strip_pads-last c (pads bin) h.0 (strip_pads-pads bin)
strip_pads-append (c ∷ d ∷ s) bin h =
    strip_pads-inner c d (d ∷ s ++ pads bin) s (strip_pads-append (d ∷ s) bin h.1)

-- `b64urlToBuffer` gives back the bytes of which `bufferToB64url` made its unpadded text.
pub b64url_to_buffer-buffer_to_b64url :
    (bytes : List ℕ) → All IsByte bytes → b64url_to_buffer (buffer_to_b64url bytes) ≡ some bytes
unfolding b64url_to_buffer buffer_to_b64url
b64url_to_buffer-buffer_to_b64url bytes h =
    let chars = unpadded-IsSextetChar bytes h in
    rw
      (
        joined bytes,
        btoa-unpadded bytes,
        url_chars (unpadded bytes ++ pads bytes),
        map-append_pads (unpadded bytes) bytes,
        strip_pads-append (map to_url (unpadded bytes)) bytes (to_url-NoPad (unpadded bytes) chars),
        from_url (unpadded bytes) chars,
        repeat-pads bytes,
        atob_padded bytes h,
      )
      (ap some (low_bytes bytes h))

text_empty : (s : Text) → is_empty s ≡ true → s ≡ []
text_empty [] h = refl
text_empty (c ∷ s) h = cc

-- Nothing but the empty list of bytes is written as the empty text.
pub b64encode_not_empty :
    (bytes : List ℕ)
    → All IsByte bytes
    → is_empty bytes ≡ false
    → is_empty (b64encode bytes) ≡ false
unfolding b64encode btoa join_chunks
b64encode_not_empty bytes h some_byte = elim (Bool-cases (is_empty (b64encode bytes))) [
  | inr e ↦ e
  | inl e ↦
      let blank = text_empty (b64encode bytes) e in
      let blank' = text_empty (b64encode []) refl in
      let same : some bytes ≡ some [] =
        sym (b64decode-b64encode bytes h)
        ∙ ap b64decode (blank ∙ sym blank')
        ∙ b64decode-b64encode [] tt in
      cc
]
