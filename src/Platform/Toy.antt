-- ===== src/Platform/Toy.antt =====
-- A platform that has the laws: a cipher that writes the key and the additional data in front.
use personal_password_manage.Prelude.{
  ℕ, zero, suc, ◌≡◌, ◌≢◌, refl, ap₂, false, Option, none, some, List, [], ◌∷◌, arith, ◌==◌,
  if◌then◌else◌, IsByte, All, is_empty, Bool-cases, inl, inr,
}
use personal_password_manage.Json.{Value}
use personal_password_manage.Platform.Interface.{Platform, IsAuthenticated}

infixl 5 ◌>>=◌
abbrev ◌>>=◌ : Option (List ℕ) → (List ℕ → Option (List ℕ)) → Option (List ℕ)
none >>= k = none
some a >>= k = k a

-- A number in unary, and a list of numbers, as self-delimiting lists of bytes.
unfoldable pub unary : ℕ → List ℕ → List ℕ
unary zero r = 0 ∷ r
unary (suc n) r = 1 ∷ unary n r

unfoldable pub frame : List ℕ → List ℕ → List ℕ
frame [] r = 0 ∷ r
frame (n ∷ s) r = 1 ∷ unary n (frame s r)

-- Reads one number, or one list, and compares it.
read_number : ℕ → List ℕ → Option (List ℕ)
read_number n [] = none
read_number zero (b ∷ bs) = if b == 0 then some bs else none
read_number (suc n) (b ∷ bs) = let rest = read_number n bs in if b == 1 then rest else none

unframe : List ℕ → List ℕ → Option (List ℕ)
unframe s [] = none
unframe [] (b ∷ bs) = if b == 0 then some bs else none
unframe (n ∷ s) (b ∷ bs) = if b == 1 then read_number n bs >>= unframe s else none

read_number-unary :
    (m n : ℕ) (r : List ℕ) → read_number m (unary n r) ≡ (if m == n then some r else none)
unfolding read_number unary
read_number-unary zero zero r = refl
read_number-unary zero (suc n) r = ground arith
read_number-unary (suc m) zero r = ground arith
read_number-unary (suc m) (suc n) r = ground (arith, read_number-unary m n r)

unframe-frame : (s r : List ℕ) → unframe s (frame s r) ≡ some r
unfolding frame unframe
unframe-frame [] r = refl
unframe-frame (n ∷ s) r = ground (arith, read_number-unary n n (frame s r), unframe-frame s r)

unframe-frame_ne : (q s r : List ℕ) → q ≢ s → unframe q (frame s r) ≡ none
unfolding frame unframe
unframe-frame_ne [] [] r h = absurd (h refl)
unframe-frame_ne [] (n ∷ s) r h = refl
unframe-frame_ne (m ∷ q) [] r h = refl
unframe-frame_ne (m ∷ q) (n ∷ s) r h = elim (Bool-cases (m == n)) [
  | inl e ↦
      let same : m ≡ n = ground arith in
      let tails : q ≢ s = λ t. h (ap₂ ◌∷◌ same t) in
      rw (read_number-unary m n (frame s r), e) (unframe-frame_ne q s r tails)
  | inr e ↦ rw (read_number-unary m n (frame s r), e)
]

unary-IsByte : (n : ℕ) (r : List ℕ) → All IsByte r → All IsByte (unary n r)
unfolding unary
unary-IsByte zero r h = (omega arith, h)
unary-IsByte (suc n) r h = (omega arith, unary-IsByte n r h)

frame-IsByte : (s r : List ℕ) → All IsByte r → All IsByte (frame s r)
unfolding frame
frame-IsByte [] r h = (omega arith, h)
frame-IsByte (n ∷ s) r h = (omega arith, unary-IsByte n (frame s r) (frame-IsByte s r h))

unfoldable pub toy_encrypt : List ℕ → List ℕ → List ℕ → List ℕ → List ℕ
toy_encrypt k nonce aad plain = frame k (frame aad plain)

pub toy_decrypt : List ℕ → List ℕ → List ℕ → List ℕ → Option (List ℕ)
toy_decrypt k nonce aad cipher = unframe k cipher >>= unframe aad

-- Its JSON reads every text as one given value.
abbrev pub toy : Value → Platform
toy v = record {
  CryptoKey = List ℕ;
  derive_key = λ password salt iterations. password;
  import_key = λ raw. raw;
  export_key = λ k. some k;
  encrypt = toy_encrypt;
  decrypt = toy_decrypt;
  stringify = λ _. [];
  parse = λ _. some v;
}

toy-decrypt-encrypt :
    (k nonce aad plain : List ℕ)
    → toy_decrypt k nonce aad (toy_encrypt k nonce aad plain) ≡ some plain
unfolding toy_encrypt toy_decrypt
toy-decrypt-encrypt k nonce aad plain =
    rw (unframe-frame k (frame aad plain)) (unframe-frame aad plain)

toy-rejects_key :
    (k j nonce aad plain : List ℕ)
    → j ≢ k
    → toy_decrypt j nonce aad (toy_encrypt k nonce aad plain) ≡ none
unfolding toy_encrypt toy_decrypt
toy-rejects_key k j nonce aad plain h = rw (unframe-frame_ne j k (frame aad plain) h)

toy-rejects_aad :
    (k nonce aad other plain : List ℕ)
    → other ≢ aad
    → toy_decrypt k nonce other (toy_encrypt k nonce aad plain) ≡ none
unfolding toy_encrypt toy_decrypt
toy-rejects_aad k nonce aad other plain h =
    rw (unframe-frame k (frame aad plain)) (unframe-frame_ne other aad plain h)

toy-encrypt-IsByte :
    (k nonce aad plain : List ℕ) → All IsByte plain → All IsByte (toy_encrypt k nonce aad plain)
unfolding toy_encrypt
toy-encrypt-IsByte k nonce aad plain h = frame-IsByte k (frame aad plain) (frame-IsByte aad plain h)

toy-not_empty : (k nonce aad plain : List ℕ) → is_empty (toy_encrypt k nonce aad plain) ≡ false
unfolding toy_encrypt frame
toy-not_empty [] nonce aad plain = refl
toy-not_empty (b ∷ k) nonce aad plain = refl

pub toy-IsAuthenticated : (v : Value) → IsAuthenticated (toy v)
toy-IsAuthenticated v = record {
  decrypt-encrypt = λ k nonce aad plain h. toy-decrypt-encrypt k nonce aad plain;
  encrypt-IsByte = toy-encrypt-IsByte;
  encrypt_not_empty = toy-not_empty;
  rejects_key = toy-rejects_key;
  rejects_aad = toy-rejects_aad;
  export-import = λ raw. refl;
}
