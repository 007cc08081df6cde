-- ===== src/Examples/Compact.antt =====
-- A platform with the laws whose wraps have the length that the server asks for: the two purposes and the
-- keys that are derived are short, so that what stands before the text has the length of the tag.
use personal_password_manage.Prelude.{
  ℕ, zero, suc, ◌≡◌, ◌≢◌, sym, ap, ◌∙◌, ltb, List, [], ◌∷◌, if◌then◌else◌, Bool-cases, inl, inr,
  text_eq, text_eq_iff, length,
}
use personal_password_manage.Utf8.{encode}
use personal_password_manage.Crypto.{aad_kek, aad_recovery}
use personal_password_manage.Json.{Value}
use personal_password_manage.Platform.{Platform, IsAuthenticated}
use personal_password_manage.Platform.Toy.{toy, toy-IsAuthenticated, toy_encrypt, toy_decrypt}

unfoldable pub short : List ℕ → List ℕ
short aad =
    if text_eq aad (encode aad_kek)
    then 0 ∷ 0 ∷ 0 ∷ 0 ∷ 0 ∷ 0 ∷ []
    else (if text_eq aad (encode aad_recovery) then 1 ∷ 0 ∷ 0 ∷ 0 ∷ 0 ∷ [] else 2 ∷ aad)

long : List ℕ → List ℕ
long [] = []
long (zero ∷ s) = encode aad_kek
long (suc zero ∷ s) = encode aad_recovery
long (suc (suc n) ∷ s) = s

long-short : (a : List ℕ) → long (short a) ≡ a
unfolding long short
long-short a = elim (Bool-cases (text_eq a (encode aad_kek))) [
  | inl e ↦ rw e (sym ((text_eq_iff a (encode aad_kek)).0 e))
  | inr e ↦ elim (Bool-cases (text_eq a (encode aad_recovery))) [
    | inl e' ↦ rw (e, e') (sym ((text_eq_iff a (encode aad_recovery)).0 e'))
    | inr e' ↦ rw (e, e')
  ]
]

short-apart : (a b : List ℕ) → a ≢ b → short a ≢ short b
short-apart a b h e = h (sym (long-short a) ∙ ap long e ∙ long-short b)

-- A password of fewer than twenty bytes gives one key, a longer one another.
abbrev pub compact : Value → Platform
compact v = record (toy v) {
  derive_key = λ password salt iterations. if ltb (length password) 20 then 0 ∷ [] else 1 ∷ [];
  encrypt = λ k nonce aad plain. toy_encrypt k nonce (short aad) plain;
  decrypt = λ k nonce aad cipher. toy_decrypt k nonce (short aad) cipher;
}

pub compact-IsAuthenticated : (v : Value) → IsAuthenticated (compact v)
compact-IsAuthenticated v =
    let h = toy-IsAuthenticated v in
    record {
      decrypt-encrypt = λ k nonce aad plain b. h.decrypt-encrypt k nonce (short aad) plain b;
      encrypt-IsByte = λ k nonce aad plain b. h.encrypt-IsByte k nonce (short aad) plain b;
      encrypt_not_empty = λ k nonce aad plain. h.encrypt_not_empty k nonce (short aad) plain;
      rejects_key = λ k j nonce aad plain ne. h.rejects_key k j nonce (short aad) plain ne;
      rejects_aad = λ k nonce aad other plain ne.
          h.rejects_aad k nonce (short aad) (short other) plain (short-apart other aad ne);
      export-import = h.export-import;
    }
