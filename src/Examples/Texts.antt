-- ===== src/Examples/Texts.antt =====
-- Encodings, secrets and passwords.
use personal_password_manage.Prelude.{
  ◌≡◌, refl, [], ◌∷◌, arith, Text, codes, ascii_only, to_upper_case,
}
use personal_password_manage.Recovery.{checked, cleaned, ok, normalize_recovery_secret}
use personal_password_manage.Recovery.Normal.{normalize_recovery_secret-IsKey}
use personal_password_manage.Recovery.Typed.{
  Typed, separator, letter, done, normalize_recovery_secret-Typed,
}

abbrev key : Text
key = codes "0123456789ABCDEF0123456789ABCDEF"

Typed-as_is : (s : Text) → Typed s s
Typed-as_is [] = done
Typed-as_is (c ∷ s) = letter c c (ground arith) (Typed-as_is s)

normalize_recovery_secret-Typed_example : normalize_recovery_secret ascii_only (b'-' ∷ key) ≡ ok key
unfolding normalize_recovery_secret checked cleaned to_upper_case
normalize_recovery_secret-Typed_example =
    normalize_recovery_secret-Typed ascii_only
      (normalize_recovery_secret-IsKey ascii_only key key refl).0 refl
      (separator b'-' refl (Typed-as_is key))
