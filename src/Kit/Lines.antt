-- ===== src/Kit/Lines.antt =====
-- The printed kit still holds the Secret Key that opens the vault.
use personal_password_manage.Prelude.{
  ℕ, zero, suc, inl, inr, Bool-cases, ltb, ◌==◌, All-append, Unicode, ◌≡◌, ◌≢◌, refl, ap, Option,
  none, some, List, [], ◌∷◌, ◌++◌, arith, Text, codes, length, take, drop, All, find?, starts_with,
  Bool, true, false, is_empty, if◌then◌else◌,
}
use personal_password_manage.Breach.{split_on}
use personal_password_manage.Recovery.{
  SecretResult, recovery_group, secret_chars, group_chars, generate_recovery_secret,
  normalize_recovery_secret,
}
use personal_password_manage.Recovery.Typed.{secret_chars-IsKey, normalize_recovery_secret-generate}
use personal_password_manage.Recovery.Normal.{IsKeyChar}
use personal_password_manage.Kit.{join_lines, account_line, kit_lines, registration_kit}

-- A line without a line break.
abbrev pub IsLine : Text → Type 0
IsLine l = All (λ c. c ≢ b'\n') l

-- The lines of a text.
abbrev pub lines_of : Text → List Text
lines_of s = let (l, ls) = split_on b'\n' s in l ∷ ls

split_on-line : (l s : Text) → IsLine l → split_on b'\n' (l ++ b'\n' ∷ s) ≡ (l, lines_of s)
unfolding split_on
split_on-line [] s h = refl
split_on-line (c ∷ l) s h =
    let other : (c == b'\n') ≡ false = ground (arith, h.0) in rw (split_on-line l s h.1, other)

split_on-last : (l : Text) → IsLine l → split_on b'\n' l ≡ (l, [])
unfolding split_on
split_on-last [] h = refl
split_on-last (c ∷ l) h =
    let other : (c == b'\n') ≡ false = ground (arith, h.0) in rw (split_on-last l h.1, other)

lines_of-join_lines :
    (l : Text) (ls : List Text) → IsLine l → All IsLine ls → lines_of (join_lines (l ∷ ls)) ≡ l ∷ ls
unfolding join_lines
lines_of-join_lines l [] h k = rw (split_on-last l h)
lines_of-join_lines l (m ∷ ls) h k =
    rw (split_on-line l (join_lines (m ∷ ls)) h)
      (ap (λ (r : List Text). l ∷ r) (lines_of-join_lines m ls k.0 k.1))

module _ {κ} (P : ℕ → Type κ) where
  All-take : (n : ℕ) (s : Text) → All P s → All P (take n s)
  All-take zero s h = tt
  All-take (suc n) [] h = tt
  All-take (suc n) (c ∷ s) h = (h.0, All-take n s h.1)

  All-drop : (n : ℕ) (s : Text) → All P s → All P (drop n s)
  All-drop zero s h = h
  All-drop (suc n) [] h = tt
  All-drop (suc n) (c ∷ s) h = All-drop n s h.1

  All-group_chars : (fuel : ℕ) (s : Text) → P b'-' → All P s → All P (group_chars fuel s)
  unfolding group_chars
  All-group_chars zero s d h = h
  All-group_chars (suc fuel) s d h = elim (Bool-cases (ltb recovery_group (length s))) [
    | inl more ↦ rw more (
        All-append P (take recovery_group s) _ (All-take recovery_group s h)
          (d, All-group_chars fuel (drop recovery_group s) d (All-drop recovery_group s h)))
    | inr last ↦ rw last h
  ]

key-IsLine : (s : Text) → All IsKeyChar s → IsLine s
key-IsLine [] h = tt
key-IsLine (c ∷ s) h = (ground arith, key-IsLine s h.1)

secret-IsLine : (random : ℕ → ℕ) → IsLine (generate_recovery_secret random)
unfolding generate_recovery_secret
secret-IsLine random =
    let keys = (secret_chars-IsKey random).0 in
    All-group_chars (λ c. c ≢ b'\n') (length (secret_chars random)) (secret_chars random)
      (omega arith) (key-IsLine (secret_chars random) keys)

-- No line break.
abbrev pub is_line : Text → Bool
is_line [] = true
is_line (c ∷ l) = let rest = is_line l in if c == b'\n' then false else rest

pub is_line-IsLine : (l : Text) → is_line l ≡ true → IsLine l
is_line-IsLine [] h = tt
is_line-IsLine (c ∷ l) h = (ground (arith, h), is_line-IsLine l (ground (arith, h)))

-- The line of the Secret Key, without its name.
abbrev pub secret_in : List Text → Option Text
secret_in lines = elim (find? (starts_with (codes "Secret Key:  ")) lines) [
  | none ↦ none
  | some l ↦ some (drop 13 l)
]

unfoldable pub read_secret : Text → Option Text
read_secret kit = secret_in (lines_of kit)

secret_in-kit :
    (email secret_key : Text)
    → secret_in (kit_lines (account_line email ∷ []) secret_key) ≡ some secret_key
secret_in-kit email secret_key = refl

read_secret-lines :
    (email secret_key : Text)
    → IsLine email
    → IsLine secret_key
    → read_secret (join_lines (kit_lines (account_line email ∷ []) secret_key)) ≡ some secret_key
unfolding read_secret
read_secret-lines email secret_key h k =
    let kit = kit_lines (account_line email ∷ []) secret_key in
    let all : All IsLine kit = (
      is_line-IsLine (codes "SecureVault — Emergency Kit") refl,
      (
        is_line-IsLine (codes "===========================") refl,
        (
          tt,
          (
            All-append (λ c. c ≢ b'\n') (codes "Account:  ") email
                (is_line-IsLine (codes "Account:  ") refl) h,
            (
              All-append (λ c. c ≢ b'\n') (codes "Secret Key:  ") secret_key
                  (is_line-IsLine (codes "Secret Key:  ") refl) k,
              (
                tt,
                (
                  is_line-IsLine
                      (codes "Keep this somewhere safe and private. Anyone who has your email and")
                      refl,
                  (
                    is_line-IsLine
                        (codes "Secret Key can unlock your vault if your master password is lost.")
                        refl,
                    (is_line-IsLine (codes "SecureVault can never show this key again.") refl, tt),
                  ),
                ),
              ),
            ),
          ),
        ),
      ),
    ) in
    let split : lines_of (join_lines kit) ≡ kit = lines_of-join_lines _ _ all.0 all.1 in
    ap secret_in split

is_empty-append : (s : Text) (c : ℕ) (t : Text) → is_empty (s ++ c ∷ t) ≡ false
is_empty-append [] c t = refl
is_empty-append (d ∷ s) c t = refl

is_empty-group_chars :
    (fuel : ℕ) (s : Text) → is_empty s ≡ false → is_empty (group_chars fuel s) ≡ false
unfolding group_chars
is_empty-group_chars zero s h = h
is_empty-group_chars (suc fuel) s h = elim (Bool-cases (ltb recovery_group (length s))) [
  | inl more ↦ rw more (is_empty-append (take recovery_group s) b'-' _)
  | inr last ↦ rw last h
]

is_empty-length : (s : Text) (n : ℕ) → length s ≡ suc n → is_empty s ≡ false
is_empty-length [] n h = cc
is_empty-length (c ∷ s) n h = refl

generate-shown : (random : ℕ → ℕ) → is_empty (generate_recovery_secret random) ≡ false
unfolding generate_recovery_secret
generate-shown random =
    let long = (secret_chars-IsKey random).1 in
    is_empty-group_chars (length (secret_chars random)) (secret_chars random)
      (is_empty-length (secret_chars random) 31 long)

-- The file of the registration page holds the Secret Key in a line of its own: what stands in that line after
-- its name, typed where the vault is unlocked, gives the characters of the key, whatever the account.
pub registration_kit-read :
    (u : Unicode) (email : Text) (random : ℕ → ℕ)
    → IsLine email
    → (kit : Text) × (secret_key : Text) × (registration_kit email
          (some (generate_recovery_secret random))
        ≡ some kit)
      × (read_secret kit ≡ some secret_key)
      × (normalize_recovery_secret u secret_key ≡ SecretResult.ok (secret_chars random))
unfolding registration_kit
registration_kit-read u email random h =
    let secret_key = generate_recovery_secret random in
    let typed = normalize_recovery_secret-generate u random in
    (
      join_lines (kit_lines (account_line email ∷ []) secret_key),
      secret_key,
      rw (generate-shown random) refl,
      read_secret-lines email secret_key h (secret-IsLine random),
      typed.1,
    )
