-- ===== src/Kit/Copying.antt =====
-- The copy of a Secret Key, `copySecret` of app/register/page.tsx and app/settings/page.tsx. A timer is the
-- number of milliseconds that are left to it.
use personal_password_manage.Prelude.{
  ℕ, zero, suc, ◌-◌, ◌≡◌, ◌<◌, refl, inl, inr, Bool, true, false, not, Option, none, some, List,
  ◌∷◌, map, arith, leb, any, filter, is_empty, if◌then◌else◌, Text, Bool-cases,
}

-- `copied` marks the button.
pub record Copying : Type 0 where
  pub clipboard : Text
  pub copied : Bool
  pub timers : List ℕ

abbrev pub marked_for : ℕ
marked_for = 2000

unfoldable pub copy_secret : Option Text → Copying → Copying
copy_secret none c = c
copy_secret (some secret_key) c =
    if is_empty secret_key
    then c
    else record { clipboard = secret_key; copied = true; timers = marked_for ∷ c.timers }

-- The timers that are due clear the mark.
unfoldable pub copying_millisecond : Copying → Copying
copying_millisecond c = record c {
  copied = if any (λ left. leb left 1) c.timers then false else c.copied;
  timers = map (λ left. left - 1) (filter (λ left. not (leb left 1)) c.timers);
}

unfoldable pub let_pass : ℕ → Copying → Copying
let_pass zero c = c
let_pass (suc n) c = let_pass n (copying_millisecond c)

let_pass-clipboard : (n : ℕ) (c : Copying) → (let_pass n c).clipboard ≡ c.clipboard
unfolding let_pass copying_millisecond
let_pass-clipboard zero c = refl
let_pass-clipboard (suc n) c = let_pass-clipboard n (copying_millisecond c)

let_pass-unmarked : (n : ℕ) (c : Copying) → c.copied ≡ false → (let_pass n c).copied ≡ false
unfolding let_pass copying_millisecond
let_pass-unmarked zero c h = h
let_pass-unmarked (suc n) c h = let_pass-unmarked n (copying_millisecond c) (ground (arith, h))

-- With a timer of `left` milliseconds the mark is gone when they are over.
let_pass-due :
    (n left : ℕ) (c : Copying) (ts : List ℕ)
    → c.timers ≡ left ∷ ts
    → leb left n ≡ true
    → 0 < left
    → (let_pass n c).copied ≡ false
unfolding let_pass copying_millisecond
let_pass-due zero left c ts e h pos = absurd (ground (arith, h, pos))
let_pass-due (suc n) left c ts e h pos = elim (Bool-cases (leb left 1)) [
  | inl due ↦ let_pass-unmarked n (copying_millisecond c) (rw (e, due) refl)
  | inr early ↦
      let_pass-due n (left - 1) (copying_millisecond c)
        (map (λ (t : ℕ). t - 1) (filter (λ (t : ℕ). not (leb t 1)) ts)) (rw (e, early) refl)
        (ground (arith, h, early)) (ground (arith, early))
]

-- A copied Secret Key stays in the clipboard however long one waits; only the mark of the button is gone
-- after two seconds.
pub copy_secret-stays :
    (secret_key : Text) (c : Copying) (n : ℕ)
    → is_empty secret_key ≡ false
    → leb marked_for n ≡ true
    → ((let_pass n (copy_secret (some secret_key) c)).clipboard ≡ secret_key)
      × ((let_pass n (copy_secret (some secret_key) c)).copied ≡ false)
unfolding copy_secret
copy_secret-stays secret_key c n h k =
    rw h (let_pass-clipboard n _, let_pass-due n marked_for _ c.timers refl k (omega arith))
