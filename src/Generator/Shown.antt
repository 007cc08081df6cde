-- ===== src/Generator/Shown.antt =====
-- The password that the form shows belongs to the options that it shows.
use personal_password_manage.Prelude.{ℕ, ◌≡◌, ◌≤◌, refl, Bool, true, All, arith, length}
use personal_password_manage.Password.{generate_password}
use personal_password_manage.Password.Generated.{allowed, generate_password-allowed}
use personal_password_manage.Clipboard.{Clip, wait}
use personal_password_manage.Generator.{
  Form, Class, opened, first_password, regenerate, set_length, set_class, copy_password,
}

-- The events of the form, in any order. The slider goes from 8 to 64; the effect runs before the first event.
pub data Reach : Form → Type 0 where
  rendered : (clip : Clip) (random : ℕ → ℕ) → Reach (first_password random (opened clip))
  regenerated : {f : Form} (random : ℕ → ℕ) → Reach f → Reach (regenerate random f)
  sized :
      {f : Form} (n : ℕ) (random : ℕ → ℕ) → 8 ≤ n → n ≤ 64 → Reach f → Reach (set_length n random f)
  checked :
      {f : Form} (class : Class) (value : Bool) (random : ℕ → ℕ)
      → Reach f
      → Reach (set_class class value random f)
  copied : {f : Form} → Reach f → Reach (copy_password f)
  waited : {f : Form} (n : ℕ) → Reach f → Reach (record f { clip = wait n f.clip })

-- The password was generated for the length and the classes of the form.
abbrev IsCurrent : Form → Type 0
IsCurrent f = (random : ℕ → ℕ) × (f.password ≡ generate_password f.length f.classes random)

copy_password-same :
    (f : Form)
    → ((copy_password f).password ≡ f.password)
      × ((copy_password f).length ≡ f.length)
      × ((copy_password f).classes ≡ f.classes)
unfolding copy_password
copy_password-same f = (ground arith, ground arith, ground arith)

current : {f : Form} → Reach f → (8 ≤ f.length) × (f.length ≤ 64) × IsCurrent f
unfolding first_password opened regenerate set_length set_class
current (rendered clip random) = (omega arith, omega arith, (random, refl))
current (regenerated random r) = let (a, b, _) = current r in (a, b, (random, refl))
current (sized n random a b r) = (a, b, (random, refl))
current (checked class value random r) = let (a, b, _) = current r in (a, b, (random, refl))
current (copied {f = f} r) = let (p, l, c) = copy_password-same f in rw (p, l, c) (current r)
current (waited n r) = current r

-- However the slider, the checkboxes and the buttons are used: the password that is shown has the length that
-- is shown, between 8 and 64, and each of its characters is of a class that is checked (of the small letters
-- where none is).
pub Reach-current :
    {f : Form}
    → Reach f
    → (8 ≤ f.length)
      × (f.length ≤ 64)
      × (length f.password ≡ f.length)
      × All (λ c. allowed f.classes c ≡ true) f.password
Reach-current {f} r =
    let (a, b, (random, e)) = current r in
    let (l, k) = generate_password-allowed f.length f.classes random in (a, b, rw e l, rw e k)
