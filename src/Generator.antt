-- ===== src/Generator.antt =====
-- components/PasswordGenerator.tsx: the state of the form, and what each of its controls does. The random
-- words of a generation are an argument.
pub mod Shown
use personal_password_manage.Prelude.{
  ℕ, Bool, true, false, Option, none, some, List, [], ◌∷◌, if◌then◌else◌, is_empty, Text, codes,
}
use personal_password_manage.Password.{
  Classes, every_class, Strength, generate_password, get_password_strength,
}
use personal_password_manage.Clipboard.{Clip, handle_copy, wait}

pub record Form : Type 0 where
  pub length : ℕ
  pub classes : Classes
  pub password : Text
  pub clip : Clip

abbrev pub initial_length : ℕ
initial_length = 24

-- The form before its effect has run.
unfoldable pub opened : Clip → Form
opened clip = record { length = initial_length; classes = every_class; password = []; clip = clip }

-- The effect of the first rendering in the browser.
unfoldable pub first_password : (ℕ → ℕ) → Form → Form
first_password random f = record f {
  password = generate_password initial_length every_class random;
}

unfoldable pub regenerate : (ℕ → ℕ) → Form → Form
regenerate random f = record f {
  password = generate_password f.length f.classes random;
  clip = record f.clip { copied = none };
}

-- The slider.
unfoldable pub set_length : ℕ → (ℕ → ℕ) → Form → Form
set_length length random f = record f {
  length = length;
  password = generate_password length f.classes random;
}

pub data Class : Type 0 where
  uppercase lowercase numbers symbols : Class

abbrev pub with_class : Class → Bool → Classes → Classes
with_class uppercase checked o = record o { uppercase = checked }
with_class lowercase checked o = record o { lowercase = checked }
with_class numbers checked o = record o { numbers = checked }
with_class symbols checked o = record o { symbols = checked }

-- A checkbox.
unfoldable pub set_class : Class → Bool → (ℕ → ℕ) → Form → Form
set_class class checked random f = record f {
  classes = with_class class checked f.classes;
  password = generate_password f.length (with_class class checked f.classes) random;
}

-- The button is disabled where there is no password.
unfoldable pub copy_password : Form → Form
copy_password f =
    if is_empty f.password
    then f
    else record f { clip = handle_copy f.password (codes "password") f.clip }

unfoldable pub shown_strength : Form → Option Strength
shown_strength f = if is_empty f.password then none else some (get_password_strength f.password)
