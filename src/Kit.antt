-- ===== src/Kit.antt =====
-- The emergency kit that app/register/page.tsx and app/settings/page.tsx offer for download, and the copy of
-- the Secret Key beside it.
pub mod Lines
pub mod Copying
use personal_password_manage.Prelude.{
  ℕ, Bool, true, false, Option, none, some, List, [], ◌∷◌, ◌++◌, Text, codes, is_empty,
  if◌then◌else◌,
}

-- `lines.join('\n')`
unfoldable pub join_lines : List Text → Text
join_lines [] = []
join_lines (l ∷ []) = l
join_lines (l ∷ k ∷ ls) = l ++ b'\n' ∷ join_lines (k ∷ ls)

abbrev pub account_line : Text → Text
account_line email = codes "Account:  " ++ email

abbrev pub secret_line : Text → Text
secret_line secret_key = codes "Secret Key:  " ++ secret_key

-- The lines around those of the account.
abbrev pub kit_lines : List Text → Text → List Text
kit_lines account secret_key =
    codes "SecureVault — Emergency Kit" ∷ codes "===========================" ∷ [] ∷ account
    ++ secret_line secret_key
      ∷ []
      ∷ codes "Keep this somewhere safe and private. Anyone who has your email and"
      ∷ codes "Secret Key can unlock your vault if your master password is lost."
      ∷ codes "SecureVault can never show this key again."
      ∷ []

-- The text of the file of the registration page; none where no Secret Key is shown.
unfoldable pub registration_kit : Text → Option Text → Option Text
registration_kit email none = none
registration_kit email (some secret_key) =
    if is_empty secret_key
    then none
    else some (join_lines (kit_lines (account_line email ∷ []) secret_key))

-- That of the settings page, which leaves the account out where no user is known.
abbrev pub known_account : Option Text → List Text
known_account none = []
known_account (some me) = if is_empty me then [] else account_line me ∷ []

unfoldable pub settings_kit : Option Text → Option Text → Option Text
settings_kit me none = none
settings_kit me (some secret_key) =
    if is_empty secret_key
    then none
    else some (join_lines (kit_lines (known_account me) secret_key))
