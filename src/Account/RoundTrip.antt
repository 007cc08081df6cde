-- ===== src/Account/RoundTrip.antt =====
-- What the forms do to the vault.
use personal_password_manage.Prelude.{◌≡◌, refl, Option, none, some, List, [], ◌∷◌, Text, or_else}
use personal_password_manage.Vault.{VaultItem, spread}
use personal_password_manage.Account.{or_undefined, url_list, first_url, prefill, edit_updates}

-- An empty optional text is not kept.
abbrev pub tidy : Option Text → Option Text
tidy none = none
tidy (some []) = none
tidy (some (c ∷ s)) = some (c ∷ s)

abbrev pub first_only : List Text → List Text
first_only [] = []
first_only (s ∷ _) = url_list s

or_undefined-or_else : (o : Option Text) → or_undefined (or_else o []) ≡ tidy o
or_undefined-or_else none = refl
or_undefined-or_else (some []) = refl
or_undefined-or_else (some (c ∷ s)) = refl

first_only_lem : (urls : List Text) → url_list (first_url urls) ≡ first_only urls
first_only_lem [] = refl
first_only_lem (s ∷ urls) = refl

-- Saving the edit form as it opened changes an item in three ways and no other: it has the new time stamp;
-- an empty user name, password, note or folder becomes an absent one; and of the addresses only the first is
-- kept, and none where the first is empty.
pub spread-prefill :
    (item : VaultItem) (now : Text)
    → spread item (edit_updates now (prefill item)) now ≡ record item {
      username = tidy item.username;
      password = tidy item.password;
      notes = tidy item.notes;
      folder = tidy item.folder;
      urls = first_only item.urls;
      updated_at = now;
    }
unfolding spread edit_updates prefill
spread-prefill item now = rw (
  or_undefined-or_else item.username,
  or_undefined-or_else item.password,
  or_undefined-or_else item.notes,
  or_undefined-or_else item.folder,
  first_only_lem item.urls,
)
