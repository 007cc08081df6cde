-- ===== src/Account.antt =====
-- The account form (components/AccountForm.tsx) and the pages that use it: a new account
-- (app/vault/new/page.tsx), an edit (app/vault/[id]/edit/page.tsx) and the details of an account
-- (app/vault/[id]/page.tsx). `none` is a page that renders nothing and sends to the unlock page.
pub mod RoundTrip
use personal_password_manage.Prelude.{
  ℕ, Bool, true, false, not, Option, none, some, List, [], ◌∷◌, if◌then◌else◌, Text, codes,
  is_empty, or_else, find?,
}
use personal_password_manage.Password.{every_class, generate_password}
use personal_password_manage.Vault.{
  VaultItem, ItemUpdates, no_updates, VaultState, has_id, add_item, update_item, remove_item,
}

pub record AccountValues : Type 0 where
  pub title : Text
  pub username : Text
  pub password : Text
  pub url : Text
  pub folder : Text
  pub notes : Text
  pub favorite : Bool

-- The form of a new account starts empty.
abbrev pub empty_values : AccountValues
empty_values = record {
  title = [];
  username = [];
  password = [];
  url = [];
  folder = [];
  notes = [];
  favorite = false;
}

-- `handleGenerate`
unfoldable pub handle_generate : (ℕ → ℕ) → AccountValues → AccountValues
handle_generate random values = record values { password = generate_password 24 every_class random }

-- `value || undefined`
abbrev pub or_undefined : Text → Option Text
or_undefined s = if is_empty s then none else some s

abbrev pub url_list : Text → List Text
url_list s = if is_empty s then [] else s ∷ []

-- `urls[0] ?? ''`
abbrev pub first_url : List Text → Text
first_url [] = []
first_url (s ∷ _) = s

unfoldable pub new_item : Text → Text → Text → AccountValues → VaultItem
new_item login uuid now values = record {
  id = uuid;
  kind = login;
  title = values.title;
  username = or_undefined values.username;
  password = or_undefined values.password;
  urls = url_list values.url;
  notes = or_undefined values.notes;
  favorite = values.favorite;
  folder = or_undefined values.folder;
  created_at = now;
  updated_at = now;
}

abbrev pub login_kind : Text
login_kind = codes "login"

-- The values with which the edit form opens.
unfoldable pub prefill : VaultItem → AccountValues
prefill item = record {
  title = item.title;
  username = or_else item.username [];
  password = or_else item.password [];
  url = first_url item.urls;
  folder = or_else item.folder [];
  notes = or_else item.notes [];
  favorite = item.favorite;
}

unfoldable pub edit_updates : Text → AccountValues → ItemUpdates
edit_updates now values = record no_updates {
  title = some values.title;
  username = some (or_undefined values.username);
  password = some (or_undefined values.password);
  urls = some (url_list values.url);
  notes = some (or_undefined values.notes);
  favorite = some values.favorite;
  folder = some (or_undefined values.folder);
  updated_at = some now;
}

module _ {K : Type 0} where
  -- Submitting the form of a new account; nothing happens behind the guard.
  unfoldable pub submit_new : Text → Text → AccountValues → VaultState K → VaultState K
  submit_new uuid now values s =
      if s.is_locked then s else add_item (new_item login_kind uuid now values) s

  -- Submitting the edit of the account in the address; an identifier that no item has shows
  -- "Account not found", with no form.
  unfoldable pub submit_edit : Text → Text → AccountValues → VaultState K → VaultState K
  submit_edit id now values s = if s.is_locked then s else elim (find? (has_id id) s.items) [
    | none ↦ s
    | some item ↦ update_item item.id (edit_updates now values) now s
  ]

  unfoldable pub toggle_favorite : Text → Text → VaultState K → VaultState K
  toggle_favorite id now s = if s.is_locked then s else elim (find? (has_id id) s.items) [
    | none ↦ s
    | some item ↦
        update_item item.id (record no_updates { favorite = some (not item.favorite) }) now s
  ]

  -- `confirmed` is the answer of the dialogue.
  unfoldable pub handle_delete : Text → Bool → VaultState K → VaultState K
  handle_delete id confirmed s = if s.is_locked then s else elim (find? (has_id id) s.items) [
    | none ↦ s
    | some item ↦ if confirmed then remove_item item.id s else s
  ]
