-- ===== src/Vault/Item.antt =====
-- `VaultItem` of hooks/useVault.ts, and a partial item as `updateItem` takes it. Identifiers and
-- time stamps are texts; an optional property is an `Option`.
use personal_password_manage.Prelude.{Bool, Option, none, List, Text, or_else}

pub record VaultItem : Type 0 where
  pub id : Text
  pub kind : Text
  pub title : Text
  pub username : Option Text
  pub password : Option Text
  pub urls : List Text
  pub notes : Option Text
  pub favorite : Bool
  pub folder : Option Text
  pub created_at : Text
  pub updated_at : Text

-- `Partial<VaultItem>`: `none` is a property that is not there, so that the spread keeps the old
-- value; `some none` is an optional property that is there as `undefined`, which clears it.
pub record ItemUpdates : Type 0 where
  pub id : Option Text
  pub kind : Option Text
  pub title : Option Text
  pub username : Option (Option Text)
  pub password : Option (Option Text)
  pub urls : Option (List Text)
  pub notes : Option (Option Text)
  pub favorite : Option Bool
  pub folder : Option (Option Text)
  pub created_at : Option Text
  pub updated_at : Option Text

abbrev pub no_updates : ItemUpdates
no_updates = record {
  id = none;
  kind = none;
  title = none;
  username = none;
  password = none;
  urls = none;
  notes = none;
  favorite = none;
  folder = none;
  created_at = none;
  updated_at = none;
}

-- `{ ...item, ...updates, updated_at: now }`
unfoldable pub spread : VaultItem → ItemUpdates → Text → VaultItem
spread item updates now = record {
  id = or_else updates.id item.id;
  kind = or_else updates.kind item.kind;
  title = or_else updates.title item.title;
  username = or_else updates.username item.username;
  password = or_else updates.password item.password;
  urls = or_else updates.urls item.urls;
  notes = or_else updates.notes item.notes;
  favorite = or_else updates.favorite item.favorite;
  folder = or_else updates.folder item.folder;
  created_at = or_else updates.created_at item.created_at;
  updated_at = now;
}
