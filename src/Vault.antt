-- ===== src/Vault.antt =====
-- The vault store of hooks/useVault.ts: its state and its actions, as functions from state to state.
-- The data key is a type parameter, `Date.now()` and `toISOString()` are arguments.
mod Item
pub mod Items
pub mod Search
pub mod AutoLock
pub mod Locked
pub mod Refines
unfoldable pub use Item.*
use personal_password_manage.Prelude.{
  ℕ, ◌+◌, Bool, true, false, ◌||◌, not, Option, none, some, List, [], ◌∷◌, ◌++◌, map, if◌then◌else◌,
  Text, text_eq, is_empty, includes, Unicode, to_lower_case, filter, any,
}

pub data SyncState : Type 0 where
  idle syncing saved error : SyncState

pub record VaultState (K : Type 0) : Type 0 where
  pub is_locked : Bool
  pub items : List VaultItem
  pub folders : List Text
  pub search_query : Text
  pub selected_item : Option VaultItem
  pub lock_timeout : ℕ
  pub last_activity : ℕ
  pub key : Option K
  pub server_version : ℕ
  pub sync_state : SyncState
  pub sync_error : Option Text
  pub sync_retry : ℕ

abbrev pub has_id : Text → VaultItem → Bool
has_id id item = text_eq item.id id

module _ {K : Type 0} where
  unfoldable pub initial : ℕ → VaultState K
  initial now = record {
    is_locked = true;
    items = [];
    folders = [];
    search_query = [];
    selected_item = none;
    lock_timeout = 15;
    last_activity = now;
    key = none;
    server_version = 0;
    sync_state = idle;
    sync_error = none;
    sync_retry = 0;
  }

  unfoldable pub unlock : List VaultItem → List Text → K → ℕ → VaultState K → VaultState K
  unlock items folders key server_version s = record s {
    is_locked = false;
    items = items;
    folders = folders;
    key = some key;
    server_version = server_version;
    sync_state = idle;
    sync_error = none;
  }

  unfoldable pub rekey : K → VaultState K → VaultState K
  rekey key s = record s { key = some key }

  unfoldable pub lock : VaultState K → VaultState K
  lock s = record s {
    is_locked = true;
    items = [];
    folders = [];
    selected_item = none;
    key = none;
    server_version = 0;
    sync_state = idle;
    sync_error = none;
  }

  unfoldable pub add_item : VaultItem → VaultState K → VaultState K
  add_item item s = record s { items = s.items ++ item ∷ [] }

  unfoldable pub update_item : Text → ItemUpdates → Text → VaultState K → VaultState K
  update_item id updates now s = record s {
    items = map (λ item. if has_id id item then spread item updates now else item) s.items;
  }

  unfoldable pub remove_item : Text → VaultState K → VaultState K
  remove_item id s = record s { items = filter (λ item. not (has_id id item)) s.items }

  unfoldable pub set_search_query : Text → VaultState K → VaultState K
  set_search_query query s = record s { search_query = query }

  unfoldable pub set_selected_item : Option VaultItem → VaultState K → VaultState K
  set_selected_item item s = record s { selected_item = item }

  unfoldable pub set_lock_timeout : ℕ → VaultState K → VaultState K
  set_lock_timeout minutes s = record s { lock_timeout = minutes }

  unfoldable pub update_activity : ℕ → VaultState K → VaultState K
  update_activity now s = record s { last_activity = now }

  unfoldable pub set_sync_state : SyncState → Option Text → VaultState K → VaultState K
  set_sync_state state reason s = record s { sync_state = state; sync_error = reason }

  -- `useVaultStore.setState({ serverVersion })` and `setState({ folders })`
  unfoldable pub set_server_version : ℕ → VaultState K → VaultState K
  set_server_version version s = record s { server_version = version }

  unfoldable pub set_folders : List Text → VaultState K → VaultState K
  set_folders folders s = record s { folders = folders }

  unfoldable pub retry_sync : VaultState K → VaultState K
  retry_sync s = record s { sync_retry = s.sync_retry + 1; sync_state = idle; sync_error = none }

  unfoldable pub apply_server_contents :
      List VaultItem → List Text → ℕ → VaultState K → VaultState K
  apply_server_contents items folders server_version s = record s {
    items = items;
    folders = folders;
    server_version = server_version;
    sync_state = saved;
    sync_error = none;
  }

-- `o?.toLowerCase().includes(q)`, falsy where `o` is undefined
abbrev pub option_includes : Unicode → Text → Option Text → Bool
option_includes u q none = false
option_includes u q (some s) = includes q (to_lower_case u s)

unfoldable pub matches : Unicode → Text → VaultItem → Bool
matches u q item =
    includes q (to_lower_case u item.title)
    || option_includes u q item.username
    || any (λ url. includes q (to_lower_case u url)) item.urls
    || option_includes u q item.folder

unfoldable pub get_filtered_items : {K : Type 0} → Unicode → VaultState K → List VaultItem
get_filtered_items u s =
    if is_empty s.search_query
    then s.items
    else filter (matches u (to_lower_case u s.search_query)) s.items
