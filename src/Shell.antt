-- ===== src/Shell.antt =====
-- What surrounds every page: components/Sidebar.tsx with the navigation and the sign-out, the bottom
-- navigation of components/SecureX.tsx, and the banner of components/SyncStatus.tsx. Time is counted in
-- milliseconds.
pub mod SigningOut
pub mod Banner
use personal_password_manage.Prelude.{
  ℕ, zero, suc, ◌-◌, Bool, true, false, ◌||◌, Option, none, some, List, [], ◌∷◌, ◌++◌, map, leb,
  if◌then◌else◌, Text, codes, text_eq, starts_with, any, length, take, drop,
}
use personal_password_manage.Api.{Role, Me, user, admin, ApiResult, value, failed}
use personal_password_manage.Json.{Value}
use personal_password_manage.Session.{AuthState, clear}
use personal_password_manage.Vault.{VaultState, SyncState, saved, syncing, error, lock}

pub record Entry : Type 0 where
  pub name : Text
  pub href : Text

abbrev pub base_navigation : List Entry
base_navigation =
    record { name = codes "Dashboard"; href = codes "/dashboard" }
    ∷ record { name = codes "Vault"; href = codes "/vault" }
    ∷ record { name = codes "Generator"; href = codes "/generator" }
    ∷ record { name = codes "Security"; href = codes "/security" }
    ∷ record { name = codes "Dark Web Monitor"; href = codes "/monitor" }
    ∷ record { name = codes "Devices"; href = codes "/devices" }
    ∷ record { name = codes "Settings"; href = codes "/settings" }
    ∷ []

-- The entries before the last one, a new one, and the last one.
unfoldable pub with_admin : List Entry → List Entry
with_admin [] = record { name = codes "Admin"; href = codes "/admin" } ∷ []
with_admin (e ∷ []) = record { name = codes "Admin"; href = codes "/admin" } ∷ e ∷ []
with_admin (e ∷ d ∷ es) = e ∷ with_admin (d ∷ es)

abbrev pub is_admin : Option Me → Bool
is_admin none = false
is_admin (some me) = elim me.role [ admin ↦ true | user ↦ false ]

unfoldable pub navigation : Option Me → List Entry
navigation who = if is_admin who then with_admin base_navigation else base_navigation

-- Where an entry leads, and whether it is marked.
unfoldable pub link : Bool → Entry → Text
link is_locked e = if is_locked then codes "/unlock" else e.href

unfoldable pub is_active : Text → Entry → Bool
is_active pathname e = text_eq pathname e.href

abbrev pub auth_routes : List Text
auth_routes = codes "/login" ∷ codes "/register" ∷ codes "/unlock" ∷ []

-- `pathname === r || pathname.startsWith(r + '/')`
abbrev pub under : Text → Text → Bool
under pathname r = text_eq pathname r || starts_with (r ++ codes "/") pathname

abbrev pub bottom_links : List Text
bottom_links = codes "/dashboard" ∷ codes "/security" ∷ codes "/settings" ∷ []

-- The links of the bottom navigation, each with its mark; `none` where it is not shown.
unfoldable pub bottom_nav : Option Text → Option (List (Text × Bool))
bottom_nav none = some (map (λ (r : Text). (r, false)) bottom_links)
bottom_nav (some pathname) =
    if any (under pathname) auth_routes
    then none
    else some (map (λ (r : Text). (r, under pathname r)) bottom_links)

pub record Session (K : Type 0) : Type 0 where
  pub auth : AuthState
  pub store : VaultState K
  pub signing_out : Bool
  pub to_login : Bool

module _ {K : Type 0} where
  -- The sign-out, whatever the server answers to `logout`; `to_login` is the route to /login.
  unfoldable pub sign_out : ApiResult Value → Session K → Session K
  sign_out answer s = record {
    auth = clear s.auth;
    store = lock s.store;
    signing_out = false;
    to_login = true;
  }

-- The state of the banner; `timer` is the time that is left to it.
pub record SavedBanner : Type 0 where
  pub show_saved : Bool
  pub timer : Option ℕ

abbrev pub saved_for : ℕ
saved_for = 2500

-- The effect, which runs when `syncState` has changed to this value.
unfoldable pub state_changed : SyncState → SavedBanner → SavedBanner
state_changed saved b = record { show_saved = true; timer = some saved_for }
state_changed _ b = b

unfoldable pub banner_millisecond : SavedBanner → SavedBanner
banner_millisecond b = elim b.timer [
  | none ↦ b
  | some left ↦
      if leb left 1
      then record { show_saved = false; timer = none }
      else record b { timer = some (left - 1) }
]

pub data Shown : Type 0 where
  saving sync_failed saved_to_server nothing : Shown

unfoldable pub banner : SyncState → SavedBanner → Shown
banner syncing b = saving
banner error b = sync_failed
banner _ b = if b.show_saved then saved_to_server else nothing
