-- ===== src/Health/Recent.antt =====
-- Which accounts the pages list: the five newest of app/dashboard/page.tsx and the tabs of
-- app/vault/page.tsx. Times are compared as texts, which all have the format of `toISOString`; the dashboard
-- sorts like the runtime does, which inserts each account before those that are not newer.
pub mod Newest
use mathlib.Core.List.{Perm, perm_middle}
use personal_password_manage.Prelude.{
  ℕ, suc, zero, ◌+◌, ◌*◌, ◌++◌, ◌≡◌, refl, inl, inr, Bool, true, false, ◌&&◌, ◌||◌, Option, none,
  some, List, [], ◌∷◌, ltb, ◌==◌, if◌then◌else◌, arith, Bool-cases, Text, Unicode, length, take,
  drop, take-append-drop, append-nil, filter, All,
}
use Prim.Native.Nat.{min}
use personal_password_manage.Vault.{VaultItem, VaultState, get_filtered_items}

-- `a < b`
unfoldable pub text_ltb : Text → Text → Bool
text_ltb [] [] = false
text_ltb [] (_ ∷ _) = true
text_ltb (_ ∷ _) [] = false
text_ltb (a ∷ s) (b ∷ t) = ltb a b || (a == b && text_ltb s t)

abbrev pub older : VaultItem → VaultItem → Bool
older a b = text_ltb a.updated_at b.updated_at

unfoldable pub insert_newest : VaultItem → List VaultItem → List VaultItem
insert_newest x [] = x ∷ []
insert_newest x (y ∷ ys) =
    let rest = insert_newest x ys in if older x y then y ∷ rest else x ∷ y ∷ ys

-- `[...items].sort((a, b) => (a.updated_at < b.updated_at ? 1 : -1))`
unfoldable pub sort_into : List VaultItem → List VaultItem → List VaultItem
sort_into sorted [] = sorted
sort_into sorted (x ∷ items) = sort_into (insert_newest x sorted) items

unfoldable pub by_newest : List VaultItem → List VaultItem
by_newest items = sort_into [] items

unfoldable pub recent : List VaultItem → List VaultItem
recent items = take 5 (by_newest items)

pub data Tab : Type 0 where
  today important all : Tab

abbrev pub day : ℕ
day = 24 * 60 * 60 * 1000

-- `Date.now() - new Date(updated_at).getTime() < day`; a text that is no date compares as false.
abbrev pub within_day : ℕ → Option ℕ → Bool
within_day now none = false
within_day now (some time) = ltb now (time + day)

-- The list of the vault page; `time_of` is the runtime's reading of a date.
unfoldable pub listed :
    {K : Type 0} → Unicode → (Text → Option ℕ) → ℕ → Tab → VaultState K → List VaultItem
listed u time_of now today s =
    filter (λ (i : VaultItem). within_day now (time_of i.updated_at)) (get_filtered_items u s)
listed u time_of now important s = filter (λ (i : VaultItem). i.favorite) (get_filtered_items u s)
listed u time_of now all s = get_filtered_items u s
