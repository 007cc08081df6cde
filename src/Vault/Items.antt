-- ===== src/Vault/Items.antt =====
-- Adding, updating and removing items: what each finds, and that no two items share an identifier.
use personal_password_manage.Prelude.{
  ◌≡◌, ◌≢◌, refl, inl, inr, Bool, false, not, ◌||◌, Option, none, some, List, [], ◌∷◌, ◌++◌, map,
  arith, if◌then◌else◌, Bool-cases, Text, text_eq, text_eq_iff, text_eq_refl, subst, filter, any,
  find?,
}
use personal_password_manage.Vault.{
  VaultItem, ItemUpdates, spread, VaultState, has_id, add_item, update_item, remove_item,
}

abbrev pub option_map : (VaultItem → VaultItem) → Option VaultItem → Option VaultItem
option_map f none = none
option_map f (some x) = some (f x)

abbrev pub replace_in : Text → ItemUpdates → Text → List VaultItem → List VaultItem
replace_in id updates now = map (λ item. if has_id id item then spread item updates now else item)

text_eq_ne : (s t : Text) → s ≢ t → text_eq s t ≡ false
text_eq_ne s t h = elim (Bool-cases (text_eq s t)) [
  | inl e ↦ absurd (h ((text_eq_iff s t).0 e))
  | inr e ↦ e
]

spread-id :
    (item : VaultItem) (updates : ItemUpdates) (now : Text)
    → updates.id ≡ none
    → (spread item updates now).id ≡ item.id
unfolding spread
spread-id item updates now e = ground arith

find?-replace_in :
    (id j : Text) (updates : ItemUpdates) (now : Text) (items : List VaultItem)
    → updates.id ≡ none
    → find? (has_id j) (replace_in id updates now items) ≡ (
        if text_eq id j
        then option_map (λ item. spread item updates now) (find? (has_id j) items)
        else find? (has_id j) items)
find?-replace_in id j updates now [] e = ground arith
find?-replace_in id j updates now (x ∷ items) e = ground (
  arith,
  find?-replace_in id j updates now items e,
  spread-id x updates now e,
  text_eq_iff x.id id,
  text_eq_iff x.id j,
  text_eq_iff id j,
)

module _ {K : Type 0} (s : VaultState K) where
  -- An update that leaves the identifier alone changes exactly the item with that identifier, in
  -- place: looking up any identifier afterwards finds what was there, with the updates spread over
  -- it if it is the one updated.
  pub find?-update_item :
      (id j : Text) (updates : ItemUpdates) (now : Text)
      → updates.id ≡ none
      → find? (has_id j) (update_item id updates now s).items ≡ (
          if text_eq id j
          then option_map (λ item. spread item updates now) (find? (has_id j) s.items)
          else find? (has_id j) s.items)
  unfolding update_item
  find?-update_item id j updates now e = find?-replace_in id j updates now s.items e

find?-without :
    (id j : Text) (items : List VaultItem)
    → find? (has_id j) (filter (λ item. not (has_id id item)) items)
      ≡ (if text_eq id j then none else find? (has_id j) items)
find?-without id j [] = ground arith
find?-without id j (x ∷ items) =
    ground
      (arith, find?-without id j items, text_eq_iff x.id id, text_eq_iff x.id j, text_eq_iff id j)

-- Removing an identifier leaves no item with it, and any other identifier finds what it found.
pub find?-remove_item :
    {K : Type 0} (s : VaultState K) (id j : Text)
    → find? (has_id j) (remove_item id s).items
      ≡ (if text_eq id j then none else find? (has_id j) s.items)
unfolding remove_item
find?-remove_item s id j = find?-without id j s.items

-- No two items share an identifier.
abbrev pub IsUnique : List VaultItem → Type 0
IsUnique [] = Unit
IsUnique (x ∷ items) = (any (has_id x.id) items ≡ false) × IsUnique items

any-append :
    (p : VaultItem → Bool) (xs ys : List VaultItem) → any p (xs ++ ys) ≡ (any p xs || any p ys)
any-append p [] ys = refl
any-append p (x ∷ xs) ys = ground (arith, any-append p xs ys)

pub append-IsUnique :
    (items : List VaultItem) (item : VaultItem)
    → IsUnique items
    → any (has_id item.id) items ≡ false
    → IsUnique (items ++ item ∷ [])
append-IsUnique [] item h fresh = (refl, tt)
append-IsUnique (x ∷ items) item h fresh = (
  rw (any-append (has_id x.id) items (item ∷ []), h.0)
      (ground (arith, text_eq_iff x.id item.id, text_eq_iff item.id x.id)),
  append-IsUnique items item h.1 (ground arith),
)

any-replace_in :
    (id j : Text) (updates : ItemUpdates) (now : Text) (items : List VaultItem)
    → updates.id ≡ none
    → any (has_id j) (replace_in id updates now items) ≡ any (has_id j) items
any-replace_in id j updates now [] e = refl
any-replace_in id j updates now (x ∷ items) e =
    ground (arith, any-replace_in id j updates now items e, spread-id x updates now e)

replace_in-IsUnique :
    (id : Text) (updates : ItemUpdates) (now : Text) (items : List VaultItem)
    → updates.id ≡ none
    → IsUnique items
    → IsUnique (replace_in id updates now items)
replace_in-IsUnique id updates now [] e h = tt
replace_in-IsUnique id updates now (x ∷ items) e h = ground (
  arith,
  replace_in-IsUnique id updates now items e h.1,
  any-replace_in id x.id updates now items e,
  spread-id x updates now e,
)

any-filter :
    (p q : VaultItem → Bool) (items : List VaultItem)
    → any p items ≡ false
    → any p (filter q items) ≡ false
any-filter p q [] h = refl
any-filter p q (x ∷ items) h = ground (arith, any-filter p q items)

filter-IsUnique :
    (q : VaultItem → Bool) (items : List VaultItem) → IsUnique items → IsUnique (filter q items)
filter-IsUnique q [] h = tt
filter-IsUnique q (x ∷ items) h =
    ground (arith, filter-IsUnique q items h.1, any-filter (has_id x.id) q items h.0)

IsUnique-apart :
    (xs ys : List VaultItem) (item : VaultItem)
    → IsUnique (xs ++ item ∷ ys)
    → (any (has_id item.id) xs ≡ false) × (any (has_id item.id) ys ≡ false)
IsUnique-apart [] ys item h = (refl, h.0)
IsUnique-apart (x ∷ xs) ys item h =
    let (a, b) = IsUnique-apart xs ys item h.1 in
    (
      ground (
        arith,
        h.0,
        a,
        any-append (has_id x.id) xs (item ∷ ys),
        text_eq_iff x.id item.id,
        text_eq_iff item.id x.id,
      ),
      b,
    )

replace_in-none :
    (id : Text) (updates : ItemUpdates) (now : Text) (items : List VaultItem)
    → any (has_id id) items ≡ false
    → replace_in id updates now items ≡ items
replace_in-none id updates now [] h = refl
replace_in-none id updates now (x ∷ items) h = ground (arith, replace_in-none id updates now items)

replace_in-one :
    (updates : ItemUpdates) (now : Text) (xs ys : List VaultItem) (item : VaultItem)
    → any (has_id item.id) xs ≡ false
    → any (has_id item.id) ys ≡ false
    → replace_in item.id updates now (xs ++ item ∷ ys) ≡ xs ++ spread item updates now ∷ ys
replace_in-one updates now [] ys item h k =
    rw (text_eq_refl item.id, replace_in-none item.id updates now ys k)
replace_in-one updates now (x ∷ xs) ys item h k =
    ground (arith, replace_in-one updates now xs ys item)

without-none :
    (id : Text) (items : List VaultItem)
    → any (has_id id) items ≡ false
    → filter (λ item. not (has_id id item)) items ≡ items
without-none id [] h = refl
without-none id (x ∷ items) h = ground (arith, without-none id items)

without-one :
    (xs ys : List VaultItem) (item : VaultItem)
    → any (has_id item.id) xs ≡ false
    → any (has_id item.id) ys ≡ false
    → filter (λ x. not (has_id item.id x)) (xs ++ item ∷ ys) ≡ xs ++ ys
without-one [] ys item h k = rw (text_eq_refl item.id, without-none item.id ys k)
without-one (x ∷ xs) ys item h k = ground (arith, without-one xs ys item)

-- In a vault where no two items share an identifier, an update that leaves the identifier alone changes the
-- item with that identifier and no other, in its place; a removal takes out that item and keeps the others
-- in order; and after either, or after the addition of an item under a fresh identifier, no two items share
-- an identifier.
pub edits-IsUnique :
    {K : Type 0} (s : VaultState K) (now : Text) (updates : ItemUpdates) (xs ys : List VaultItem)
    (item added : VaultItem)
    → s.items ≡ xs ++ item ∷ ys
    → IsUnique s.items
    → updates.id ≡ none
    → any (has_id added.id) s.items ≡ false
    → ((update_item item.id updates now s).items ≡ xs ++ spread item updates now ∷ ys)
      × ((remove_item item.id s).items ≡ xs ++ ys)
      × IsUnique (update_item item.id updates now s).items
      × IsUnique (remove_item item.id s).items
      × IsUnique (add_item added s).items
unfolding update_item remove_item add_item
edits-IsUnique s now updates xs ys item added e h same fresh =
    let (a, b) = IsUnique-apart xs ys item (subst IsUnique e h) in
    (
      rw e (replace_in-one updates now xs ys item a b),
      rw e (without-one xs ys item a b),
      replace_in-IsUnique item.id updates now s.items same h,
      filter-IsUnique (λ x. not (has_id item.id x)) s.items h,
      append-IsUnique s.items added h fresh,
    )
