-- ===== src/Vault/Search.antt =====
-- `getFilteredItems`: what a search lists.
use personal_password_manage.Prelude.{
  ◌≡◌, inl, inr, true, some, List, [], ◌∷◌, ◌++◌, arith, Bool-cases, includes-fold, Text, is_empty,
  Unicode, no_sigma, to_lower_case, includes, filter-append, any,
}
use personal_password_manage.Vault.{VaultItem, VaultState, matches, get_filtered_items}

some_url :
    (u : Unicode) (q : Text) (us vs : List Text) (url : Text)
    → includes q (to_lower_case u url) ≡ true
    → any (λ r. includes q (to_lower_case u r)) (us ++ url ∷ vs) ≡ true
some_url u q [] vs url e = rw e
some_url u q (w ∷ us) vs url e = ground (arith, some_url u q us vs url e)

-- The texts that a search looks at: the title, the user name, each address and the folder.
pub data Searched (item : VaultItem) : Text → Type 0 where
  in_title : {s : Text} → item.title ≡ s → Searched item s
  in_username : {s : Text} → item.username ≡ some s → Searched item s
  in_urls : {s : Text} (us vs : List Text) → item.urls ≡ us ++ s ∷ vs → Searched item s
  in_folder : {s : Text} → item.folder ≡ some s → Searched item s

matches-Searched :
    (u : Unicode) (q : Text) (item : VaultItem) (s : Text)
    → Searched item s
    → includes q (to_lower_case u s) ≡ true
    → matches u q item ≡ true
unfolding matches
matches-Searched u q item s (in_title e) h = rw (e, h)
matches-Searched u q item s (in_username e) h = ground arith
matches-Searched u q item s (in_urls us vs e) h = ground (arith, some_url u q us vs s h)
matches-Searched u q item s (in_folder e) h = ground arith

-- A search lists, in the vault's order, every item one of whose searched texts holds the query in
-- whatever case, unless what the text holds has a capital sigma, whose small form depends on what stands
-- around it; an item before or after it is listed as it would be without it.
pub get_filtered_items-finds :
    {K : Type 0} (u : Unicode) (s : VaultState K) (xs ys : List VaultItem) (item : VaultItem)
    (a m b : Text)
    → s.items ≡ xs ++ item ∷ ys
    → no_sigma m ≡ true
    → to_lower_case u m ≡ to_lower_case u s.search_query
    → Searched item (a ++ m ++ b)
    → get_filtered_items u s
      ≡ get_filtered_items u (record s { items = xs })
        ++ item ∷ get_filtered_items u (record s { items = ys })
unfolding get_filtered_items
get_filtered_items-finds u s xs ys item a m b e plain f found =
    elim (Bool-cases (is_empty s.search_query)) [
      | inl blank ↦ rw blank e
      | inr asked ↦
          let q = to_lower_case u s.search_query in
          let hit =
            matches-Searched u q item (a ++ m ++ b) found
              (includes-fold u a m b s.search_query plain f) in
          rw (asked, e, filter-append (matches u q) xs (item ∷ ys), hit)
    ]
