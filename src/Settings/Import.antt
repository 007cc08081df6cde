-- ===== src/Settings/Import.antt =====
-- What an import adds to the vault.
use personal_password_manage.Prelude.{
  ℕ, ◌+◌, ◌≡◌, ap, ◌∙◌, not, List, [], ◌∷◌, ◌++◌, map, arith, Bool-cases, inl, inr, filter, length,
  Text, append-nil, append_assoc,
}
use personal_password_manage.Vault.{VaultItem, VaultState, add_item, set_folders}
use personal_password_manage.Transfer.{Opened}
use personal_password_manage.Settings.{known, distinct, add_new, import_opened}

abbrev pub new_items : List Text → List VaultItem → List VaultItem
new_items existing items = filter (λ (i : VaultItem). not (known existing i.id)) items

-- The items whose ids the vault did not have, in the order of the file.
add_new-items :
    {K : Type 0} (existing : List Text) (items : List VaultItem) (added : ℕ) (s : VaultState K)
    → ((add_new existing items added s).0
        ≡ record s { items = s.items ++ new_items existing items })
      × ((add_new existing items added s).1 ≡ added + length (new_items existing items))
unfolding add_new add_item
add_new-items existing [] added s = (ground (arith, append-nil s.items), omega arith)
add_new-items existing (item ∷ items) added s = elim (Bool-cases (known existing item.id)) [
  | inl e ↦ rw (e, add_new) (add_new-items existing items added s)
  | inr e ↦
      let (a, b) = add_new-items existing items (added + 1) (add_item item s) in
      rw (e, add_new)
        (
          a
              ∙ ap (λ (is : List VaultItem). record s { items = is })
                  (append_assoc s.items (item ∷ []) (new_items existing items)),
          omega (arith, b),
        )
]

-- An import leaves every item of the vault as it was and puts behind them, in the order of the file, the
-- items of the file whose ids the vault did not have before; it reports their number, and the folders are
-- those of both, each once. (Two items of the file with one new id are both added.)
pub import_opened-items :
    {K : Type 0} (file : Opened) (s : VaultState K)
    → let new = new_items (map (λ (i : VaultItem). i.id) s.items) file.items in
      (import_opened file s ≡ (
        record s { items = s.items ++ new; folders = distinct (s.folders ++ file.folders) },
        length new,
      ))
unfolding import_opened set_folders
import_opened-items file s =
    let (a, b) = add_new-items (map (λ (i : VaultItem). i.id) s.items) file.items 0 s in
    let ids = map (λ (i : VaultItem). i.id) s.items in
    let n : (add_new ids file.items 0 s).1 ≡ length (new_items ids file.items) = omega (arith, b) in
    rw (a, n)
