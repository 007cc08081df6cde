-- ===== src/Vault/Refines.antt =====
-- The vault as a client sees it: a function from identifiers to accounts, without order or copies. Every
-- sequence of the edits of the store is one of this view.
use mathlib.Core.Path.{fun_ext}
use personal_password_manage.Prelude.{
  ◌≡◌, refl, ap, ◌∙◌, Option, none, some, List, [], ◌∷◌, ◌++◌, arith, if◌then◌else◌, Text, text_eq,
  find?, All,
}
use personal_password_manage.Vault.{
  VaultItem, ItemUpdates, spread, VaultState, has_id, lock, add_item, update_item, remove_item,
}
use personal_password_manage.Vault.Items.{option_map, find?-update_item, find?-remove_item}

abbrev pub View : Type 0
View = Text → Option VaultItem

pub data Edit : Type 0 where
  add : VaultItem → Edit
  update : Text → ItemUpdates → Text → Edit
  remove : Text → Edit
  close : Edit

-- An update that leaves the identifier of the account alone, as those of the pages do.
abbrev pub KeepsId : Edit → Type 0
KeepsId (update id updates now) = updates.id ≡ none
KeepsId _ = Unit

module _ {K : Type 0} where
  -- The calls of the store.
  unfoldable pub run : List Edit → VaultState K → VaultState K
  run [] s = s
  run (add item ∷ es) s = run es (add_item item s)
  run (update id updates now ∷ es) s = run es (update_item id updates now s)
  run (remove id ∷ es) s = run es (remove_item id s)
  run (close ∷ es) s = run es (lock s)

  unfoldable pub view : VaultState K → View
  view s id = find? (has_id id) s.items

abbrev pub put : VaultItem → Option VaultItem → Text → Option VaultItem
put item (some old) id = some old
put item none id = if text_eq item.id id then some item else none

-- The same edits of the view: an account is added where there is none, changed in place, and taken out.
unfoldable pub replay : List Edit → View → View
replay [] f = f
replay (add item ∷ es) f = replay es (λ id. put item (f id) id)
replay (update key updates now ∷ es) f =
    replay es
      (λ id. if text_eq key id then option_map (λ item. spread item updates now) (f id) else f id)
replay (remove key ∷ es) f = replay es (λ id. if text_eq key id then none else f id)
replay (close ∷ es) f = replay es (λ id. none)

find?-append :
    (items : List VaultItem) (item : VaultItem) (id : Text)
    → find? (has_id id) (items ++ item ∷ []) ≡ put item (find? (has_id id) items) id
find?-append [] item id = ground arith
find?-append (x ∷ items) item id = ground (arith, find?-append items item id)

module _ {K : Type 0} where
  -- Whatever accounts are added, updated under their identifiers and removed, and whenever the vault is
  -- locked: what the store then finds under each identifier is what the same edits make of the view.
  pub run-refines :
      (es : List Edit) (s : VaultState K) → All KeepsId es → view (run es s) ≡ replay es (view s)
  unfolding run replay view add_item lock
  run-refines [] s h = refl
  run-refines (add item ∷ es) s h =
      run-refines es (add_item item s) h.1
      ∙ ap (replay es) (fun_ext (λ id. find?-append s.items item id))
  run-refines (update key updates now ∷ es) s h =
      run-refines es (update_item key updates now s) h.1
      ∙ ap (replay es) (fun_ext (λ id. find?-update_item s key id updates now h.0))
  run-refines (remove key ∷ es) s h =
      run-refines es (remove_item key s) h.1
      ∙ ap (replay es) (fun_ext (λ id. find?-remove_item s key id))
  run-refines (close ∷ es) s h = run-refines es (lock s) h.1
