-- ===== src/Examples/Store.antt =====
-- The vault store, the forms and the figures.
use personal_password_manage.Prelude.{
  ◌≡◌, refl, ◌&&◌, ltb, leb, ◌*◌, some, none, [], ◌∷◌, ◌++◌, codes, length, ascii_only,
  to_lower_case, lower_from, no_sigma, if◌then◌else◌,
}
use personal_password_manage.Vault.Items.{IsUnique, edits-IsUnique}
use personal_password_manage.Vault.{
  ItemUpdates, no_updates, update_item, remove_item, spread, initial, unlock, lock, add_item,
  get_filtered_items,
}
use personal_password_manage.Vault.Search.{in_title, get_filtered_items-finds}
use personal_password_manage.Vault.AutoLock.{idle_ticks, idle_ticks_lem}
use personal_password_manage.Vault.Locked.{
  IsWiped, unlocked, locked, added, start, next, Reach-IsWiped,
}
use personal_password_manage.Account.{edit_updates, prefill}
use personal_password_manage.Account.RoundTrip.{spread-prefill}
use personal_password_manage.Settings.Import.{import_opened-items, new_items}
use personal_password_manage.Settings.{import_opened, distinct}
use personal_password_manage.Transfer.{Opened}
use personal_password_manage.Samples.{mail, bank, items, folders, store, vek}

abbrev renamed : ItemUpdates
renamed = record no_updates { title = some (codes "Post") }

edits-IsUnique_example :
    ((update_item (codes "a1") renamed (codes "2025") store).items
      ≡ record mail { title = codes "Post"; updated_at = codes "2025" } ∷ bank ∷ [])
    × ((remove_item (codes "a1") store).items ≡ bank ∷ [])
    × IsUnique (update_item (codes "a1") renamed (codes "2025") store).items
    × IsUnique (remove_item (codes "a1") store).items
    × IsUnique (add_item (record mail { id = codes "c3" }) store).items
unfolding spread
edits-IsUnique_example =
    edits-IsUnique store (codes "2025") renamed [] (bank ∷ []) mail
      (record mail { id = codes "c3" }) refl (refl, (refl, tt)) refl refl

get_filtered_items-finds_example :
    get_filtered_items ascii_only store
    ≡ get_filtered_items ascii_only (record store { items = [] })
      ++ mail ∷ get_filtered_items ascii_only (record store { items = bank ∷ [] })
unfolding to_lower_case lower_from no_sigma
get_filtered_items-finds_example =
    get_filtered_items-finds ascii_only store [] (bank ∷ []) mail [] (codes "Mai") (codes "l") refl
      refl refl (in_title refl)

idle_ticks_example :
    idle_ticks 30 1000 store ≡ (if ltb 0 5 && leb (5 * 6) 30 then lock store else store)
idle_ticks_example = idle_ticks_lem 30 store refl

-- A late write is undone by the next lock.
Reach-IsWiped_example :
    IsWiped
      (lock (add_item bank (lock (add_item bank (unlock (mail ∷ []) folders vek 1 (initial 0))))))
unfolding unlock
Reach-IsWiped_example =
    Reach-IsWiped {now = 0}
      (next
        (next (next (next (next start (unlocked (mail ∷ []) folders vek 1)) (added bank)) locked)
          (added bank))
        locked)
      refl

spread-prefill_example :
    spread
      (record mail { notes = some [] })
      (edit_updates (codes "2025") (prefill (record mail { notes = some [] })))
      (codes "2025")
    ≡ record mail { urls = codes "mail.example.org" ∷ []; updated_at = codes "2025" }
spread-prefill_example = spread-prefill (record mail { notes = some [] }) (codes "2025")

abbrev file : Opened
file = record {
  items = record bank { id = codes "c3" } ∷ mail ∷ [];
  folders = folders;
  exported_at = none;
}

import_opened-items_example : import_opened file store ≡ (
  record store {
    items = items ++ new_items (codes "a1" ∷ codes "b2" ∷ []) file.items;
    folders = distinct (folders ++ folders);
  },
  length (new_items (codes "a1" ∷ codes "b2" ∷ []) file.items),
)
import_opened-items_example = import_opened-items file store
