-- ===== src/Vault/Locked.antt =====
-- A locked vault holds no secret: what the actions keep, and which writes can undo it.
use personal_password_manage.Prelude.{
  ℕ, ◌≡◌, Bool, true, false, ◌||◌, Option, none, List, [], arith, Text,
}
use personal_password_manage.Vault.{
  VaultItem, ItemUpdates, SyncState, VaultState, initial, unlock, rekey, lock, add_item,
  update_item, remove_item, set_search_query, set_selected_item, set_lock_timeout, update_activity,
  set_sync_state, set_server_version, set_folders, retry_sync, apply_server_contents,
}
use personal_password_manage.Vault.AutoLock.{tick, handle_activity}

not_late : (late shut : Bool) → (late || shut) ≡ false → (late ≡ false) × (shut ≡ false)
not_late late shut e = ground arith

module _ {K : Type 0} where
  -- While the vault is locked, no item, folder, selection or key is left in memory.
  pub record IsWiped (s : VaultState K) : Type 0 where
    pub no_items : s.is_locked ≡ true → s.items ≡ []
    pub no_folders : s.is_locked ≡ true → s.folders ≡ []
    pub no_selection : s.is_locked ≡ true → s.selected_item ≡ none
    pub no_key : s.is_locked ≡ true → s.key ≡ none

  -- The calls of the pages and hooks, in any order and whether the vault is locked or not. The reload of
  -- the synchronisation, the import and the change of the master password check the lock before an await,
  -- and not after it. The first Boolean says whether such a write came while the vault was locked, after
  -- the last lock or unlock; the second says so after the call.
  pub data Call : Bool → Bool → VaultState K → VaultState K → Type 0 where
    unlocked :
        {late : Bool} {s : VaultState K} (items : List VaultItem) (folders : List Text) (key : K)
        (version : ℕ)
        → Call late false s (unlock items folders key version s)
    locked : {late : Bool} {s : VaultState K} → Call late false s (lock s)
    ticked : {late : Bool} {s : VaultState K} (now : ℕ) → Call late late s (tick now s)
    active : {late : Bool} {s : VaultState K} (now : ℕ) → Call late late s (handle_activity now s)
    updated :
        {late : Bool} {s : VaultState K} (id : Text) (updates : ItemUpdates) (now : Text)
        → Call late late s (update_item id updates now s)
    removed : {late : Bool} {s : VaultState K} (id : Text) → Call late late s (remove_item id s)
    searched :
        {late : Bool} {s : VaultState K} (query : Text)
        → Call late late s (set_search_query query s)
    timed :
        {late : Bool} {s : VaultState K} (minutes : ℕ)
        → Call late late s (set_lock_timeout minutes s)
    reported :
        {late : Bool} {s : VaultState K} (state : SyncState) (reason : Option Text)
        → Call late late s (set_sync_state state reason s)
    versioned :
        {late : Bool} {s : VaultState K} (version : ℕ)
        → Call late late s (set_server_version version s)
    retried : {late : Bool} {s : VaultState K} → Call late late s (retry_sync s)
    added :
        {late : Bool} {s : VaultState K} (item : VaultItem)
        → Call late (late || s.is_locked) s (add_item item s)
    selected :
        {late : Bool} {s : VaultState K} (item : Option VaultItem)
        → Call late (late || s.is_locked) s (set_selected_item item s)
    refiled :
        {late : Bool} {s : VaultState K} (folders : List Text)
        → Call late (late || s.is_locked) s (set_folders folders s)
    reloaded :
        {late : Bool} {s : VaultState K} (items : List VaultItem) (folders : List Text)
        (version : ℕ)
        → Call late (late || s.is_locked) s (apply_server_contents items folders version s)
    rekeyed :
        {late : Bool} {s : VaultState K} (key : K) → Call late (late || s.is_locked) s (rekey key s)

  pub Call-IsWiped :
      {late after : Bool} {s t : VaultState K}
      → Call late after s t
      → (late ≡ false → IsWiped s)
      → after ≡ false
      → IsWiped t
  unfolding unlock lock tick handle_activity add_item update_item remove_item set_selected_item
      set_search_query set_lock_timeout update_activity set_sync_state set_server_version retry_sync
      set_folders apply_server_contents rekey
  Call-IsWiped (unlocked items folders key version) h e = ground arith
  Call-IsWiped locked h e = ground arith
  Call-IsWiped (ticked now) h e = let w = h e in ground arith
  Call-IsWiped (active now) h e = let w = h e in ground arith
  Call-IsWiped (updated id updates now) h e = let w = h e in ground arith
  Call-IsWiped (removed id) h e = let w = h e in ground arith
  Call-IsWiped (searched query) h e = let w = h e in ground arith
  Call-IsWiped (timed minutes) h e = let w = h e in ground arith
  Call-IsWiped (reported state reason) h e = let w = h e in ground arith
  Call-IsWiped (versioned version) h e = let w = h e in ground arith
  Call-IsWiped retried h e = let w = h e in ground arith
  Call-IsWiped {late} {s = s} (added item) h e =
      let (a, b) = not_late late s.is_locked e in ground arith
  Call-IsWiped {late} {s = s} (selected item) h e =
      let (a, b) = not_late late s.is_locked e in ground arith
  Call-IsWiped {late} {s = s} (refiled folders) h e =
      let (a, b) = not_late late s.is_locked e in ground arith
  Call-IsWiped {late} {s = s} (reloaded items folders version) h e =
      let (a, b) = not_late late s.is_locked e in ground arith
  Call-IsWiped {late} {s = s} (rekeyed key) h e =
      let (a, b) = not_late late s.is_locked e in ground arith

  -- The states that the calls reach, with whether the last lock or unlock was followed by a late write.
  pub data Reach (now : ℕ) : Bool → VaultState K → Type 0 where
    start : Reach now false (initial now)
    next :
        {late after : Bool} {s t : VaultState K}
        → Reach now late s
        → Call late after s t
        → Reach now after t

  -- In every state that calls in any order reach from the first one, a locked vault holds no item, no
  -- folder, no selection and no key, unless a call that writes contents or the key came while the vault was
  -- locked (as the reload and the import can, which end after an await) and no lock or unlock came since.
  pub Reach-IsWiped :
      {now : ℕ} {late : Bool} {s : VaultState K} → Reach now late s → late ≡ false → IsWiped s
  unfolding initial
  Reach-IsWiped start e = ground arith
  Reach-IsWiped (next r c) e = Call-IsWiped c (Reach-IsWiped r) e
