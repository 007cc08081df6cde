-- ===== src/Clipboard.antt =====
-- The clipboard behind `handleCopy` of components/PasswordGenerator.tsx, components/VaultItemCard.tsx and
-- app/vault/[id]/page.tsx. Time is counted in milliseconds; a timer is the time that is left to it, and no
-- timer is ever cancelled. `copied` is the field that the page marks.
pub mod Clearing
use personal_password_manage.Prelude.{
  ℕ, zero, suc, ◌-◌, Bool, true, false, not, Option, none, some, List, [], ◌∷◌, map, leb,
  if◌then◌else◌, Text, any, filter,
}

pub record Clip : Type 0 where
  pub clipboard : Text
  pub copied : Option Text
  pub timers : List ℕ

abbrev pub clear_after : ℕ
clear_after = 30000

-- `handleCopy`, once `writeText` is done.
unfoldable pub handle_copy : Text → Text → Clip → Clip
handle_copy text field c = record {
  clipboard = text;
  copied = some field;
  timers = clear_after ∷ c.timers;
}

abbrev pub is_due : ℕ → Bool
is_due left = leb left 1

-- One millisecond: the timers that are due run their callback, which empties the clipboard and the mark.
unfoldable pub millisecond : Clip → Clip
millisecond c =
    let left = map (λ t. t - 1) (filter (λ t. not (is_due t)) c.timers) in
    if any is_due c.timers
    then record { clipboard = []; copied = none; timers = left }
    else record c { timers = left }

unfoldable pub wait : ℕ → Clip → Clip
wait zero c = c
wait (suc n) c = wait n (millisecond c)
