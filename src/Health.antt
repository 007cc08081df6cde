-- ===== src/Health.antt =====
-- Password health: the analysis of app/security/page.tsx, the figures of app/dashboard/page.tsx, and
-- the strength figures of the vault list (app/vault/page.tsx, components/SecureX.tsx).
pub mod Figures
pub mod Recent
use personal_password_manage.Prelude.{
  ℕ, zero, suc, ◌+◌, ◌-◌, ◌*◌, ◌/◌, Bool, true, false, not, ◌||◌, ◌&&◌, Option, none, some, List,
  [], ◌∷◌, ltb, leb, ◌==◌, if◌then◌else◌, Text, text_eq, is_empty, Unicode, to_lower_case, length,
  filter, any,
}
use Prim.Native.Nat.{min, max}
use personal_password_manage.Password.{Label, get_password_strength}
use personal_password_manage.Vault.{VaultItem}

-- `item.password` where it is truthy: present and not empty.
abbrev pub truthy : Option Text → Option Text
truthy none = none
truthy (some s) = if is_empty s then none else some s

-- The accumulator of the security page; `seen` holds the keys of `passwordCounts`.
pub record Analysis : Type 0 where
  pub strong : ℕ
  pub weak : ℕ
  pub reused : ℕ
  pub missing : ℕ
  pub seen : List Text

abbrev pub no_analysis : Analysis
no_analysis = record { strong = 0; weak = 0; reused = 0; missing = 0; seen = [] }

abbrev pub has_text : Text → List Text → Bool
has_text s = any (λ t. text_eq t s)

-- The reuse count, which both pages keep in the same way.
abbrev pub note_seen : Text → ℕ × List Text → ℕ × List Text
note_seen s (reused, seen) = if has_text s seen then (reused + 1, seen) else (reused, s ∷ seen)

abbrev pub is_weak_score : ℕ → Bool
is_weak_score score = leb score 1

abbrev pub is_strong_label : Label → Bool
is_strong_label Label.strong = true
is_strong_label Label.very_strong = true
is_strong_label _ = false

abbrev pub is_weak_label : Label → Bool
is_weak_label Label.very_weak = true
is_weak_label Label.weak = true
is_weak_label _ = false

pub record Overview : Type 0 where
  pub strong : ℕ
  pub weak : ℕ
  pub reused : ℕ
  pub score : ℕ

-- `Math.max(0, 100 - …)`: subtraction that stops at zero.
pub score_of : ℕ → ℕ → ℕ → ℕ → ℕ
score_of total weak reused missing =
    if total == 0 then 100 else 100 - weak * 8 - reused * 5 - missing * 3

-- The dashboard first keeps the passwords that are there.
pub with_passwords : List VaultItem → List Text
with_passwords [] = []
with_passwords (item ∷ items) = elim (truthy item.password) [
  | none ↦ with_passwords items
  | some password ↦ password ∷ with_passwords items
]

module _ (u : Unicode) where
  analyse_password : Text → Analysis → Analysis
  analyse_password password acc =
      let (reused, seen) = note_seen (to_lower_case u password) (acc.reused, acc.seen) in
      let low = is_weak_score (get_password_strength password).score in
      record acc {
        reused = reused;
        seen = seen;
        weak = if low then acc.weak + 1 else acc.weak;
        strong = if low then acc.strong else acc.strong + 1;
      }

  -- The function that `items.reduce` is given.
  pub analyse_item : Analysis → VaultItem → Analysis
  unfolding analyse_password
  analyse_item acc item = elim (truthy item.password) [
    | none ↦ record acc { missing = acc.missing + 1 }
    | some password ↦ analyse_password password acc
  ]

  analyse_from : Analysis → List VaultItem → Analysis
  analyse_from acc [] = acc
  analyse_from acc (item ∷ items) = analyse_from (analyse_item acc item) items

  pub analyse : List VaultItem → Analysis
  unfolding analyse_from
  analyse items = analyse_from no_analysis items

  pub security_score : List VaultItem → ℕ
  security_score items =
      let analysis = analyse items in
      score_of (length items) analysis.weak analysis.reused analysis.missing

  reuse_loop : ℕ × List Text → List Text → ℕ × List Text
  reuse_loop acc [] = acc
  reuse_loop acc (password ∷ passwords) =
      reuse_loop (note_seen (to_lower_case u password) acc) passwords

  pub dashboard : List VaultItem → Overview
  unfolding reuse_loop with_passwords
  dashboard items =
      let passwords = with_passwords items in
      let strong =
        length (filter (λ p. is_strong_label (get_password_strength p).label) passwords) in
      let weak = length (filter (λ p. is_weak_label (get_password_strength p).label) passwords) in
      let reused = (reuse_loop (0, []) passwords).0 in
      record {
        strong = strong;
        weak = weak;
        reused = reused;
        score = score_of (length items) weak reused (length items - length passwords);
      }

-- The figure in the ring of a vault row: `Math.min(10, Math.max(1, Math.round((score + 1) / 4 * 10)))`,
-- with the rounding (half up) of the exact quotient; 5 where there is no password.
pub row_strength : Option Text → ℕ
row_strength password = elim (truthy password) [
  | none ↦ 5
  | some p ↦ min 10 (max 1 ((((get_password_strength p).score + 1) * 5 + 1) / 2))
]
