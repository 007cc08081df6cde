-- ===== src/Breach/Scan.antt =====
-- The scan of the monitor page: every item with a password is checked, one after the other.
use personal_password_manage.Prelude.{
  ℕ, ◌+◌, ◌≡◌, List, [], ◌∷◌, ◌++◌, arith, ltb, if◌then◌else◌, Text, filter, is_some, or_else,
  length,
}
use personal_password_manage.Health.{truthy}
use personal_password_manage.Vault.{VaultItem}
use personal_password_manage.Breach.{Counted, counted, threw}

pub record Pwned : Type 0 where
  pub id : Text
  pub title : Text
  pub count : ℕ

pub record PasswordScan : Type 0 where
  pub total : ℕ
  pub scanned : ℕ
  pub pwned : List Pwned

pub data ScanEnd : Type 0 where
  finished : ScanEnd
  stopped : Text → ScanEnd

abbrev pub note_pwned : VaultItem → ℕ → PasswordScan → PasswordScan
note_pwned item count s = record s {
  scanned = s.scanned + 1;
  pwned =
      if ltb 0 count
      then s.pwned ++ record { id = item.id; title = item.title; count = count } ∷ []
      else s.pwned;
}

-- The loop; `check` is the lookup, with the state `S` that it keeps.
unfoldable pub scan_loop :
    {S : Type 0}
    → (Text → S → Counted × S)
    → List VaultItem
    → S
    → PasswordScan
    → ScanEnd × PasswordScan
scan_loop check [] caches s = (finished, s)
scan_loop check (item ∷ items) caches s =
    let (result, next) = check (or_else item.password []) caches in
    elim result [
      | counted count ↦ scan_loop check items next (note_pwned item count s)
      | threw message ↦ (stopped message, s)
    ]

unfoldable pub run_password_scan :
    {S : Type 0} → (Text → S → Counted × S) → S → List VaultItem → ScanEnd × PasswordScan
run_password_scan check caches items =
    let with_passwords = filter (λ (i : VaultItem). is_some (truthy i.password)) items in
    scan_loop check with_passwords caches
      (record { total = length with_passwords; scanned = 0; pwned = [] })

scan_loop-counts :
    {S : Type 0} (check : Text → S → Counted × S) (items : List VaultItem) (caches : S)
    (s t : PasswordScan)
    → scan_loop check items caches s ≡ (finished, t)
    → (t.scanned ≡ s.scanned + length items) × (t.total ≡ s.total)
unfolding scan_loop
scan_loop-counts check [] caches s t h = ground arith
scan_loop-counts {S} check (item ∷ items) caches s t h =
    go (check (or_else item.password []) caches) (λ next s'. scan_loop-counts check items next s' t)
      h
  where
    go :
        (r : Counted × S)
        → ((next : S) (s' : PasswordScan)
            → scan_loop check items next s' ≡ (finished, t)
            → (t.scanned ≡ s'.scanned + length items) × (t.total ≡ s'.total))
        → (elim r.0 [
          | counted count ↦ scan_loop check items r.1 (note_pwned item count s)
          | threw message ↦ (stopped message, s)
        ])
          ≡ (finished, t)
        → (t.scanned ≡ s.scanned + length (item ∷ items)) × (t.total ≡ s.total)
    go (counted count, next) rest e =
        let (a, b) = rest next (note_pwned item count s) e in (omega (arith, a), b)
    go (threw message, next) rest e = cc

-- A scan that is reported as done has looked up every item with a password.
pub run_password_scan-finished :
    {S : Type 0} (check : Text → S → Counted × S) (caches : S) (items : List VaultItem)
    (t : PasswordScan)
    → run_password_scan check caches items ≡ (finished, t)
    → (t.scanned ≡ t.total)
      × (t.total ≡ length (filter (λ (i : VaultItem). is_some (truthy i.password)) items))
unfolding run_password_scan
run_password_scan-finished check caches items t h =
    let (a, b) = scan_loop-counts check _ caches _ t h in (omega (arith, a, b), b)
