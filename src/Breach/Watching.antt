-- ===== src/Breach/Watching.antt =====
-- The e-mail scans of app/monitor/page.tsx: the effect that scans the address of the account, the buttons
-- and the answers.
use personal_password_manage.Prelude.{
  ℕ, ◌+◌, ◌≡◌, ◌≤◌, refl, subst, Bool, true, false, not, ◌&&◌, ◌||◌, ◌⊎◌, inl, inr, Option, none,
  some, List, [], ◌∷◌, ◌++◌, arith, is_empty, if◌then◌else◌, Bool-cases, Text, length,
}
use personal_password_manage.Breach.{trim}
use personal_password_manage.Breach.Email.{
  EmailScan, ScanState, idle, scanning, done, error, EmailPanel, begin_scan, end_scan,
}

-- `pending` are the addresses whose scans are not done, `automatic` counts the scans of the effect.
pub record Watch : Type 0 where
  pub is_locked : Bool
  pub email : Option Text
  pub panel : EmailPanel
  pub pending : List Text
  pub automatic : ℕ

abbrev pub is_scanning : ScanState → Bool
is_scanning scanning = true
is_scanning _ = false

abbrev pub is_idle : ScanState → Bool
is_idle idle = true
is_idle _ = false

unfoldable pub start_scan : Text → Watch → Watch
start_scan target w = record w { panel = begin_scan w.panel; pending = w.pending ++ target ∷ [] }

abbrev pub watched : Watch
watched = record {
  is_locked = true;
  email = none;
  panel = record { email_scan = idle; email_error = none; email_result = none };
  pending = [];
  automatic = 0;
}

-- The effect with the vault's lock and the address of the user.
unfoldable pub scan_account : Bool → Option Text → Watch → Watch
scan_account locked none w = record w { is_locked = locked; email = none }
scan_account locked (some email) w =
    let v : Watch = record w { is_locked = locked; email = some email } in
    if not locked && not (is_empty email) && is_idle w.panel.email_scan
    then record (start_scan email v) { automatic = w.automatic + 1 }
    else v

-- The buttons that scan the address of the account again, and the form with its text, are disabled during
-- a scan.
unfoldable pub scan_again : Text → Watch → Watch
scan_again email w =
    if is_empty email || is_scanning w.panel.email_scan then w else start_scan email w

unfoldable pub submit_email : Text → Watch → Watch
submit_email custom w =
    if is_empty (trim custom) || is_scanning w.panel.email_scan then w else start_scan custom w

-- A scan is done.
unfoldable pub scan_ended : List Text → Text ⊎ EmailScan → Watch → Watch
scan_ended rest result w = record w { panel = end_scan result w.panel; pending = rest }

pub data Reach : Watch → Type 0 where
  shown : Reach watched
  changed :
      {w : Watch}
      → (locked : Bool) (email : Option Text) → Reach w
      → Reach (scan_account locked email w)
  asked : {w : Watch} → (target : Text) → Reach w → Reach (scan_again target w)
  typed : {w : Watch} → (custom : Text) → Reach w → Reach (submit_email custom w)
  ended :
      {w : Watch} (target : Text) (rest : List Text) (result : Text ⊎ EmailScan)
      → w.pending ≡ target ∷ rest
      → Reach w
      → Reach (scan_ended rest result w)

-- One scan waits while the page says so and none otherwise; the effect scans only before any other scan.
IsSingle : ScanState → List Text → ℕ → Type 0
IsSingle idle pending automatic = (pending ≡ []) × (automatic ≡ 0)
IsSingle scanning pending automatic = (length pending ≡ 1) × (automatic ≤ 1)
IsSingle done pending automatic = (pending ≡ []) × (automatic ≤ 1)
IsSingle error pending automatic = (pending ≡ []) × (automatic ≤ 1)

HoldsSingle : Watch → Type 0
unfolding IsSingle
HoldsSingle w = IsSingle w.panel.email_scan w.pending w.automatic

quiet-IsSingle :
    (s : ScanState) (pending : List Text) (automatic : ℕ) (target : Text)
    → is_scanning s ≡ false
    → IsSingle s pending automatic
    → (length (pending ++ target ∷ []) ≡ 1) × (automatic ≤ 1)
unfolding IsSingle
quiet-IsSingle idle pending automatic target h i = rw i.0 (refl, omega (arith, i.1))
quiet-IsSingle scanning pending automatic target h i = cc
quiet-IsSingle done pending automatic target h i = rw i.0 (refl, i.1)
quiet-IsSingle error pending automatic target h i = rw i.0 (refl, i.1)

idle-IsSingle :
    (s : ScanState) (pending : List Text) (automatic : ℕ) (target : Text)
    → is_idle s ≡ true
    → IsSingle s pending automatic
    → (length (pending ++ target ∷ []) ≡ 1) × (automatic + 1 ≤ 1)
unfolding IsSingle
idle-IsSingle idle pending automatic target h i = rw i.0 (refl, omega (arith, i.1))
idle-IsSingle scanning pending automatic target h i = cc
idle-IsSingle done pending automatic target h i = cc
idle-IsSingle error pending automatic target h i = cc

or-right : (a b : Bool) → (a || b) ≡ false → b ≡ false
or-right true b h = cc
or-right false b h = h

and-last : (a b c : Bool) → (a && b && c) ≡ true → c ≡ true
and-last false b c h = cc
and-last true false c h = cc
and-last true true c h = h

stop-IsSingle :
    (s : ScanState) (rest : List Text) (automatic : ℕ) (target : Text) (result : Text ⊎ EmailScan)
    (p : EmailPanel)
    → IsSingle s (target ∷ rest) automatic
    → IsSingle (end_scan result p).email_scan rest automatic
unfolding IsSingle end_scan
stop-IsSingle idle rest automatic target result p h = cc
stop-IsSingle scanning [] automatic target (inl m) p h = (refl, h.1)
stop-IsSingle scanning [] automatic target (inr r) p h = (refl, h.1)
stop-IsSingle scanning (t ∷ rest) automatic target result p h = absurd (omega (arith, h.0))
stop-IsSingle done rest automatic target result p h = cc
stop-IsSingle error rest automatic target result p h = cc

Reach-HoldsSingle : {w : Watch} → Reach w → HoldsSingle w
unfolding HoldsSingle IsSingle scan_account scan_again submit_email scan_ended start_scan begin_scan
Reach-HoldsSingle shown = (refl, refl)
Reach-HoldsSingle (changed locked none r) = Reach-HoldsSingle r
Reach-HoldsSingle (changed {w = w} locked (some email) r) =
    elim (Bool-cases (not locked && not (is_empty email) && is_idle w.panel.email_scan)) [
      | inl on ↦ rw on (
          idle-IsSingle w.panel.email_scan w.pending w.automatic email
            (and-last (not locked) _ _ on) (Reach-HoldsSingle r))
      | inr off ↦ rw off (Reach-HoldsSingle r)
    ]
Reach-HoldsSingle (asked {w = w} email r) =
    elim (Bool-cases (is_empty email || is_scanning w.panel.email_scan)) [
      | inl off ↦ rw off (Reach-HoldsSingle r)
      | inr on ↦ rw on (
          quiet-IsSingle w.panel.email_scan w.pending w.automatic email
            (or-right (is_empty email) _ on) (Reach-HoldsSingle r))
    ]
Reach-HoldsSingle (typed {w = w} custom r) =
    elim (Bool-cases (is_empty (trim custom) || is_scanning w.panel.email_scan)) [
      | inl off ↦ rw off (Reach-HoldsSingle r)
      | inr on ↦ rw on (
          quiet-IsSingle w.panel.email_scan w.pending w.automatic custom
            (or-right (is_empty (trim custom)) _ on) (Reach-HoldsSingle r))
    ]
Reach-HoldsSingle (ended {w = w} target rest result e r) =
    stop-IsSingle w.panel.email_scan rest w.automatic target result w.panel (
      subst (λ (ps : List Text). IsSingle w.panel.email_scan ps w.automatic) e
        (Reach-HoldsSingle r))

IsSingle-length :
    (s : ScanState) (pending : List Text) (automatic : ℕ)
    → IsSingle s pending automatic
    → (length pending ≡ (if is_scanning s then 1 else 0)) × (automatic ≤ 1)
unfolding IsSingle
IsSingle-length idle pending automatic i = rw i.0 (refl, omega (arith, i.1))
IsSingle-length scanning pending automatic i = i
IsSingle-length done pending automatic i = rw i.0 (refl, i.1)
IsSingle-length error pending automatic i = rw i.0 (refl, i.1)

-- However the page is used, at most one scan waits for its answer, one does exactly while the page says that
-- it scans, and the effect has scanned the account's address at most once.
pub Reach-pending :
    {w : Watch}
    → Reach w
    → (length w.pending ≡ (if is_scanning w.panel.email_scan then 1 else 0)) × (w.automatic ≤ 1)
unfolding HoldsSingle
Reach-pending {w = w} r =
    IsSingle-length w.panel.email_scan w.pending w.automatic (Reach-HoldsSingle r)
