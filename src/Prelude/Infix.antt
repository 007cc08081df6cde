-- ===== src/Prelude/Infix.antt =====
-- What `includes` finds, and in whatever case.
use Prim.Native.Nat.{ℕ}
use mathlib.Core.Path.{◌≡◌, refl, sym, ◌∙◌}
use mathlib.Core.Bool.{Bool, true, false}
use mathlib.Core.List.{[], ◌∷◌, ◌++◌, append_assoc}
use native.Mathlib.Omega.{arith}
use personal_password_manage.Prelude.Tests.{◌==◌}
use personal_password_manage.Prelude.Strings.{
  Text, starts_with, includes, Unicode, lower_char, lower_in, lower_from, cased_before, sigma,
  no_sigma, to_lower_case,
}

starts_with-append : (p s : Text) → starts_with p (p ++ s) ≡ true
starts_with-append [] s = refl
starts_with-append (c ∷ p) s = ground (arith, starts_with-append p s)

pub includes-infix : (a p b : Text) → includes p (a ++ p ++ b) ≡ true
unfolding includes
includes-infix [] [] [] = refl
includes-infix [] [] (c ∷ b) = refl
includes-infix [] (c ∷ p) b = ground (arith, starts_with-append p b)
includes-infix (c ∷ a) p b = ground (arith, includes-infix a p b)

-- The small form of a text without a capital sigma, whatever stands around it.
small : Unicode → Text → Text
small u [] = []
small u (c ∷ s) = lower_char u c ++ small u s

before_end : Unicode → Bool → Text → Bool
before_end u before [] = before
before_end u before (c ∷ s) = before_end u (cased_before u before c) s

no_sigma-head :
    (c : ℕ) (m : Text) → no_sigma (c ∷ m) ≡ true → ((c == sigma) ≡ false) × (no_sigma m ≡ true)
unfolding no_sigma
no_sigma-head c m h = ground arith

lower_from-no_sigma :
    (u : Unicode) (before : Bool) (m r : Text)
    → no_sigma m ≡ true
    → lower_from u before (m ++ r) ≡ small u m ++ lower_from u (before_end u before m) r
unfolding lower_from small before_end
lower_from-no_sigma u before [] r h = refl
lower_from-no_sigma u before (c ∷ m) r h =
    let (a, b) = no_sigma-head c m h in
    rw (a, lower_from-no_sigma u (cased_before u before c) m r b)
      (sym (append_assoc (lower_char u c) (small u m) _))

lower_from-small :
    (u : Unicode) (before : Bool) (m : Text) → no_sigma m ≡ true → lower_from u before m ≡ small u m
unfolding lower_from small
lower_from-small u before [] h = refl
lower_from-small u before (c ∷ m) h =
    let (a, b) = no_sigma-head c m h in
    rw (a, lower_from-small u (cased_before u before c) m b) refl

-- The small form of a text holds that of a part without a capital sigma.
lower_from-infix :
    (u : Unicode) (before : Bool) (a m b : Text)
    → no_sigma m ≡ true
    → (x : Text) × (y : Text) × (lower_from u before (a ++ m ++ b) ≡ x ++ small u m ++ y)
unfolding lower_from
lower_from-infix u before [] m b h =
    ([], lower_from u (before_end u before m) b, lower_from-no_sigma u before m b h)
lower_from-infix u before (c ∷ a) m b h =
    let (x, y, e) = lower_from-infix u (cased_before u before c) a m b h in
    let first = lower_in u before c (a ++ m ++ b) in
    (
      first ++ x,
      y,
      rw (e, append_assoc first x (small u m), append_assoc first (x ++ small u m) y) refl,
    )

-- A text that holds the query, in whatever case and without a capital sigma, is found.
pub includes-fold :
    (u : Unicode) (a m b q : Text)
    → no_sigma m ≡ true
    → to_lower_case u m ≡ to_lower_case u q
    → includes (to_lower_case u q) (to_lower_case u (a ++ m ++ b)) ≡ true
unfolding to_lower_case
includes-fold u a m b q h e =
    let (x, y, found) = lower_from-infix u false a m b h in
    let same : lower_from u false q ≡ small u m = sym e ∙ lower_from-small u false m h in
    rw (same, found) (includes-infix x (small u m) y)
