-- ===== src/Password/Log2.antt =====
-- `floor_log2` is the floor of the binary logarithm, and grows with its argument.
use native.Mathlib.Nat.{pow-suc, pow-le-pow_right}
use native.Mathlib.Decide.{dec_le}
use personal_password_manage.Prelude.{
  ℕ, zero, suc, ◌/◌, ◌^◌, ◌≤◌, ◌<◌, ◌≡◌, inl, inr, true, false, arith, ltb, Bool-cases,
}
use personal_password_manage.Password.{log2_within, floor_log2}

log2_within-small : (fuel n : ℕ) → ltb n 2 ≡ true → log2_within (suc fuel) n ≡ 0
unfolding log2_within
log2_within-small fuel n e = rw (e, log2_within)

log2_within-large :
    (fuel n : ℕ) → ltb n 2 ≡ false → log2_within (suc fuel) n ≡ suc (log2_within fuel (n / 2))
unfolding log2_within
log2_within-large fuel n e = rw (e, log2_within)

-- With enough fuel the result brackets a positive number between two powers of two.
log2_within_bounds :
    (fuel n : ℕ)
    → 0 < n
    → n ≤ fuel
    → (2 ^ log2_within fuel n ≤ n) × (n < 2 ^ suc (log2_within fuel n))
log2_within_bounds zero n h k = absurd (omega arith)
log2_within_bounds (suc fuel) n h k = elim (Bool-cases (ltb n 2)) [
  | inl small ↦ rw (log2_within-small fuel n small) (ground arith, ground arith)
  | inr large ↦
      let big : 2 ≤ n = ground arith in
      let l : ℕ = log2_within fuel (n / 2) in
      let ih = log2_within_bounds fuel (n / 2) (omega arith) (omega arith) in
      rw (log2_within-large fuel n large)
        (omega (arith, ih.0, pow-suc 2 l), omega (arith, ih.1, pow-suc 2 l, pow-suc 2 (suc l)))
]

pub floor_log2_bounds : (n : ℕ) → 0 < n → (2 ^ floor_log2 n ≤ n) × (n < 2 ^ suc (floor_log2 n))
unfolding floor_log2
floor_log2_bounds n h = log2_within_bounds n n h (omega arith)

pub le-floor_log2 : (k n : ℕ) → 2 ^ k ≤ n → 0 < n → k ≤ floor_log2 n
le-floor_log2 k n h p = elim (dec_le k (floor_log2 n)) [
  | yes q ↦ q
  | no q ↦ absurd (
      omega (
        arith,
        (floor_log2_bounds n p).1,
        pow-le-pow_right {n = 2} (omega arith) {i = suc (floor_log2 n)} {j = k} (omega arith),
      ))
]

pub floor_log2_mono : (n m : ℕ) → 0 < n → n ≤ m → floor_log2 n ≤ floor_log2 m
floor_log2_mono n m p h =
    le-floor_log2 (floor_log2 n) m (omega (arith, (floor_log2_bounds n p).0)) (omega arith)
