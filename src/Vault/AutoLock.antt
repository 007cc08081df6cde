-- ===== src/Vault/AutoLock.antt =====
-- hooks/useAutoLock.ts: activity moves the time stamp, and a tick of the interval (every ten seconds)
-- locks the vault once the timeout has passed. Times are in milliseconds; the source compares
-- (now - lastActivity) / 1000 / 60 with the minutes of the timeout.
use personal_password_manage.Prelude.{
  ℕ, zero, suc, ◌+◌, ◌-◌, ◌*◌, ◌≤◌, ◌<◌, ◌≡◌, refl, Bool, false, ◌&&◌, arith, ltb, leb,
  if◌then◌else◌, Bool-cases, leb→le, ltb→lt, inl, inr,
}
use personal_password_manage.Vault.{VaultState, lock, update_activity}

abbrev pub tick_period : ℕ
tick_period = 10000

module _ {K : Type 0} where
  pub is_expired : VaultState K → ℕ → Bool
  is_expired s now = ltb 0 s.lock_timeout && leb (s.lock_timeout * 60000) (now - s.last_activity)

  -- The effects do nothing while the vault is locked.
  unfoldable pub tick : ℕ → VaultState K → VaultState K
  unfolding is_expired
  tick now s = if s.is_locked then s else if is_expired s now then lock s else s

  unfoldable pub handle_activity : ℕ → VaultState K → VaultState K
  handle_activity now s = if s.is_locked then s else update_activity now s

  -- Ticks at start + 10 s, start + 20 s, …, with nobody at the keyboard.
  pub idle_ticks : ℕ → ℕ → VaultState K → VaultState K
  idle_ticks zero start s = s
  idle_ticks (suc n) start s = tick (start + suc n * tick_period) (idle_ticks n start s)

  idle_ticks-before :
      (n start : ℕ) (s : VaultState K)
      → s.last_activity ≡ start
      → n < s.lock_timeout * 6
      → idle_ticks n start s ≡ s
  unfolding idle_ticks tick
  idle_ticks-before zero start s e h = refl
  idle_ticks-before (suc n) start s e h =
      rw (idle_ticks-before n start s e (omega arith)) (ground arith)

  idle_ticks-never :
      (n start : ℕ) (s : VaultState K) → s.lock_timeout ≡ 0 → idle_ticks n start s ≡ s
  unfolding idle_ticks tick
  idle_ticks-never zero start s e = refl
  idle_ticks-never (suc n) start s e = rw (idle_ticks-never n start s e) (ground arith)

  tick-locked : (now : ℕ) (s : VaultState K) → tick now (lock s) ≡ lock s
  unfolding tick lock
  tick-locked now s = refl

  tick-expired :
      (n start : ℕ) (s : VaultState K)
      → s.is_locked ≡ false
      → 0 < s.lock_timeout
      → s.last_activity ≡ start
      → suc n ≡ s.lock_timeout * 6
      → tick (start + suc n * tick_period) s ≡ lock s
  unfolding tick
  tick-expired n start s u p e h = ground arith

  idle_ticks-after :
      (k n start : ℕ) (s : VaultState K)
      → s.is_locked ≡ false
      → 0 < s.lock_timeout
      → s.last_activity ≡ start
      → n ≡ k + s.lock_timeout * 6
      → idle_ticks n start s ≡ lock s
  unfolding idle_ticks
  idle_ticks-after zero zero start s u p e h = absurd (omega arith)
  idle_ticks-after zero (suc n) start s u p e h =
      rw (idle_ticks-before n start s e (omega arith)) (tick-expired n start s u p e (omega arith))
  idle_ticks-after (suc k) zero start s u p e h = absurd (omega arith)
  idle_ticks-after (suc k) (suc n) start s u p e h =
      rw (idle_ticks-after k n start s u p e (omega arith)) (tick-locked _ s)

  -- An unlocked vault that nobody touches stays as it is for 6 ticks a minute of its timeout, and is
  -- locked from the last of these ticks on; with a timeout of 0 it is never locked.
  pub idle_ticks_lem :
      (n : ℕ) (s : VaultState K)
      → s.is_locked ≡ false
      → idle_ticks n s.last_activity s
        ≡ (if ltb 0 s.lock_timeout && leb (s.lock_timeout * 6) n then lock s else s)
  idle_ticks_lem n s u = elim (Bool-cases (ltb 0 s.lock_timeout)) [
    | inr never ↦ rw never (idle_ticks-never n s.last_activity s (ground arith))
    | inl timed ↦ elim (Bool-cases (leb (s.lock_timeout * 6) n)) [
      | inl late ↦
          let enough : s.lock_timeout * 6 ≤ n = leb→le _ _ late in
          rw (timed, late)
            (idle_ticks-after (n - s.lock_timeout * 6) n s.last_activity s u (ltb→lt _ _ timed) refl
              (omega arith))
      | inr early ↦ rw (timed, early) (idle_ticks-before n s.last_activity s refl (ground arith))
    ]
  ]
