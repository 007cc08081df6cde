-- ===== src/Launch/Steps.antt =====
-- The steps and the short loops of the launcher end.
use personal_password_manage.Prelude.{ℕ, zero, suc, ◌+◌, ◌≢◌, ◌≤◌, refl, Bool, true, false, arith}
use personal_password_manage.Launch.Monad.{
  Command, Program, Address, Host, Machine, Action, Outcome, done, thrown, unfinished, pure, raise,
  ◌>>=◌, ◌>>◌, rescue, branch, sh, docker_info, spawn_detached, fetch_status, is_open, pause, time,
  is_built, Failure,
}
use personal_password_manage.Launch.{succeeds, poll_docker}

-- Time does not go back, and a sleep takes its time.
pub record IsClock {W : Type 0} (host : Host W) : Type 0 where
  pub execute_later : (c : Command) (w : W) → host.now w ≤ host.now (host.execute c w).1
  pub request_later : (a : Address) (w : W) → host.now w ≤ host.now (host.request a w).1
  pub port_later : (n : ℕ) (w : W) → host.now w ≤ host.now (host.port_open n w).1
  pub spawn_later : (p : Program) (w : W) → host.now w ≤ host.now (host.spawn p w)
  pub sleep_later : (ms : ℕ) (w : W) → host.now w + ms ≤ host.now (host.sleep ms w)

module _ {W : Type 0} (host : Host W) (clock : IsClock host) where
  -- An action ends, with a result or with an error, and not before it began.
  pub record Ends {A : Type 0} (m : Action W A) : Type 0 where
    pub ended : (s : Machine W) → (m s).0 ≢ unfinished
    pub later : (s : Machine W) → host.now s.world ≤ host.now (m s).1.world

  pub Ends-pure : {A : Type 0} (a : A) → Ends (pure a)
  unfolding pure
  Ends-pure a = record { ended = λ s. cc; later = λ s. omega arith }

  pub Ends-raise : {A : Type 0} (e : Failure) → Ends {A = A} (raise e)
  unfolding raise
  Ends-raise e = record { ended = λ s. cc; later = λ s. omega arith }

  abbrev pub Since : {A : Type 0} → ℕ → Outcome A → Machine W → Type 0
  Since start r t = (r ≢ unfinished) × (start ≤ host.now t.world)

  abbrev pub SinceBoth : (A : Type 0) → ℕ → Outcome A × Machine W → Type 0
  SinceBoth A start p = Since start p.0 p.1

  bound :
      {A B : Type 0} (r : Outcome A) (t : Machine W) (f : A → Action W B) (start : ℕ)
      → Since start r t
      → ((a : A) → Ends (f a))
      → SinceBoth B start
          (elim r [ done a ↦ f a t | thrown e ↦ (thrown e, t) | unfinished ↦ (unfinished, t) ])
  bound (done a) t f start h k = ((k a).ended t, omega (arith, h.1, (k a).later t))
  bound (thrown e) t f start h k = (cc, h.1)
  bound unfinished t f start h k = absurd (h.0 refl)

  tried :
      {A : Type 0} (r : Outcome A) (t : Machine W) (k : Action W A) (start : ℕ)
      → Since start r t
      → Ends k
      → SinceBoth A start
          (elim r [ done a ↦ (done a, t) | thrown e ↦ k t | unfinished ↦ (unfinished, t) ])
  tried (done a) t k start h j = (cc, h.1)
  tried (thrown e) t k start h j = (j.ended t, omega (arith, h.1, j.later t))
  tried unfinished t k start h j = absurd (h.0 refl)

  pub Ends-bind :
      {A B : Type 0} (m : Action W A) (f : A → Action W B)
      → Ends m
      → ((a : A) → Ends (f a))
      → Ends (m >>= f)
  unfolding ◌>>=◌
  Ends-bind {B = B} m f h k =
      let all : (s : Machine W) → SinceBoth B (host.now s.world) ((m >>= f) s) =
        λ s. bound (m s).0 (m s).1 f (host.now s.world) (h.ended s, h.later s) k in
      record { ended = λ s. (all s).0; later = λ s. (all s).1 }

  pub Ends-then : {A B : Type 0} (m : Action W A) (k : Action W B) → Ends m → Ends k → Ends (m >> k)
  unfolding ◌>>◌
  Ends-then m k h j = Ends-bind m (λ _. k) h (λ _. j)

  pub Ends-rescue : {A : Type 0} (m k : Action W A) → Ends m → Ends k → Ends (rescue m k)
  unfolding rescue
  Ends-rescue {A = A} m k h j =
      let all : (s : Machine W) → SinceBoth A (host.now s.world) (rescue m k s) =
        λ s. tried (m s).0 (m s).1 k (host.now s.world) (h.ended s, h.later s) j in
      record { ended = λ s. (all s).0; later = λ s. (all s).1 }

  pub Ends-branch :
      {A : Type 0} (b : Bool) (m k : Action W A) → Ends m → Ends k → Ends (branch b m k)
  unfolding branch
  Ends-branch true m k h j = h
  Ends-branch false m k h j = j

  pub Ends-sh : (c : Command) → Ends (sh host c)
  unfolding sh
  Ends-sh c = record {
    ended = λ s. ground arith;
    later = λ s. ground (arith, clock.execute_later c s.world);
  }

  pub Ends-spawn : (p : Program) → Ends (spawn_detached host p)
  unfolding spawn_detached
  Ends-spawn p = record { ended = λ s. cc; later = λ s. clock.spawn_later p s.world }

  pub Ends-fetch : (a : Address) → Ends (fetch_status host a)
  unfolding fetch_status
  Ends-fetch a = record { ended = λ s. cc; later = λ s. clock.request_later a s.world }

  pub Ends-open : (n : ℕ) → Ends (is_open host n)
  unfolding is_open
  Ends-open n = record { ended = λ s. cc; later = λ s. clock.port_later n s.world }

  pub Ends-pause : (ms : ℕ) → Ends (pause host ms)
  unfolding pause
  Ends-pause ms = record {
    ended = λ s. cc;
    later = λ s. omega (arith, clock.sleep_later ms s.world);
  }

  pub Ends-time : Ends (time host)
  unfolding time
  Ends-time = record { ended = λ s. cc; later = λ s. omega arith }

  pub Ends-built : (p : Program) → Ends (is_built host p)
  unfolding is_built
  Ends-built p = record { ended = λ s. cc; later = λ s. omega arith }

  pub Ends-succeeds : (c : Command) → Ends (succeeds host c)
  Ends-succeeds c =
      Ends-rescue _ _ (Ends-bind (sh host c) _ (Ends-sh c) (λ out. Ends-pure true))
        (Ends-pure false)

  pub Ends-poll_docker : (n : ℕ) → Ends (poll_docker host n)
  unfolding poll_docker
  Ends-poll_docker zero = Ends-pure false
  Ends-poll_docker (suc n) =
      Ends-bind (succeeds host docker_info) _ (Ends-succeeds docker_info) (λ up.
        Ends-branch up _ _ (Ends-pure true)
          (Ends-then (pause host 2000) _ (Ends-pause 2000) (Ends-poll_docker n)))

  pub Ends-run : (c : Command) → Ends (do _ ← sh host c; pure tt)
  Ends-run c = Ends-bind (sh host c) _ (Ends-sh c) (λ out. Ends-pure tt)
