-- ===== src/Launch/Ends.antt =====
-- The launcher ends.
use personal_password_manage.Prelude.{
  ℕ, zero, suc, ◌+◌, ◌*◌, ◌≡◌, sym, ◌≢◌, ◌≤◌, refl, ap, subst, inl, inr, Bool, true, false, Option,
  none, some, List, [], arith, ltb, Bool-cases, Text,
}
use personal_password_manage.Launch.Monad.{
  Command, Service, Address, Host, Machine, Action, Outcome, done, unfinished, pure, raise, ◌>>=◌,
  ◌>>◌, rescue, branch, sh, postgres, api_service, web_service, no_docker, api_root, api_health,
  web_root, login, docker_info, docker_ps, docker_run, docker_inspect, docker_start, pg_isready,
  cargo_build, npm_build, seed_demo, docker_desktop, api, web, record_deed, outcome_of, executed,
  fetch_status, pause, time,
}
use personal_password_manage.Launch.{
  names_of, container, Flags, Platform, win32, darwin, other, answers, succeeds, wait_until,
  wait_for, open_docker, start_docker, await_postgres, start_container, ensure_postgres, start_api,
  ensure_api, start_web, ensure_web, ensure_seed, launch,
}
use personal_password_manage.Launch.Steps.{
  IsClock, Ends, Ends-bind, Ends-branch, Ends-built, Ends-fetch, Ends-open, Ends-poll_docker,
  Ends-pure, Ends-raise, Ends-rescue, Ends-run, Ends-sh, Ends-spawn, Ends-succeeds, Ends-then,
  SinceBoth,
}

module _ {W : Type 0} (host : Host W) (clock : IsClock host) where
  -- A round that goes on has slept, so as many rounds as seconds are left reach the deadline.
  wait_until-since :
      (n : ℕ) (name : Service) (url : Address) (deadline : ℕ) (s : Machine W)
      → deadline ≤ host.now s.world + n * 1000
      → SinceBoth host clock
          (Unit {0})
          (host.now s.world)
          (wait_until host (suc n) name url deadline s)
  unfolding wait_until ◌>>=◌ ◌>>◌ branch time fetch_status pause pure raise
  wait_until-since zero name url deadline s h =
      let late : ltb (host.now s.world) deadline ≡ false = ground (arith, h) in
      rw late (cc, omega arith)
  wait_until-since (suc n) name url deadline s h =
      elim (Bool-cases (ltb (host.now s.world) deadline)) [
        | inr late ↦ rw late (cc, omega arith)
        | inl early ↦ elim (Bool-cases (answers (host.request url s.world).0)) [
          | inl up ↦ rw (early, up) (cc, clock.request_later url s.world)
          | inr down ↦
              let w = (host.request url s.world).1 in
              let asked = clock.request_later url s.world in
              let slept = clock.sleep_later 1000 w in
              let rest =
                wait_until-since n name url deadline (record s { world = host.sleep 1000 w })
                  (omega (arith, h, asked, slept)) in
              rw (early, down) (rest.0, omega (arith, asked, slept, rest.1))
        ]
      ]

  Ends-wait_for :
      (name : Service) (url : Address) (timeout_s : ℕ)
      → Ends host clock (wait_for host name url timeout_s)
  unfolding wait_for ◌>>=◌ time
  Ends-wait_for name url timeout_s =
      let all : (s : Machine W)
          → SinceBoth host clock (Unit {0}) (host.now s.world)
              (wait_for host name url timeout_s s) =
        λ s.
          wait_until-since timeout_s name url (host.now s.world + timeout_s * 1000) s
            (omega arith) in
      record { ended = λ s. (all s).0; later = λ s. (all s).1 }

  abbrev is_some : Option Text → Bool
  is_some none = false
  is_some (some out) = true

  succeeds-outcome :
      (r : Option Text) (c : Command) (w : W) (s : Machine W)
      → host.execute c s.world ≡ (r, w)
      → succeeds host c s ≡ (done (is_some r), record_deed host (executed c) w s)
  unfolding rescue ◌>>=◌ sh pure
  succeeds-outcome none c w s e =
      ap
        (λ (p : Option Text × W).
          rescue ((λ (x : Machine W). outcome_of host c p s) >>= (λ out. pure true)) (pure false) s)
        e
  succeeds-outcome (some out) c w s e =
      ap
        (λ (p : Option Text × W).
          rescue ((λ (x : Machine W). outcome_of host c p s) >>= (λ out. pure true)) (pure false) s)
        e

  succeeds-done :
      (c : Command) (s : Machine W)
      → (b : Bool) × (t : Machine W) × (succeeds host c s ≡ (done b, t))
        × (host.now s.world ≤ host.now t.world)
  succeeds-done c s =
      let (r, w) = host.execute c s.world in
      (
        is_some r,
        record_deed host (executed c) w s,
        succeeds-outcome r c w s refl,
        clock.execute_later c s.world,
      )

  await_postgres-rest :
      (b : Bool) (n deadline : ℕ) (s t : Machine W)
      → host.now s.world ≤ host.now t.world
      → (let u = record t { world = host.sleep 1500 t.world } in
          SinceBoth host clock (Unit {0}) (host.now u.world) (await_postgres host n deadline u))
      → SinceBoth host clock
          (Unit {0})
          (host.now s.world)
          (branch b (pure tt) (do pause host 1500; await_postgres host n deadline) t)
  unfolding ◌>>=◌ ◌>>◌ branch pause pure
  await_postgres-rest true n deadline s t h rest = (cc, h)
  await_postgres-rest false n deadline s t h rest =
      (rest.0, omega (arith, h, rest.1, clock.sleep_later 1500 t.world))

  await_postgres-since :
      (n : ℕ) (deadline : ℕ) (s : Machine W)
      → deadline ≤ host.now s.world + n * 1500
      → SinceBoth host clock (Unit {0}) (host.now s.world) (await_postgres host (suc n) deadline s)
  unfolding await_postgres ◌>>=◌ branch time raise
  await_postgres-since zero deadline s h =
      let late : ltb (host.now s.world) deadline ≡ false = ground (arith, h) in
      rw late (cc, omega arith)
  await_postgres-since (suc n) deadline s h =
      let (b, t, e, l) = succeeds-done (pg_isready container) s in
      elim (Bool-cases (ltb (host.now s.world) deadline)) [
        | inr late ↦ rw late (cc, omega arith)
        | inl early ↦
            let rest =
              await_postgres-since n deadline (record t { world = host.sleep 1500 t.world })
                (omega (arith, h, l, clock.sleep_later 1500 t.world)) in
            let go : Bool → Action W (Unit {0}) = λ ready.
              branch ready (pure tt) (do pause host 1500; await_postgres host (suc n) deadline) in
            let tried : SinceBoth host clock (Unit {0}) (host.now s.world)
                ((succeeds host (pg_isready container) >>= go) s) =
              subst
                (λ (p : Outcome Bool × Machine W).
                  SinceBoth host clock (Unit {0}) (host.now s.world)
                    (((λ (x : Machine W). p) >>= go) s))
                (sym e) (await_postgres-rest b (suc n) deadline s t l rest) in
            rw early tried
      ]

  Ends-await_postgres : Ends host clock (do t ← time host; await_postgres host 41 (t + 60000))
  unfolding ◌>>=◌ time
  Ends-await_postgres =
      let all : (s : Machine W)
          → SinceBoth host clock (Unit {0}) (host.now s.world)
              (await_postgres host 41 (host.now s.world + 60000) s) =
        λ s. await_postgres-since 40 (host.now s.world + 60000) s (omega arith) in
      record { ended = λ s. (all s).0; later = λ s. (all s).1 }

  Ends-open_docker : (platform : Platform) → Ends host clock (open_docker host platform)
  unfolding open_docker
  Ends-open_docker win32 = Ends-spawn host clock docker_desktop
  Ends-open_docker darwin = Ends-spawn host clock docker_desktop
  Ends-open_docker other = Ends-pure host clock tt

  Ends-start_docker : (platform : Platform) → Ends host clock (start_docker host platform)
  unfolding start_docker
  Ends-start_docker platform = Ends-then host clock _ _ (Ends-open_docker platform) (
      Ends-bind host clock _ _ (Ends-poll_docker host clock 45) (λ up.
        Ends-branch host clock up _ _ (Ends-pure host clock tt) (Ends-raise host clock no_docker)))

  Ends-start_container : (running : List Text) → Ends host clock (start_container host running)
  unfolding start_container
  Ends-start_container running =
      Ends-branch host clock _ _ _ (Ends-run host clock (docker_run container)) (
        Ends-bind host clock _ _ (Ends-sh host clock (docker_inspect container)) (λ status.
          Ends-branch host clock _ _ _ (Ends-pure host clock tt)
            (Ends-run host clock (docker_start container))))

  Ends-ensure_postgres : (platform : Platform) → Ends host clock (ensure_postgres host platform)
  unfolding ensure_postgres
  Ends-ensure_postgres platform =
      Ends-bind host clock _ _ (Ends-succeeds host clock docker_info) (λ docker_ok.
        Ends-then host clock _ _
          (Ends-branch host clock docker_ok _ _ (Ends-pure host clock tt)
            (Ends-start_docker platform))
          (Ends-bind host clock _ _
            (Ends-rescue host clock _ _ (Ends-sh host clock (docker_ps false))
              (Ends-pure host clock []))
            (λ out. Ends-then host clock _ _ (Ends-start_container (names_of out)) (
              Ends-then host clock _ _
                (Ends-rescue host clock _ _ (Ends-wait_for postgres api_root 90)
                  (Ends-pure host clock tt))
                Ends-await_postgres))))

  Ends-start_api : Ends host clock (start_api host)
  unfolding start_api
  Ends-start_api = Ends-bind host clock _ _ (Ends-built host clock api) (λ exe.
      Ends-then host clock _ _
        (Ends-branch host clock exe _ _ (Ends-pure host clock tt) (Ends-run host clock cargo_build))
        (Ends-then host clock _ _ (Ends-spawn host clock api)
          (Ends-wait_for api_service api_health 60)))

  Ends-ensure_api : Ends host clock (ensure_api host)
  unfolding ensure_api
  Ends-ensure_api = Ends-bind host clock _ _ (Ends-open host clock 3001) (λ listening.
      Ends-branch host clock listening _ _
        (Ends-bind host clock _ _ (Ends-fetch host clock api_health)
          (λ r. Ends-branch host clock _ _ _ (Ends-pure host clock tt) Ends-start_api))
        Ends-start_api)

  Ends-ensure_web : (flags : Flags) → Ends host clock (ensure_web host flags)
  unfolding ensure_web start_web
  Ends-ensure_web flags = Ends-branch host clock flags.no_web _ _ (Ends-pure host clock tt) (
      Ends-bind host clock _ _ (Ends-open host clock 3000) (λ listening.
        Ends-branch host clock listening _ _ (Ends-pure host clock tt) (
          Ends-bind host clock _ _ (Ends-built host clock web) (λ has_build.
            Ends-then host clock _ _
              (Ends-branch host clock _ _ _ (Ends-run host clock npm_build)
                (Ends-pure host clock tt))
              (Ends-then host clock _ _ (Ends-spawn host clock web)
                (Ends-wait_for web_service web_root 60))))))

  Ends-ensure_seed : (flags : Flags) → Ends host clock (ensure_seed host flags)
  unfolding ensure_seed
  Ends-ensure_seed flags = Ends-branch host clock _ _ _ (Ends-pure host clock tt) (
      Ends-bind host clock _ _ (Ends-fetch host clock login) (λ r.
        Ends-branch host clock _ _ _ (Ends-pure host clock tt) (Ends-run host clock seed_demo)))

  -- The launcher ends on every machine whose time does not go back and whose sleeps take their time, with a
  -- result or with the error that is shown: its rounds are enough for its deadlines.
  pub launch-ends :
      (platform : Platform) (flags : Flags) (s : Machine W)
      → ((launch host platform flags s).0 ≢ unfinished)
        × (host.now s.world ≤ host.now (launch host platform flags s).1.world)
  unfolding launch
  launch-ends platform flags s =
      let whole = Ends-then host clock _ _ (Ends-ensure_postgres platform) (
        Ends-then host clock _ _ Ends-ensure_api
          (Ends-then host clock _ _ (Ends-ensure_web flags) (Ends-ensure_seed flags))) in
      (whole.ended s, whole.later s)
