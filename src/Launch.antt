-- ===== src/Launch.antt =====
-- The launcher scripts/dev.mjs: Postgres in Docker, the API, the web server, the demo account. Docker, cargo,
-- npm, the network and the clock are a record of operations on the state of the machine; to spawn a program
-- does not throw.
pub mod Monad
pub mod Steps
pub mod Ends
pub mod Runs
pub mod Again
pub mod Stopped
use personal_password_manage.Prelude.{
  ℕ, zero, suc, ◌+◌, ◌*◌, Bool, true, false, ◌||◌, ◌&&◌, not, Option, none, some, List, [], ◌∷◌,
  map, ltb, ◌==◌, Text, codes, text_eq, any,
}
use personal_password_manage.Api.{is_ok}
use personal_password_manage.Breach.{split_on, trim}
use personal_password_manage.Launch.Monad.{
  Command, docker_info, docker_ps, docker_run, docker_inspect, docker_start, pg_isready,
  cargo_build, npm_build, seed_demo, Program, docker_desktop, api, web, Service, postgres,
  api_service, web_service, no_docker, unhealthy, postgres_never_ready, Address, api_root,
  api_health, web_root, login, Host, Action, pure, raise, diverge, ◌>>=◌, ◌>>◌, rescue, branch, sh,
  spawn_detached, fetch_status, is_open, pause, time, is_built,
}

-- The arguments of the script.
pub record Flags : Type 0 where
  pub seed : Bool
  pub no_web : Bool
  pub rebuild_web : Bool

-- `process.platform`
pub data Platform : Type 0 where
  win32 darwin other : Platform

abbrev pub container : Text
container = codes "secure-vault-postgres-5433"

-- The names that `docker ps` prints.
abbrev pub names_of : Text → List Text
names_of out = let (l, ls) = split_on b'\n' out in map trim (l ∷ ls)

abbrev pub answers : Option ℕ → Bool
answers none = false
answers (some status) = is_ok status || status == 404 || status == 401

abbrev pub succeeded : Option ℕ → Bool
succeeded none = false
succeeded (some status) = is_ok status

-- Either answer of the sign-in shows that the demo account is there.
abbrev pub admitted : Option ℕ → Bool
admitted none = false
admitted (some status) = is_ok status || status == 202

module _ {W : Type 0} (host : Host W) where
  abbrev pub succeeds : Command → Action W Bool
  succeeds c = rescue (do _ ← sh host c; pure true) (pure false)

  -- A round of a loop until `deadline`, a second each.
  unfoldable pub wait_until : ℕ → Service → Address → ℕ → Action W (Unit {0})
  wait_until zero name url deadline = diverge
  wait_until (suc fuel) name url deadline = do
    t ← time host
    branch (ltb t deadline)
        (do
          r ← fetch_status host url
          branch (answers r) (pure tt) (do pause host 1000; wait_until fuel name url deadline))
        (raise (unhealthy name))

  unfoldable pub wait_for : Service → Address → ℕ → Action W (Unit {0})
  wait_for name url timeout_s = do
    t ← time host
    wait_until (suc timeout_s) name url (t + timeout_s * 1000)

  unfoldable pub poll_docker : ℕ → Action W Bool
  poll_docker zero = pure false
  poll_docker (suc n) = do
    up ← succeeds docker_info
    branch up (pure true) (do pause host 2000; poll_docker n)

  unfoldable pub open_docker : Platform → Action W (Unit {0})
  open_docker win32 = spawn_detached host docker_desktop
  open_docker darwin = spawn_detached host docker_desktop
  open_docker other = pure tt

  unfoldable pub start_docker : Platform → Action W (Unit {0})
  start_docker platform = do
    open_docker platform
    up ← poll_docker 45
    branch up (pure tt) (raise no_docker)

  -- A round each second and a half, until `deadline`.
  unfoldable pub await_postgres : ℕ → ℕ → Action W (Unit {0})
  await_postgres zero deadline = diverge
  await_postgres (suc fuel) deadline = do
    t ← time host
    branch (ltb t deadline)
        (do
          ready ← succeeds (pg_isready container)
          branch ready (pure tt) (do pause host 1500; await_postgres fuel deadline))
        (raise postgres_never_ready)

  unfoldable pub start_container : List Text → Action W (Unit {0})
  start_container running =
      branch (not (any (text_eq container) running))
        (do _ ← sh host (docker_run container); pure tt)
        (do
          status ← sh host (docker_inspect container)
          branch (text_eq (trim status) (codes "running")) (pure tt)
              (do _ ← sh host (docker_start container); pure tt))

  unfoldable pub ensure_postgres : Platform → Action W (Unit {0})
  ensure_postgres platform = do
    docker_ok ← succeeds docker_info
    branch docker_ok (pure tt) (start_docker platform)
    out ← rescue (sh host (docker_ps false)) (pure [])
    start_container (names_of out)
    rescue (wait_for postgres api_root 90) (pure tt)
    t ← time host
    await_postgres 41 (t + 60000)

  unfoldable pub start_api : Action W (Unit {0})
  start_api = do
    exe ← is_built host api
    branch exe (pure tt) (do _ ← sh host cargo_build; pure tt)
    spawn_detached host api
    wait_for api_service api_health 60

  unfoldable pub ensure_api : Action W (Unit {0})
  ensure_api = do
    listening ← is_open host 3001
    branch listening (do r ← fetch_status host api_health; branch (succeeded r) (pure tt) start_api)
        start_api

  unfoldable pub start_web : Flags → Action W (Unit {0})
  start_web flags = do
    has_build ← is_built host web
    branch (not has_build || flags.rebuild_web) (do _ ← sh host npm_build; pure tt) (pure tt)
    spawn_detached host web
    wait_for web_service web_root 60

  unfoldable pub ensure_web : Flags → Action W (Unit {0})
  ensure_web flags =
      branch flags.no_web (pure tt)
        (do listening ← is_open host 3000; branch listening (pure tt) (start_web flags))

  unfoldable pub ensure_seed : Flags → Action W (Unit {0})
  ensure_seed flags = branch (not flags.seed) (pure tt) (do
    r ← fetch_status host login
    branch (admitted r) (pure tt) (do _ ← sh host seed_demo; pure tt))

  -- Whatever is thrown ends the script with exit code 1 and its message.
  unfoldable pub launch : Platform → Flags → Action W (Unit {0})
  launch platform flags = do
    ensure_postgres platform
    ensure_api
    ensure_web flags
    ensure_seed flags
