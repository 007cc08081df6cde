-- ===== src/Launch/Monad.antt =====
-- The scripts' way to run commands: each step may throw, and what was done before stays done.
use personal_password_manage.Prelude.{ℕ, Bool, true, false, Option, none, some, List, ◌∷◌, Text}

-- `sh`. `docker ps` is with or without `-a`; the other commands of Docker but the first have the name of the
-- container.
pub data Command : Type 0 where
  docker_info : Command
  docker_ps : Bool → Command
  docker_run docker_inspect docker_start pg_isready : Text → Command
  cargo_build npm_build seed_demo : Command

-- `spawnDetached`
pub data Program : Type 0 where
  docker_desktop api web : Program

pub data Deed : Type 0 where
  executed : Command → Deed
  spawned : Program → Deed

pub data Service : Type 0 where
  postgres api_service web_service : Service

-- The messages of the errors.
pub data Failure : Type 0 where
  command_failed : Command → Failure
  no_docker : Failure
  unhealthy : Service → Failure
  postgres_never_ready : Failure

pub data Address : Type 0 where
  api_root api_health web_root login : Address

-- What the scripts use of the machine: a command gives its output or throws, a request gives its status or
-- throws, `now` is in milliseconds.
pub record Host (W : Type 0) : Type 0 where
  pub execute : Command → W → Option Text × W
  pub request : Address → W → Option ℕ × W
  pub port_open : ℕ → W → Bool × W
  pub built : Program → W → Bool
  pub spawn : Program → W → W
  pub sleep : ℕ → W → W
  pub now : W → ℕ

-- The machine, and what was done, the latest first.
pub record Machine (W : Type 0) : Type 0 where
  pub world : W
  pub deeds : List Deed

-- `unfinished` stands for a loop without an end.
pub data Outcome (A : Type 0) : Type 0 where
  done : A → Outcome A
  thrown : Failure → Outcome A
  unfinished : Outcome A

abbrev pub Action : Type 0 → Type 0 → Type 0
Action W A = Machine W → Outcome A × Machine W

module _ {W : Type 0} where
  unfoldable pub pure : {A : Type 0} → A → Action W A
  pure a s = (done a, s)

  unfoldable pub raise : {A : Type 0} → Failure → Action W A
  raise e s = (thrown e, s)

  unfoldable pub diverge : {A : Type 0} → Action W A
  diverge s = (unfinished, s)

  infixl 5 ◌>>=◌ ◌>>◌
  unfoldable pub ◌>>=◌ : {A B : Type 0} → Action W A → (A → Action W B) → Action W B
  ◌>>=◌ m f s =
      let (r, t) = m s in
      elim r [ done a ↦ f a t | thrown e ↦ (thrown e, t) | unfinished ↦ (unfinished, t) ]

  unfoldable pub ◌>>◌ : {A B : Type 0} → Action W A → Action W B → Action W B
  m >> k = m >>= λ _. k

  -- `try { … } catch { … }`
  unfoldable pub rescue : {A : Type 0} → Action W A → Action W A → Action W A
  rescue m k s =
      let (r, t) = m s in
      elim r [ done a ↦ (done a, t) | thrown e ↦ k t | unfinished ↦ (unfinished, t) ]

  -- An `if`: only the branch that is taken runs.
  unfoldable pub branch : {A : Type 0} → Bool → Action W A → Action W A → Action W A
  branch true m k = m
  branch false m k = k

  module _ (host : Host W) where
    abbrev pub record_deed : Deed → W → Machine W → Machine W
    record_deed d w s = record { world = w; deeds = d ∷ s.deeds }

    -- What a command has given to the machine `s`.
    abbrev pub outcome_of : Command → Option Text × W → Machine W → Outcome Text × Machine W
    outcome_of c (r, w) s = elim r [
      | none ↦ (thrown (command_failed c), record_deed (executed c) w s)
      | some out ↦ (done out, record_deed (executed c) w s)
    ]

    unfoldable pub sh : Command → Action W Text
    sh c s = outcome_of c (host.execute c s.world) s

    unfoldable pub spawn_detached : Program → Action W (Unit {0})
    spawn_detached p s = (done tt, record_deed (spawned p) (host.spawn p s.world) s)

    unfoldable pub fetch_status : Address → Action W (Option ℕ)
    fetch_status a s = let (r, w) = host.request a s.world in (done r, record s { world = w })

    unfoldable pub is_open : ℕ → Action W Bool
    is_open port s = let (r, w) = host.port_open port s.world in (done r, record s { world = w })

    unfoldable pub pause : ℕ → Action W (Unit {0})
    pause ms s = (done tt, record s { world = host.sleep ms s.world })

    unfoldable pub time : Action W ℕ
    time s = (done (host.now s.world), s)

    unfoldable pub is_built : Program → Action W Bool
    is_built p s = (done (host.built p s.world), s)
