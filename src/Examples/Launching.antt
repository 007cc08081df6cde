-- ===== src/Examples/Launching.antt =====
-- The launcher on a machine with a container that runs, and on one with a container that was stopped.
use personal_password_manage.Prelude.{
  ℕ, ◌+◌, ◌≡◌, subst, refl, Bool, true, false, Option, none, some, [], ◌∷◌, Text, codes, text_eq,
  any, is_empty, ◌||◌, if◌then◌else◌,
}
use personal_password_manage.Breach.{split_on, trim, trim_start, trim_end}
use personal_password_manage.Launch.Monad.{
  Command, docker_info, docker_ps, docker_run, docker_inspect, docker_start, pg_isready,
  cargo_build, npm_build, seed_demo, executed, Host, Machine, thrown, command_failed, Address,
  api_root, api_health, web_root, login,
}
use personal_password_manage.Launch.{Flags, darwin, container, names_of, launch}
use personal_password_manage.Launch.Stopped.{
  Container, absent, stopped, running, lists, IsDocker, launch-stopped,
}

-- The name of the container is taken, so `docker run` throws.
abbrev output : Bool → Command → Option Text
output up docker_info = some []
output up (docker_ps all) = some (if all || up then container else [])
output up (docker_run name) = none
output up (docker_inspect name) = some (if up then codes "running" else codes "exited")
output up (docker_start name) = some container
output up (pg_isready name) = if up then some [] else none
output up cargo_build = some []
output up npm_build = some []
output up seed_demo = some []

abbrev status : Address → Option ℕ
status api_root = some 404
status api_health = some 200
status web_root = some 200
status login = some 202

-- The state is the time.
abbrev machine : Bool → Host ℕ
machine up = record {
  execute = λ c w. (output up c, w + 100);
  request = λ a w. (if up then status a else none, w + 10);
  port_open = λ n w. (up, w);
  built = λ p w. true;
  spawn = λ p w. w;
  sleep = λ ms w. w + ms;
  now = λ w. w;
}

abbrev flags : Flags
flags = record { seed = true; no_web = false; rebuild_web = false }

abbrev start : Machine ℕ
start = record { world = 5; deeds = [] }

abbrev state : Bool → Text → ℕ → Container
state up name w = if text_eq name container then (if up then running else stopped) else absent

lists_all : (b : Bool) → (b || false) ≡ lists true (if b then stopped else absent)
lists_all true = refl
lists_all false = refl

lists_running : (b : Bool) → false ≡ lists false (if b then stopped else absent)
lists_running true = refl
lists_running false = refl

printed :
    (all : Bool) (name out : Text)
    → is_empty name ≡ false
    → output false (docker_ps all) ≡ some out
    → any (text_eq name) (names_of out)
      ≡ lists all (if text_eq name container then stopped else absent)
unfolding split_on trim trim_start trim_end
printed true name out full e =
    let same : container ≡ out = cc in
    subst
      (λ (o : Text).
        any (text_eq name) (names_of o)
        ≡ lists true (if text_eq name container then stopped else absent))
      same (lists_all (text_eq name container))
printed false [] out full e = absurd (cc full)
printed false (c ∷ name) out full e =
    let same : [] ≡ out = cc in
    subst
      (λ (o : Text).
        any (text_eq (c ∷ name)) (names_of o)
        ≡ lists false (if text_eq (c ∷ name) container then stopped else absent))
      same (lists_running (text_eq (c ∷ name) container))

docker : IsDocker (machine false) (state false)
unfolding split_on trim trim_start trim_end
docker = record {
  info_keeps = λ name w. refl;
  ps_keeps = λ all name w. refl;
  ps_lists = λ all name w out full e. printed all name out full e;
  run_taken = λ name w h. refl;
  run_keeps = λ name w h. refl;
}

launch-stopped_example :
    (u : ℕ) × (state false container u ≡ stopped)
    × (launch (machine false) darwin flags start ≡ (
      thrown (command_failed (docker_run container)),
      record {
        world = u;
        deeds =
            executed (docker_run container)
            ∷ executed (docker_ps false)
            ∷ executed docker_info
            ∷ [];
      },
    ))
launch-stopped_example =
    launch-stopped (machine false) (state false) docker darwin flags start [] refl refl
