-- ===== src/Launch/Stopped.antt =====
-- The launcher on a machine whose container exists and does not run: what Docker documents of its containers,
-- and where the script ends.
use personal_password_manage.Prelude.{
  ◌≡◌, ◌≢◌, refl, ap, ◌∙◌, Bool, true, false, Option, none, some, [], ◌∷◌, Text, any, text_eq,
  is_empty,
}
use personal_password_manage.Breach.{split_on, trim, trim_start, trim_end}
use personal_password_manage.Launch.Monad.{
  docker_info, docker_ps, docker_run, executed, Host, Machine, done, thrown, command_failed, pure,
  rescue, branch, record_deed, sh,
}
use personal_password_manage.Launch.{
  Flags, Platform, container, names_of, succeeds, start_container, ensure_postgres, launch,
}
use personal_password_manage.Launch.Runs.{
  >>=-done, >>=-thrown, >>-done, >>-thrown, rescue-done, rescue-thrown, sh-some, sh-none,
  succeeds-some,
}

pub data Container : Type 0 where
  absent stopped running : Container

-- Whether `docker ps` lists a container; the Boolean says whether it has `-a`.
abbrev pub lists : Bool → Container → Bool
lists all absent = false
lists all stopped = all
lists all running = true

-- Docker, with the container of a name on each machine: `docker info` and `docker ps` change no container;
-- `docker ps` prints the names of those that run, with `-a` of all; `docker run` throws where the name is
-- taken, and leaves that container as it is.
pub record IsDocker {W : Type 0} (host : Host W) (state : Text → W → Container) : Type 0 where
  pub info_keeps : (name : Text) (w : W) → state name (host.execute docker_info w).1 ≡ state name w
  pub ps_keeps :
      (all : Bool) (name : Text) (w : W)
      → state name (host.execute (docker_ps all) w).1 ≡ state name w
  pub ps_lists :
      (all : Bool) (name : Text) (w : W) (out : Text)
      → is_empty name ≡ false
      → (host.execute (docker_ps all) w).0 ≡ some out
      → any (text_eq name) (names_of out) ≡ lists all (state name w)
  pub run_taken :
      (name : Text) (w : W) → state name w ≢ absent → (host.execute (docker_run name) w).0 ≡ none
  pub run_keeps :
      (name : Text) (w : W)
      → state name w ≢ absent
      → state name (host.execute (docker_run name) w).1 ≡ state name w

module _ {W : Type 0} (host : Host W) (state : Text → W → Container)
    (docker : IsDocker host state) where
  -- What the script takes for the output of `docker ps`: none where it throws.
  abbrev listed : Option Text → Text
  listed none = []
  listed (some out) = out

  ps_listed :
      (r : Option Text) (s : Machine W) (v : W)
      → host.execute (docker_ps false) s.world ≡ (r, v)
      → rescue (sh host (docker_ps false)) (pure []) s
        ≡ (done (listed r), record_deed host (executed (docker_ps false)) v s)
  unfolding pure
  ps_listed none s v e =
      rescue-thrown (sh host (docker_ps false)) _ s _ _ (sh-none host (docker_ps false) s v e)
  ps_listed (some out) s v e =
      rescue-done (sh host (docker_ps false)) _ s _ out (sh-some host (docker_ps false) s out v e)

  -- A container that does not run is not among them.
  stopped_unlisted :
      (r : Option Text) (w : W)
      → (host.execute (docker_ps false) w).0 ≡ r
      → state container w ≡ stopped
      → any (text_eq container) (names_of (listed r)) ≡ false
  unfolding split_on trim trim_start trim_end
  stopped_unlisted none w e h = refl
  stopped_unlisted (some out) w e h =
      docker.ps_lists false container w out refl e ∙ ap (lists false) h

  -- Where Docker answers and the container of the script is there and stopped, `docker ps` without `-a` does
  -- not list it, so the script runs `docker run` under the name that is taken: the launcher ends with that
  -- error, starts nothing, and the container is still stopped.
  pub launch-stopped :
      (platform : Platform) (flags : Flags) (s : Machine W) (out : Text)
      → (host.execute docker_info s.world).0 ≡ some out
      → state container s.world ≡ stopped
      → (u : W) × (state container u ≡ stopped)
        × (launch host platform flags s ≡ (
          thrown (command_failed (docker_run container)),
          record {
            world = u;
            deeds =
                executed (docker_run container)
                ∷ executed (docker_ps false)
                ∷ executed docker_info
                ∷ s.deeds;
          },
        ))
  unfolding launch ensure_postgres start_container branch pure
  launch-stopped platform flags s out info still =
      let w = (host.execute docker_info s.world).1 in
      let s1 : Machine W = record_deed host (executed docker_info) w s in
      let here : state container w ≡ stopped = docker.info_keeps container s.world ∙ still in
      let (r, v) = host.execute (docker_ps false) w in
      let s2 : Machine W = record_deed host (executed (docker_ps false)) v s1 in
      let there : state container v ≡ stopped = docker.ps_keeps false container w ∙ here in
      let taken : state container v ≢ absent = λ e. cc in
      let u = (host.execute (docker_run container) v).1 in
      let s3 : Machine W = record_deed host (executed (docker_run container)) u s2 in
      let refused : host.execute (docker_run container) v ≡ (none, u) =
        ap (λ (x : Option Text). (x, u)) (docker.run_taken container v taken) in
      let created : start_container host (names_of (listed r)) s2
          ≡ (thrown (command_failed (docker_run container)), s3) =
        rw (stopped_unlisted r w refl here) (
          >>=-thrown (sh host (docker_run container)) _ s2 s3 _
            (sh-none host (docker_run container) s2 u refused)) in
      (
        u,
        docker.run_keeps container v taken ∙ there,
        >>-thrown (ensure_postgres host platform) _ s s3 _ (
            >>=-done (succeeds host docker_info) _ s s1 true
              (succeeds-some host docker_info s out w (ap (λ (x : Option Text). (x, w)) info))
            ∙ >>-done (pure tt) _ s1 s1 tt refl
            ∙ >>=-done (rescue (sh host (docker_ps false)) (pure [])) _ s1 s2 (listed r)
                (ps_listed r s1 v refl)
            ∙ >>-thrown (start_container host (names_of (listed r))) _ s2 s3 _ created),
      )
