-- ===== src/Launch/Again.antt =====
-- scripts/dev.mjs where everything is up.
use personal_password_manage.Prelude.{
  ℕ, ◌+◌, ◌*◌, ◌≡◌, refl, ◌∙◌, Bool, true, false, Option, some, [], ◌∷◌, arith, inl, inr,
  Bool-cases, ltb, Text, codes, any, text_eq,
}
use personal_password_manage.Breach.{trim}
use personal_password_manage.Launch.Monad.{
  docker_info, docker_ps, docker_inspect, pg_isready, executed, postgres, api_root, api_health,
  login, Host, Machine, Action, pause, done, pure, ◌>>=◌, ◌>>◌, rescue, branch, record_deed, sh,
  fetch_status, is_open, time,
}
use personal_password_manage.Launch.{
  Flags, Platform, container, names_of, answers, succeeded, admitted, succeeds, wait_until,
  wait_for, await_postgres, start_container, ensure_postgres, ensure_api, ensure_web, ensure_seed,
  launch,
}
use personal_password_manage.Launch.Runs.{>>=-done, >>-done, rescue-done, sh-some, succeeds-some}

-- What stays up and answers: `Up` holds before and after each question.
pub record Serving {W : Type 0} (host : Host W) (Up : W → Type 0) : Type 0 where
  pub info :
      (w : W) → Up w → (out : Text) × (v : W) × Up v × (host.execute docker_info w ≡ (some out, v))
  pub ps :
      (w : W)
      → Up w
      → (out : Text) × (v : W) × Up v
        × (host.execute (docker_ps false) w ≡ (some out, v))
        × (any (text_eq container) (names_of out) ≡ true)
  pub inspect :
      (w : W)
      → Up w
      → (out : Text) × (v : W) × Up v
        × (host.execute (docker_inspect container) w ≡ (some out, v))
        × (text_eq (trim out) (codes "running") ≡ true)
  pub isready :
      (w : W)
      → Up w
      → (out : Text) × (v : W) × Up v × (host.execute (pg_isready container) w ≡ (some out, v))
  pub root :
      (w : W)
      → Up w
      → (r : Option ℕ) × (v : W) × Up v × (host.request api_root w ≡ (r, v)) × (answers r ≡ true)
  pub health :
      (w : W)
      → Up w
      → (r : Option ℕ) × (v : W) × Up v
        × (host.request api_health w ≡ (r, v))
        × (succeeded r ≡ true)
  pub signed_in :
      (w : W)
      → Up w
      → (r : Option ℕ) × (v : W) × Up v × (host.request login w ≡ (r, v)) × (admitted r ≡ true)
  pub listening : (n : ℕ) (w : W) → Up w → (v : W) × Up v × (host.port_open n w ≡ (true, v))

module _ {W : Type 0} (host : Host W) (Up : W → Type 0) (serving : Serving host Up) where
  wait_for-up :
      (s : Machine W) (r : Option ℕ) (w : W)
      → host.request api_root s.world ≡ (r, w)
      → answers r ≡ true
      → wait_for host postgres api_root 90 s ≡ (done tt, record s { world = w })
  unfolding wait_for wait_until ◌>>=◌ time branch fetch_status pure
  wait_for-up s r w e answered =
      let early : ltb (host.now s.world) (host.now s.world + 90 * 1000) ≡ true = ground arith in
      rw (early, e, answered) refl

  await_postgres-up :
      (s : Machine W) (out : Text) (w : W)
      → host.execute (pg_isready container) s.world ≡ (some out, w)
      → (do t ← time host; await_postgres host 41 (t + 60000)) s
        ≡ (done tt, record_deed host (executed (pg_isready container)) w s)
  unfolding await_postgres ◌>>=◌ time branch pure
  await_postgres-up s out w e =
      let early : ltb (host.now s.world) (host.now s.world + 60000) ≡ true = ground arith in
      let go : Bool → Action W (Unit {0}) = λ ready.
        branch ready (pure tt)
          (do pause host 1500; await_postgres host 40 (host.now s.world + 60000)) in
      let first : (succeeds host (pg_isready container) >>= go) s
          ≡ (done tt, record_deed host (executed (pg_isready container)) w s) =
        >>=-done (succeeds host (pg_isready container)) go s _ true
          (succeeds-some host (pg_isready container) s out w e) in
      rw early first

  ensure_postgres-up :
      (platform : Platform) (s : Machine W)
      → Up s.world
      → (v : W) × Up v
        × (ensure_postgres host platform s ≡ (
          done tt,
          record {
            world = v;
            deeds =
                executed (pg_isready container)
                ∷ executed (docker_inspect container)
                ∷ executed (docker_ps false)
                ∷ executed docker_info
                ∷ s.deeds;
          },
        ))
  unfolding ensure_postgres start_container branch pure
  ensure_postgres-up platform s up =
      let (out, w1, up1, e1) = serving.info s.world up in
      let s1 : Machine W = record_deed host (executed docker_info) w1 s in
      let (names, w2, up2, e2, listed) = serving.ps w1 up1 in
      let s2 : Machine W = record_deed host (executed (docker_ps false)) w2 s1 in
      let (status, w3, up3, e3, running) = serving.inspect w2 up2 in
      let s3 : Machine W = record_deed host (executed (docker_inspect container)) w3 s2 in
      let (r, w4, up4, e4, answered) = serving.root w3 up3 in
      let s4 : Machine W = record s3 { world = w4 } in
      let (ready, w5, up5, e5) = serving.isready w4 up4 in
      let s5 : Machine W = record_deed host (executed (pg_isready container)) w5 s4 in
      let started : start_container host (names_of names) s2 ≡ (done tt, s3) = rw listed (
        >>=-done (sh host (docker_inspect container)) _ s2 s3 status
          (sh-some host (docker_inspect container) s2 status w3 e3)
        ∙ rw running refl) in
      (
        w5,
        up5,
        >>=-done (succeeds host docker_info) _ s s1 true
              (succeeds-some host docker_info s out w1 e1)
            ∙ >>-done (pure tt) _ s1 s1 tt refl
            ∙ >>=-done (rescue (sh host (docker_ps false)) (pure [])) _ s1 s2 names (
                rescue-done (sh host (docker_ps false)) _ s1 s2 names
                  (sh-some host (docker_ps false) s1 names w2 e2))
            ∙ >>-done (start_container host (names_of names)) _ s2 s3 tt started
            ∙ >>-done _ _ s3 s4 tt (
                rescue-done (wait_for host postgres api_root 90) _ s3 s4 tt
                  (wait_for-up s3 r w4 e4 answered))
            ∙ await_postgres-up s4 ready w5 e5,
      )

  ensure_api-up :
      (s : Machine W)
      → Up s.world
      → (v : W) × Up v × (ensure_api host s ≡ (done tt, record s { world = v }))
  unfolding ensure_api ◌>>=◌ is_open branch fetch_status pure
  ensure_api-up s up =
      let (w1, up1, e1) = serving.listening 3001 s.world up in
      let (r, w2, up2, e2, healthy) = serving.health w1 up1 in (w2, up2, rw (e1, e2, healthy) refl)

  ensure_web-up :
      (flags : Flags) (s : Machine W)
      → Up s.world
      → (v : W) × Up v × (ensure_web host flags s ≡ (done tt, record s { world = v }))
  unfolding ensure_web ◌>>=◌ is_open branch pure
  ensure_web-up flags s up =
      let (w, up1, e) = serving.listening 3000 s.world up in
      elim (Bool-cases flags.no_web) [
        | inl without ↦ (s.world, up, rw without refl)
        | inr wanted ↦ (w, up1, rw (wanted, e) refl)
      ]

  ensure_seed-up :
      (flags : Flags) (s : Machine W)
      → Up s.world
      → (v : W) × Up v × (ensure_seed host flags s ≡ (done tt, record s { world = v }))
  unfolding ensure_seed ◌>>=◌ branch fetch_status pure
  ensure_seed-up flags s up =
      let (r, w, up1, e, there) = serving.signed_in s.world up in
      elim (Bool-cases flags.seed) [
        | inl wanted ↦ (w, up1, rw (wanted, e, there) refl)
        | inr without ↦ (s.world, up, rw without refl)
      ]

  -- Where everything is up, the launcher ends with success and only asks: it executes four questions, and
  -- builds, creates, starts and seeds nothing.
  pub launch-again :
      (platform : Platform) (flags : Flags) (s : Machine W)
      → Up s.world
      → (v : W) × Up v
        × (launch host platform flags s ≡ (
          done tt,
          record {
            world = v;
            deeds =
                executed (pg_isready container)
                ∷ executed (docker_inspect container)
                ∷ executed (docker_ps false)
                ∷ executed docker_info
                ∷ s.deeds;
          },
        ))
  unfolding launch
  launch-again platform flags s up =
      let (w1, up1, e1) = ensure_postgres-up platform s up in
      let s1 : Machine W = record {
        world = w1;
        deeds =
            executed (pg_isready container)
            ∷ executed (docker_inspect container)
            ∷ executed (docker_ps false)
            ∷ executed docker_info
            ∷ s.deeds;
      } in
      let (w2, up2, e2) = ensure_api-up s1 up1 in
      let s2 : Machine W = record s1 { world = w2 } in
      let (w3, up3, e3) = ensure_web-up flags s2 up2 in
      let s3 : Machine W = record s2 { world = w3 } in
      let (w4, up4, e4) = ensure_seed-up flags s3 up3 in
      (
        w4,
        up4,
        >>-done (ensure_postgres host platform) _ s s1 tt e1
            ∙ >>-done (ensure_api host) _ s1 s2 tt e2
            ∙ >>-done (ensure_web host flags) (ensure_seed host flags) s2 s3 tt e3
            ∙ e4,
      )
