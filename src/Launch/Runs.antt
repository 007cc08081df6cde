-- ===== src/Launch/Runs.antt =====
-- How a result passes through the steps of the launcher.
use personal_password_manage.Prelude.{◌≡◌, ap, true, Option, none, some, Text}
use personal_password_manage.Launch.Monad.{
  Command, executed, Host, Machine, Action, Outcome, done, thrown, Failure, command_failed, pure,
  ◌>>=◌, ◌>>◌, rescue, record_deed, outcome_of, sh,
}
use personal_password_manage.Launch.{succeeds}

module _ {W : Type 0} where
  pub >>=-done :
      {A B : Type 0} (m : Action W A) (f : A → Action W B) (s t : Machine W) (a : A)
      → m s ≡ (done a, t)
      → (m >>= f) s ≡ f a t
  unfolding ◌>>=◌
  >>=-done {A = A} m f s t a e =
      ap (λ (p : Outcome A × Machine W). ((λ (x : Machine W). p) >>= f) s) e

  pub >>=-thrown :
      {A B : Type 0} (m : Action W A) (f : A → Action W B) (s t : Machine W) (x : Failure)
      → m s ≡ (thrown x, t)
      → (m >>= f) s ≡ (thrown x, t)
  unfolding ◌>>=◌
  >>=-thrown {A = A} m f s t x e =
      ap (λ (p : Outcome A × Machine W). ((λ (y : Machine W). p) >>= f) s) e

  pub >>-done :
      {A B : Type 0} (m : Action W A) (k : Action W B) (s t : Machine W) (a : A)
      → m s ≡ (done a, t)
      → (m >> k) s ≡ k t
  unfolding ◌>>◌
  >>-done m k s t a e = >>=-done m (λ _. k) s t a e

  pub >>-thrown :
      {A B : Type 0} (m : Action W A) (k : Action W B) (s t : Machine W) (x : Failure)
      → m s ≡ (thrown x, t)
      → (m >> k) s ≡ (thrown x, t)
  unfolding ◌>>◌
  >>-thrown m k s t x e = >>=-thrown m (λ _. k) s t x e

  pub rescue-done :
      {A : Type 0} (m k : Action W A) (s t : Machine W) (a : A)
      → m s ≡ (done a, t)
      → rescue m k s ≡ (done a, t)
  unfolding rescue
  rescue-done {A = A} m k s t a e =
      ap (λ (p : Outcome A × Machine W). rescue (λ (x : Machine W). p) k s) e

  pub rescue-thrown :
      {A : Type 0} (m k : Action W A) (s t : Machine W) (x : Failure)
      → m s ≡ (thrown x, t)
      → rescue m k s ≡ k t
  unfolding rescue
  rescue-thrown {A = A} m k s t x e =
      ap (λ (p : Outcome A × Machine W). rescue (λ (y : Machine W). p) k s) e

  module _ (host : Host W) where
    pub sh-some :
        (c : Command) (s : Machine W) (out : Text) (w : W)
        → host.execute c s.world ≡ (some out, w)
        → sh host c s ≡ (done out, record_deed host (executed c) w s)
    unfolding sh
    sh-some c s out w e = ap (λ (p : Option Text × W). outcome_of host c p s) e

    pub sh-none :
        (c : Command) (s : Machine W) (w : W)
        → host.execute c s.world ≡ (none, w)
        → sh host c s ≡ (thrown (command_failed c), record_deed host (executed c) w s)
    unfolding sh
    sh-none c s w e = ap (λ (p : Option Text × W). outcome_of host c p s) e

    pub succeeds-some :
        (c : Command) (s : Machine W) (out : Text) (w : W)
        → host.execute c s.world ≡ (some out, w)
        → succeeds host c s ≡ (done true, record_deed host (executed c) w s)
    unfolding pure
    succeeds-some c s out w e =
        rescue-done _ _ s _ true (>>=-done (sh host c) _ s _ out (sh-some c s out w e))
