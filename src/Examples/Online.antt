-- ===== src/Examples/Online.antt =====
-- Breach checks, sign-in, administration and the calls of the API.
use personal_password_manage.Prelude.{
  ◌≡◌, ◌⊎◌, refl, true, false, [], ◌∷◌, ◌++◌, Text, codes, take, ascii_only,
}
use personal_password_manage.Api.{value}
use personal_password_manage.Breach.{
  Caches, RangeAnswer, answered, password_hash, pwned_passwords_api, check_password_breach_count,
}
use personal_password_manage.Breach.Privacy.{check_password_breach_count-fetched}
use personal_password_manage.Session.Signing.{start, admitted, SignIn-granted}
use personal_password_manage.Session.{opened_page, begin_submit, finish_login}
use personal_password_manage.Samples.{vek}

abbrev service : Text → RangeAnswer
service url = answered 200 (codes "00:7")

abbrev caches : Caches
caches = record { ranges = []; passwords = [] }

check_password_breach_count-fetched_example :
    ((check_password_breach_count ascii_only (λ bs. vek) service (codes "hunter2") caches).fetched
      ≡ [])
    ⊎ ((check_password_breach_count ascii_only (λ bs. vek) service (codes "hunter2") caches).fetched
        ≡ (pwned_passwords_api ++ take 5 (password_hash ascii_only (λ bs. vek) (codes "hunter2")))
          ∷ [])
check_password_breach_count-fetched_example =
    check_password_breach_count-fetched ascii_only (λ bs. vek) service (codes "hunter2") caches

SignIn-granted_example : true ≡ true
unfolding finish_login begin_submit
SignIn-granted_example =
    SignIn-granted {granted = true} {page = finish_login (value false) (begin_submit opened_page)}
      (admitted start refl) refl
