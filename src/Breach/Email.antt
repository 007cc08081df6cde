-- ===== src/Breach/Email.antt =====
-- lib/breaches.ts, the e-mail half, and the e-mail scan of app/monitor/page.tsx. The network is a function
-- of the address that is fetched, and a body that is JSON is taken to be an object.
use personal_password_manage.Prelude.{
  ℕ, ◌≡◌, refl, ◌⊎◌, inl, inr, Bool, ◌||◌, not, Option, none, some, List, [], ◌∷◌, ◌++◌, arith,
  ◌==◌, if◌then◌else◌, or_else, Text, codes, text_eq, text_eq_refl, is_empty, Unicode,
  to_lower_case, includes,
}
use personal_password_manage.Percent.{encode_uri_component}
use personal_password_manage.Api.{is_ok, decimal}
use personal_password_manage.Breach.{lookup, trim}

pub record EmailBreach : Type 0 where
  pub title : Text
  pub xist_date : Option Text
  pub breach_date : Option Text
  pub domain : Option Text
  pub description : Option Text
  pub xposed_records : Option Text
  pub xposed_date : Option Text
  pub xposed_data : Option (List Text)

-- `breaches` is `data.breaches?.breaches`.
pub record XonCheckResponse : Type 0 where
  pub exposure_status : Option Text
  pub breaches : Option (List EmailBreach)

pub data XonAnswer : Type 0 where
  unreachable : Text → XonAnswer
  answered : ℕ → Text ⊎ XonCheckResponse → XonAnswer

pub data Looked : Type 0 where
  listed : List EmailBreach → Looked
  threw : Text → Looked

abbrev pub XonCache : Type 0
XonCache = List (Text × XonCheckResponse)

-- The result, the cache, and the addresses that were fetched.
pub record EmailCheck : Type 0 where
  pub result : Looked
  pub cache : XonCache
  pub fetched : List Text

abbrev pub check_email_api : Text
check_email_api = codes "https://api.xposedornot.com/v1/check-email/"

abbrev pub is_exposed : XonCheckResponse → Bool
is_exposed data_ = text_eq (or_else data_.exposure_status []) (codes "Exposed")

unfoldable pub extract_breaches : XonCheckResponse → List EmailBreach
extract_breaches data_ = if not (is_exposed data_) then [] else or_else data_.breaches []

abbrev pub cleaned_email : Unicode → Text → Text
cleaned_email u email = to_lower_case u (trim email)

abbrev pub failing : Text → XonCache → List Text → EmailCheck
failing message cache fetched = record { result = threw message; cache = cache; fetched = fetched }

module _ (u : Unicode) (fetch : Text → XonAnswer) where
  -- What follows when the address is not in the cache.
  unfoldable pub fetch_email : Text → XonCache → EmailCheck
  fetch_email cleaned cache =
      let url = check_email_api ++ encode_uri_component cleaned in
      elim (fetch url) [
        | unreachable message ↦ failing message cache (url ∷ [])
        | answered status body ↦
            if status == 429
            then failing (codes "Breach lookup rate-limited — try again in a minute.") cache
                (url ∷ [])
            else if not (is_ok status)
            then failing (codes "Breach lookup failed (" ++ decimal status ++ codes ").") cache
                (url ∷ [])
            else elim body [
              | inl message ↦ failing message cache (url ∷ [])
              | inr data_ ↦ record {
                result = listed (extract_breaches data_);
                cache = (cleaned, data_) ∷ cache;
                fetched = url ∷ [];
              }
            ]
      ]

  unfoldable pub fetch_cleaned : Text → XonCache → EmailCheck
  fetch_cleaned cleaned cache =
      if is_empty cleaned || not (includes (codes "@") cleaned)
      then failing (codes "Enter a valid email address to scan.") cache []
      else elim (lookup cleaned cache) [
        | some data_ ↦ record {
          result = listed (extract_breaches data_);
          cache = cache;
          fetched = [];
        }
        | none ↦ fetch_email cleaned cache
      ]

  unfoldable pub fetch_email_breaches : Text → XonCache → EmailCheck
  fetch_email_breaches email cache = fetch_cleaned (cleaned_email u email) cache

pub record EmailScan : Type 0 where
  pub email : Text
  pub breaches : List EmailBreach

pub data ScanState : Type 0 where
  idle scanning done error : ScanState

-- The e-mail state of the page.
pub record EmailPanel : Type 0 where
  pub email_scan : ScanState
  pub email_error : Option Text
  pub email_result : Option EmailScan

-- What `scanEmail` makes of a lookup.
unfoldable pub scan_email : Unicode → Text → Looked → Text ⊎ EmailScan
scan_email u email (listed breaches) =
    inr (record { email = cleaned_email u email; breaches = breaches })
scan_email u email (threw message) = inl message

unfoldable pub begin_scan : EmailPanel → EmailPanel
begin_scan p = record p { email_scan = scanning; email_error = none }

unfoldable pub end_scan : Text ⊎ EmailScan → EmailPanel → EmailPanel
end_scan (inr result) p = record p { email_scan = done; email_result = some result }
end_scan (inl message) p = record p { email_scan = error; email_error = some message }

-- The page after a scan, and the cache.
unfoldable pub run_email_scan :
    Unicode → (Text → XonAnswer) → Text → XonCache → EmailPanel → EmailPanel × XonCache
run_email_scan u fetch target cache p =
    let check = fetch_email_breaches u fetch target cache in
    (end_scan (scan_email u target check.result) (begin_scan p), check.cache)

remembered :
    (u : Unicode) (fetch again : Text → XonAnswer) (cleaned : Text) (cache : XonCache)
    (breaches : List EmailBreach)
    → (fetch_cleaned u fetch cleaned cache).result ≡ listed breaches
    → let kept = (fetch_cleaned u fetch cleaned cache).cache in
      fetch_cleaned u again cleaned kept
      ≡ record { result = listed breaches; cache = kept; fetched = [] }
unfolding fetch_cleaned fetch_email
remembered u fetch again cleaned cache breaches h = ground (arith, text_eq_refl cleaned)

-- Once the breaches of an address were found, the address is not looked up again: however it is spelled
-- the next time, in case and outer white space, the same breaches are given and nothing is fetched.
pub fetch_email_breaches-again :
    (u : Unicode) (fetch again : Text → XonAnswer) (email other : Text) (cache : XonCache)
    (breaches : List EmailBreach)
    → cleaned_email u email ≡ cleaned_email u other
    → (fetch_email_breaches u fetch email cache).result ≡ listed breaches
    → let kept = (fetch_email_breaches u fetch email cache).cache in
      fetch_email_breaches u again other kept
      ≡ record { result = listed breaches; cache = kept; fetched = [] }
unfolding fetch_email_breaches
fetch_email_breaches-again u fetch again email other cache breaches same h =
    rw (← same, remembered u fetch again (cleaned_email u email) cache breaches h)

-- What the page shows after a lookup, when it showed `p` before.
pub ShowsOutcome : Unicode → Text → EmailPanel → Looked → EmailPanel → Type 0
ShowsOutcome u target p (listed breaches) q =
    (q.email_scan ≡ done)
    × (q.email_error ≡ none)
    × (q.email_result ≡ some (record { email = cleaned_email u target; breaches = breaches }))
ShowsOutcome u target p (threw message) q =
    (q.email_scan ≡ error) × (q.email_error ≡ some message) × (q.email_result ≡ p.email_result)

shows :
    (u : Unicode) (target : Text) (p : EmailPanel) (r : Looked)
    → ShowsOutcome u target p r (end_scan (scan_email u target r) (begin_scan p))
unfolding begin_scan end_scan scan_email ShowsOutcome
shows u target p (listed breaches) = (refl, refl, refl)
shows u target p (threw message) = (refl, refl, refl)

-- A scan never stays in progress: it ends as done, with the breaches of the address and no error, when the
-- lookup gave a list, and otherwise as an error, with the message of the lookup and the result of before.
pub run_email_scan-ends :
    (u : Unicode) (fetch : Text → XonAnswer) (target : Text) (cache : XonCache) (p : EmailPanel)
    → ShowsOutcome u target p
        (fetch_email_breaches u fetch target cache).result
        (run_email_scan u fetch target cache p).0
unfolding run_email_scan
run_email_scan-ends u fetch target cache p =
    shows u target p (fetch_email_breaches u fetch target cache).result
