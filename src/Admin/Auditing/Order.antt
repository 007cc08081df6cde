-- ===== src/Admin/Auditing/Order.antt =====
-- Which page of the audit log is shown.
use personal_password_manage.Prelude.{
  ◌%◌, ◌≡◌, refl, subst, false, Bool-cases, inl, inr, Option, none, some, List, [], ◌∷◌, ◌++◌,
  arith, ltb, Text, not, ◌&&◌,
}
use personal_password_manage.Api.{ApiResult, value, failed}
use personal_password_manage.Admin.{page_size}
use personal_password_manage.Admin.Auditing.{
  Query, AuditAnswer, Audit, first_query, same_query, fetch_query, opened_log, set_query,
  choose_type, older_exists, to_newer, to_older, answered,
}

-- The states of the page where answers keep the order of their fetches.
pub data Reach : Audit → Type 0 where
  start : Reach opened_log
  chosen : {a : Audit} → (t : Text) → Reach a → Reach (choose_type t a)
  newer : {a : Audit} → Reach a → Reach (to_newer a)
  older : {a : Audit} → Reach a → Reach (to_older a)
  first :
      {a : Audit} (q : Query) (rest : List Query) (r : ApiResult AuditAnswer)
      → a.pending ≡ q ∷ rest
      → Reach a
      → Reach (answered q rest r a)

newest : Query → List Query → Query
newest d [] = d
newest d (q ∷ qs) = newest q qs

newest-append : (d q : Query) (qs : List Query) → newest d (qs ++ q ∷ []) ≡ q
unfolding newest
newest-append d q [] = refl
newest-append d q (p ∷ qs) = newest-append p q qs

-- The query of the page that is shown.
abbrev pub shown_query : Option (Query × AuditAnswer) → Option Query
shown_query none = none
shown_query (some (q, v)) = some q

IsFollowed : List Query → Audit → Type 0
IsFollowed [] a = a.error ≡ none → shown_query a.shown ≡ some a.query
IsFollowed (q ∷ qs) a = newest q qs ≡ a.query

fetch_query-IsFollowed :
    (q : Query) (ps : List Query) (a : Audit) → IsFollowed (ps ++ q ∷ []) (fetch_query q a)
unfolding IsFollowed fetch_query newest
fetch_query-IsFollowed q [] a = refl
fetch_query-IsFollowed q (p ∷ ps) a = newest-append p q ps

set_query-IsFollowed :
    (q : Query) (a : Audit)
    → IsFollowed a.pending a
    → IsFollowed (set_query q a).pending (set_query q a)
unfolding set_query fetch_query
set_query-IsFollowed q a h = elim (Bool-cases (same_query q a.query)) [
  | inl same ↦ rw same h
  | inr changed ↦ rw changed (fetch_query-IsFollowed q a.pending a)
]

answered-IsFollowed :
    (q : Query) (rest : List Query) (r : ApiResult AuditAnswer) (a : Audit)
    → IsFollowed (q ∷ rest) a
    → IsFollowed rest (answered q rest r a)
unfolding IsFollowed answered newest
answered-IsFollowed q [] (value v) a h = λ e. cc (h)
answered-IsFollowed q [] (failed m) a h = λ e. cc (e)
answered-IsFollowed q (p ∷ ps) (value v) a h = h
answered-IsFollowed q (p ∷ ps) (failed m) a h = h

first-IsFollowed :
    (q : Query) (rest : List Query) (r : ApiResult AuditAnswer) (a : Audit)
    → IsFollowed (q ∷ rest) a
    → IsFollowed (answered q rest r a).pending (answered q rest r a)
unfolding answered
first-IsFollowed q rest (value v) a h = answered-IsFollowed q rest (value v) a h
first-IsFollowed q rest (failed m) a h = answered-IsFollowed q rest (failed m) a h

Reach-IsFollowed : {a : Audit} → Reach a → IsFollowed a.pending a
unfolding IsFollowed newest choose_type to_newer to_older
Reach-IsFollowed start = refl
Reach-IsFollowed (chosen {a = a} t r) = set_query-IsFollowed _ a (Reach-IsFollowed r)
Reach-IsFollowed (newer {a = a} r) = elim (Bool-cases (ltb 0 a.query.offset && not a.loading)) [
  | inl on ↦ rw on (set_query-IsFollowed _ a (Reach-IsFollowed r))
  | inr off ↦ rw off (Reach-IsFollowed r)
]
Reach-IsFollowed (older {a = a} r) = elim (Bool-cases (older_exists a && not a.loading)) [
  | inl on ↦ rw on (set_query-IsFollowed _ a (Reach-IsFollowed r))
  | inr off ↦ rw off (Reach-IsFollowed r)
]
Reach-IsFollowed (first {a = a} q rest x e r) =
    first-IsFollowed q rest x a
      (subst (λ (ps : List Query). IsFollowed ps a) e (Reach-IsFollowed r))

IsPaged : Audit → Type 0
IsPaged a = a.query.offset % page_size ≡ 0

set_query-IsPaged :
    (q : Query) (a : Audit) → q.offset % page_size ≡ 0 → IsPaged a → IsPaged (set_query q a)
unfolding IsPaged set_query fetch_query
set_query-IsPaged q a h k = elim (Bool-cases (same_query q a.query)) [
  | inl same ↦ rw same k
  | inr changed ↦ rw changed h
]

Reach-IsPaged : {a : Audit} → Reach a → IsPaged a
unfolding IsPaged choose_type to_newer to_older answered
Reach-IsPaged start = refl
Reach-IsPaged (chosen {a = a} t r) = set_query-IsPaged _ a refl (Reach-IsPaged r)
Reach-IsPaged (newer {a = a} r) = elim (Bool-cases (ltb 0 a.query.offset && not a.loading)) [
  | inl on ↦ rw on (set_query-IsPaged _ a (omega (arith, Reach-IsPaged r)) (Reach-IsPaged r))
  | inr off ↦ rw off (Reach-IsPaged r)
]
Reach-IsPaged (older {a = a} r) = elim (Bool-cases (older_exists a && not a.loading)) [
  | inl on ↦ rw on (set_query-IsPaged _ a (omega (arith, Reach-IsPaged r)) (Reach-IsPaged r))
  | inr off ↦ rw off (Reach-IsPaged r)
]
Reach-IsPaged (first {a = a} q rest (value v) e r) = Reach-IsPaged r
Reach-IsPaged (first {a = a} q rest (failed m) e r) = Reach-IsPaged r

-- However the filter and the buttons are used, if the answers come in the order of their fetches: once none
-- is waited for and no error is shown, the page that is shown is that of the filter and the offset, and the
-- offset is a whole number of pages.
pub Reach-shown :
    {a : Audit}
    → Reach a
    → a.pending ≡ []
    → a.error ≡ none
    → (shown_query a.shown ≡ some a.query) × (a.query.offset % page_size ≡ 0)
unfolding IsFollowed IsPaged
Reach-shown {a = a} r quiet fine =
    (subst (λ (ps : List Query). IsFollowed ps a) quiet (Reach-IsFollowed r) fine, Reach-IsPaged r)

-- Two answers that cross leave the page of the earlier filter under the later one.
answered-crossed :
    (t : Text) (u v : AuditAnswer)
    → same_query (record { event_type = t; offset = 0 }) first_query ≡ false
    → let late : Query = record { event_type = t; offset = 0 } in
      let a =
        answered first_query []
          (value v)
          (answered late (first_query ∷ []) (value u) (choose_type t opened_log)) in
      (a.pending ≡ [])
      × (a.error ≡ none)
      × (a.query ≡ late)
      × (shown_query a.shown ≡ some first_query)
unfolding answered choose_type set_query fetch_query
answered-crossed t u v apart = rw apart (refl, refl, refl, refl)
