-- ===== src/Admin/Auditing.antt =====
-- The audit log of app/admin/audit/page.tsx for an administrator: its filter and offset, the effect that
-- fetches whenever one of them changes, and the answers. `shown` keeps beside a page the query that it
-- answers. The loads of app/admin/page.tsx, app/admin/users/page.tsx and app/devices/page.tsx follow.
pub mod Order
use personal_password_manage.Prelude.{
  ℕ, ◌+◌, ◌-◌, Bool, true, false, not, ◌&&◌, Option, none, some, List, [], ◌∷◌, ◌++◌, ltb, ◌==◌,
  if◌then◌else◌, Text, text_eq,
}
use personal_password_manage.Api.{Role, user, admin, Me, ApiResult, value, failed}
use personal_password_manage.Admin.{page_size}

pub record Query : Type 0 where
  pub event_type : Text
  pub offset : ℕ

-- What the server answers: the number of events, and its limit.
pub record AuditAnswer : Type 0 where
  pub total : ℕ
  pub limit : ℕ

-- `pending` are the fetches without an answer, the earliest first.
pub record Audit : Type 0 where
  pub query : Query
  pub shown : Option (Query × AuditAnswer)
  pub loading : Bool
  pub error : Option Text
  pub pending : List Query

abbrev pub first_query : Query
first_query = record { event_type = []; offset = 0 }

abbrev pub same_query : Query → Query → Bool
same_query a b = text_eq a.event_type b.event_type && a.offset == b.offset

-- The effect with a query.
unfoldable pub fetch_query : Query → Audit → Audit
fetch_query q a = record a {
  query = q;
  loading = true;
  error = none;
  pending = a.pending ++ q ∷ [];
}

-- The page when it is opened.
abbrev pub opened_log : Audit
opened_log = record {
  query = first_query;
  shown = none;
  loading = true;
  error = none;
  pending = first_query ∷ [];
}

-- The effect runs only where the filter or the offset has changed.
unfoldable pub set_query : Query → Audit → Audit
set_query q a = if same_query q a.query then a else fetch_query q a

-- `setEventType(…); setOffset(0)`; the clear button does it with the empty type.
unfoldable pub choose_type : Text → Audit → Audit
choose_type t a = set_query (record { event_type = t; offset = 0 }) a

unfoldable pub older_exists : Audit → Bool
older_exists a = elim a.shown [
  | none ↦ false
  | some (q, answer) ↦ ltb (a.query.offset + answer.limit) answer.total
]

-- The buttons, which are disabled while `loading`.
unfoldable pub to_newer : Audit → Audit
to_newer a =
    if ltb 0 a.query.offset && not a.loading
    then set_query (record a.query { offset = a.query.offset - page_size }) a
    else a

unfoldable pub to_older : Audit → Audit
to_older a =
    if older_exists a && not a.loading
    then set_query (record a.query { offset = a.query.offset + page_size }) a
    else a

-- The answer to the fetch `q`, whatever was asked after it; `rest` still wait.
unfoldable pub answered : Query → List Query → ApiResult AuditAnswer → Audit → Audit
answered q rest (value v) a = record a { shown = some (q, v); loading = false; pending = rest }
answered q rest (failed message) a = record a {
  error = some message;
  loading = false;
  pending = rest;
}

-- The state of a page that loads one thing.
pub record Loaded (A : Type 0) : Type 0 where
  pub content : Option A
  pub loading : Bool
  pub error : Option Text

unfoldable pub finish_load : {A : Type 0} → ApiResult A → Loaded A → Loaded A
finish_load (value v) s = record s { content = some v; loading = false }
finish_load (failed message) s = record s { error = some message; loading = false }

-- `load` of the administration's pages, which only an administrator starts.
unfoldable pub load : {A : Type 0} → Option Me → ApiResult A → Loaded A → Loaded A
load none answer s = s
load (some me) answer s = elim me.role [
  | user ↦ s
  | admin ↦ finish_load answer (record s { loading = true; error = none })
]
