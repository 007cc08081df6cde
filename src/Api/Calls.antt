-- ===== src/Api/Calls.antt =====
-- The calls of lib/api.ts that finish a passkey ceremony, and the page of the audit log with its query.
use personal_password_manage.Prelude.{
  ℕ, Option, none, some, List, [], ◌∷◌, ◌++◌, Text, codes, is_empty, if◌then◌else◌,
}
use personal_password_manage.Json.{Fields, end}
use personal_password_manage.Percent.{query}
use personal_password_manage.Api.{decimal}
use personal_password_manage.Api.Endpoints.{Endpoint, get, post, endpoint, text_field}
use personal_password_manage.Passkeys.{Attestation, Assertion}

abbrev pub optional_text : Text → Option Text → Fields → Fields
optional_text key none rest = rest
optional_text key (some s) rest = text_field key s rest

unfoldable pub finish_passkey_registration : Text → Attestation Text → Option Text → Endpoint
finish_passkey_registration ceremony_id a name =
    endpoint post (codes "/auth/passkeys/register/finish") (
      text_field (codes "ceremony_id") ceremony_id (
        text_field (codes "credential_id") a.credential_id (
          text_field (codes "attestation_object") a.attestation_object (
            text_field (codes "client_data_json") a.client_data
              (optional_text (codes "name") name end)))))

unfoldable pub finish_passkey_login : Text → Assertion Text → Endpoint
finish_passkey_login ceremony_id a = endpoint post (codes "/auth/passkeys/login/finish") (
    text_field (codes "ceremony_id") ceremony_id (
      text_field (codes "credential_id") a.credential_id (
        text_field (codes "authenticator_data") a.authenticator_data (
          text_field (codes "client_data_json") a.client_data
            (text_field (codes "signature") a.signature end)))))

pub record AuditParams : Type 0 where
  pub limit : Option ℕ
  pub offset : Option ℕ
  pub event_type : Option Text
  pub user_id : Option Text

abbrev pub number_pair : Text → Option ℕ → List (Text × Text) → List (Text × Text)
number_pair key none rest = rest
number_pair key (some n) rest = (key, decimal n) ∷ rest

-- A text that is absent or empty is not set.
abbrev pub text_pair : Text → Option Text → List (Text × Text) → List (Text × Text)
text_pair key none rest = rest
text_pair key (some s) rest = if is_empty s then rest else (key, s) ∷ rest

unfoldable pub audit_pairs : AuditParams → List (Text × Text)
audit_pairs p = number_pair (codes "limit") p.limit (
    number_pair (codes "offset") p.offset
      (text_pair (codes "event_type") p.event_type (text_pair (codes "user_id") p.user_id [])))

unfoldable pub audit : AuditParams → Endpoint
audit p =
    let qs = query (audit_pairs p) in
    endpoint get (codes "/admin/audit" ++ (if is_empty qs then [] else b'?' ∷ qs)) end
