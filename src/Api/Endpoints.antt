-- ===== src/Api/Endpoints.antt =====
-- The `api` object of lib/api.ts: the method, the path and the body of every call. The text that
-- `URLSearchParams` prints for a value is a parameter.
use mathlib.Core.Option
use personal_password_manage.Prelude.{
  ◌≡◌, refl, false, Option, none, some, ◌++◌, Text, codes, is_empty, text_eq, text_eq_refl,
  if◌then◌else◌,
}
use personal_password_manage.Json.{
  Value, null, number, string, object, Fields, field, end, property, get_field,
}
use personal_password_manage.Crypto.{KeyWrap}
use personal_password_manage.Api.{Role, user, admin, VaultUpdate, KeysUpdate}

pub data Method : Type 0 where
  get post put patch delete : Method

-- A call as `request` hands it to `fetch`; `none` is a call without a body.
pub record Endpoint : Type 0 where
  pub method : Method
  pub path : Text
  pub body : Option Value

abbrev pub api_base : Text
api_base = codes "/api/v1"

abbrev pub endpoint : Method → Text → Fields → Endpoint
endpoint method path end = record { method = method; path = api_base ++ path; body = none }
endpoint method path fields = record {
  method = method;
  path = api_base ++ path;
  body = some (object fields);
}

abbrev pub text_field : Text → Text → Fields → Fields
text_field key s rest = field key (string s) rest

abbrev pub wrap_field : Text → Option KeyWrap → Fields → Fields
wrap_field key none rest = rest
wrap_field key (some wrap) rest =
    field key
      (object (
        text_field (codes "ciphertext") wrap.ciphertext
          (text_field (codes "nonce") wrap.nonce end)))
      rest

abbrev pub role_text : Role → Text
role_text user = codes "user"
role_text admin = codes "admin"

unfoldable pub register : Text → Text → Endpoint
register email password =
    endpoint post (codes "/auth/register")
      (text_field (codes "email") email (text_field (codes "password") password end))

unfoldable pub login : Text → Text → Endpoint
login email password =
    endpoint post (codes "/auth/login")
      (text_field (codes "email") email (text_field (codes "password") password end))

unfoldable pub logout : Endpoint
logout = endpoint post (codes "/auth/logout") end

unfoldable pub refresh : Endpoint
refresh = endpoint get (codes "/auth/refresh") end

unfoldable pub me : Endpoint
me = endpoint get (codes "/auth/me") end

unfoldable pub start2fa_setup : Endpoint
start2fa_setup = endpoint post (codes "/auth/2fa/setup") end

unfoldable pub verify2fa : Text → Endpoint
verify2fa code = endpoint post (codes "/auth/2fa/verify") (text_field (codes "code") code end)

unfoldable pub disable2fa : Text → Text → Endpoint
disable2fa code password =
    endpoint post (codes "/auth/2fa/disable")
      (text_field (codes "code") code (text_field (codes "password") password end))

unfoldable pub challenge2fa : Text → Endpoint
challenge2fa code = endpoint post (codes "/auth/2fa/challenge") (text_field (codes "code") code end)

unfoldable pub list_passkeys : Endpoint
list_passkeys = endpoint get (codes "/auth/passkeys") end

unfoldable pub revoke_passkey : Text → Endpoint
revoke_passkey id = endpoint delete (codes "/auth/passkeys/" ++ id) end

unfoldable pub start_passkey_registration : Endpoint
start_passkey_registration = endpoint post (codes "/auth/passkeys/register/options") end

-- `email || null`: an absent or empty address is sent as null.
unfoldable pub start_passkey_login : Option Text → Endpoint
start_passkey_login none =
    endpoint post (codes "/auth/passkeys/login/options") (field (codes "email") null end)
start_passkey_login (some email) =
    endpoint post (codes "/auth/passkeys/login/options")
      (field (codes "email") (if is_empty email then null else string email) end)

unfoldable pub get_vault : Endpoint
get_vault = endpoint get (codes "/vault") end

unfoldable pub update_vault : VaultUpdate → Endpoint
update_vault req = endpoint put (codes "/vault") (
    field (codes "version") (number req.version) (
      text_field (codes "ciphertext") req.body.ciphertext (
        text_field (codes "nonce") req.body.nonce (
          wrap_field (codes "kek_wrap") req.kek_wrap
            (wrap_field (codes "recovery_wrap") req.recovery_wrap end)))))

-- The body is an object even when it holds neither wrap.
unfoldable pub update_keys : KeysUpdate → Endpoint
update_keys req = record {
  method = put;
  path = api_base ++ codes "/vault/keys";
  body = some (
      object (
        wrap_field (codes "kek_wrap") req.kek_wrap
          (wrap_field (codes "recovery_wrap") req.recovery_wrap end)));
}

unfoldable pub list_devices : Endpoint
list_devices = endpoint get (codes "/devices") end

unfoldable pub revoke_device : Text → Endpoint
revoke_device id = endpoint delete (codes "/devices/" ++ id) end

unfoldable pub delete_account : Text → Endpoint
delete_account password =
    endpoint delete (codes "/account") (text_field (codes "password") password end)

unfoldable pub admin_overview : Endpoint
admin_overview = endpoint get (codes "/admin/overview") end

unfoldable pub admin_users : Endpoint
admin_users = endpoint get (codes "/admin/users") end

unfoldable pub set_role : Text → Role → Endpoint
set_role user_id role =
    endpoint patch (codes "/admin/users/" ++ user_id ++ codes "/role")
      (text_field (codes "role") (role_text role) end)

unfoldable pub revoke_sessions : Text → Endpoint
revoke_sessions user_id =
    endpoint post (codes "/admin/users/" ++ user_id ++ codes "/revoke-sessions") end

-- The first of two that is there.
abbrev or_wrap : Option Value → Option Value → Option Value
or_wrap none o = o
or_wrap (some v) o = some v

abbrev pub wrap_value : KeyWrap → Value
wrap_value wrap =
    object
      (text_field (codes "ciphertext") wrap.ciphertext (text_field (codes "nonce") wrap.nonce end))

-- A property of a call's body.
abbrev pub sent : Text → Endpoint → Option Value
sent key call = elim call.body [ none ↦ none | some v ↦ property key v ]

or_wrap-none : (o : Option Value) → or_wrap o none ≡ o
or_wrap-none none = refl
or_wrap-none (some v) = refl

get_field-wrap_field :
    (key : Text) (o : Option KeyWrap) (rest : Fields)
    → get_field key (wrap_field key o rest) ≡ or_wrap (Option.map wrap_value o) (get_field key rest)
get_field-wrap_field key none rest = refl
get_field-wrap_field key (some w) rest = rw (text_eq_refl key)

get_field-wrap_field_other :
    (k key : Text) (o : Option KeyWrap) (rest : Fields)
    → text_eq key k ≡ false
    → get_field k (wrap_field key o rest) ≡ get_field k rest
get_field-wrap_field_other k key none rest h = refl
get_field-wrap_field_other k key (some w) rest h = rw h

ruleset wrap_rules = (get_field-wrap_field, get_field-wrap_field_other, or_wrap-none)

-- The body of a vault update names its version, ciphertext and nonce, and each wrap exactly when the
-- caller gives one; the body of a key update names the wraps in the same way and no snapshot.
pub update-sent :
    (req : VaultUpdate) (keys : KeysUpdate)
    → (sent (codes "version") (update_vault req) ≡ some (number req.version))
      × (sent (codes "ciphertext") (update_vault req) ≡ some (string req.body.ciphertext))
      × (sent (codes "nonce") (update_vault req) ≡ some (string req.body.nonce))
      × (sent (codes "kek_wrap") (update_vault req) ≡ Option.map wrap_value req.kek_wrap)
      × (sent (codes "recovery_wrap") (update_vault req) ≡ Option.map wrap_value req.recovery_wrap)
      × (sent (codes "kek_wrap") (update_keys keys) ≡ Option.map wrap_value keys.kek_wrap)
      × (sent (codes "recovery_wrap") (update_keys keys) ≡ Option.map wrap_value keys.recovery_wrap)
      × (sent (codes "ciphertext") (update_keys keys) ≡ none)
unfolding update_vault update_keys
update-sent req keys = (
  refl,
  refl,
  refl,
  simp wrap_rules,
  simp wrap_rules,
  simp wrap_rules,
  simp wrap_rules,
  simp get_field-wrap_field_other,
)
