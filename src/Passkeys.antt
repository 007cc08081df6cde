-- ===== src/Passkeys.antt =====
-- lib/passkeys.ts: the two ceremonies between the server's options in base64url and the byte buffers of
-- `navigator.credentials`, which is a parameter. The option objects hold what the code reads or hands on.
pub mod Bytes
use personal_password_manage.Prelude.{
  ℕ, Bool, true, false, ◌&&◌, Option, none, some, List, [], ◌∷◌, or_else, Text, codes,
}
use personal_password_manage.Base64.{b64url_to_buffer, buffer_to_b64url, ◌>>=◌}
use personal_password_manage.Json.{Value}

-- What `passkeysSupported` looks at.
pub record Window : Type 0 where
  pub has_window : Bool
  pub has_credential_type : Bool
  pub has_create : Bool

unfoldable pub passkeys_supported : Window → Bool
passkeys_supported w = w.has_window && w.has_credential_type && w.has_create

-- An error as the pages look at it: the browser's NotAllowedError, or another with its message.
pub data Thrown : Type 0 where
  not_allowed : Thrown
  other : Text → Thrown

-- What the browser's prompt ends with; `nothing` is a `null` credential.
pub data Prompted (A : Type 0) : Type 0 where
  given : A → Prompted A
  nothing : Prompted A
  threw : Thrown → Prompted A

pub data Outcome (A : Type 0) : Type 0 where
  done : A → Outcome A
  fails : Thrown → Outcome A

-- What `atob` throws.
abbrev pub not_base64 : Thrown
not_base64 = other (codes "The string to be decoded is not correctly encoded.")

-- `list?.map((c) => ({ type: 'public-key', id: b64urlToBuffer(c.id) }))`
pub buffers : List Text → Option (List (List ℕ))
buffers [] = some []
buffers (id ∷ ids) = do bytes ← b64url_to_buffer id; rest ← buffers ids; some (bytes ∷ rest)

unfoldable pub optional_buffers : Option (List Text) → Option (Option (List (List ℕ)))
unfolding buffers
optional_buffers none = some none
optional_buffers (some ids) = do list ← buffers ids; some (some list)

-- `B` is the type of a buffer: base64url in the options of the server, bytes in those of the browser.
pub record CreationOptions (B : Type 0) : Type 0 where
  pub challenge : B
  pub rp_id : Option Text
  pub rp_name : Text
  pub user_id : B
  pub user_name : Text
  pub display_name : Text
  pub params : List Value
  pub timeout : Option ℕ
  pub attestation : Option Text
  pub selection : Option Value
  pub exclude : Option (List B)

pub record RequestOptions (B : Type 0) : Type 0 where
  pub challenge : B
  pub rp_id : Option Text
  pub allow : Option (List B)
  pub timeout : Option ℕ
  pub user_verification : Option Text

pub record Attestation (B : Type 0) : Type 0 where
  pub credential_id : B
  pub attestation_object : B
  pub client_data : B

pub record Assertion (B : Type 0) : Type 0 where
  pub credential_id : B
  pub authenticator_data : B
  pub client_data : B
  pub signature : B

-- The `publicKey` of `create`, and of `get`.
unfoldable pub creation_public_key : CreationOptions Text → Option (CreationOptions (List ℕ))
creation_public_key o = do
  challenge ← b64url_to_buffer o.challenge
  user_id ← b64url_to_buffer o.user_id
  exclude ← optional_buffers o.exclude
  some (record {
    challenge = challenge;
    rp_id = o.rp_id;
    rp_name = o.rp_name;
    user_id = user_id;
    user_name = o.user_name;
    display_name = o.display_name;
    params = o.params;
    timeout = o.timeout;
    attestation = some (or_else o.attestation (codes "none"));
    selection = o.selection;
    exclude = exclude;
  })

unfoldable pub request_public_key : RequestOptions Text → Option (RequestOptions (List ℕ))
request_public_key o = do
  challenge ← b64url_to_buffer o.challenge
  allow ← optional_buffers o.allow
  some (record {
    challenge = challenge;
    rp_id = o.rp_id;
    allow = allow;
    timeout = o.timeout;
    user_verification = some (or_else o.user_verification (codes "required"));
  })

unfoldable pub create_passkey :
    (CreationOptions (List ℕ) → Prompted (Attestation (List ℕ)))
    → CreationOptions Text
    → Outcome (Attestation Text)
create_passkey create o = elim (creation_public_key o) [
  | none ↦ fails not_base64
  | some public_key ↦ elim (create public_key) [
    | threw e ↦ fails e
    | nothing ↦ fails (other (codes "Passkey creation was cancelled"))
    | given c ↦ done (record {
      credential_id = buffer_to_b64url c.credential_id;
      attestation_object = buffer_to_b64url c.attestation_object;
      client_data = buffer_to_b64url c.client_data;
    })
  ]
]

unfoldable pub get_passkey_assertion :
    (RequestOptions (List ℕ) → Prompted (Assertion (List ℕ)))
    → RequestOptions Text
    → Outcome (Assertion Text)
get_passkey_assertion get o = elim (request_public_key o) [
  | none ↦ fails not_base64
  | some public_key ↦ elim (get public_key) [
    | threw e ↦ fails e
    | nothing ↦ fails (other (codes "Passkey sign-in was cancelled"))
    | given c ↦ done (record {
      credential_id = buffer_to_b64url c.credential_id;
      authenticator_data = buffer_to_b64url c.authenticator_data;
      client_data = buffer_to_b64url c.client_data;
      signature = buffer_to_b64url c.signature;
    })
  ]
]
