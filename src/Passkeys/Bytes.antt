-- ===== src/Passkeys/Bytes.antt =====
-- The ceremonies carry bytes: the authenticator is asked with those that the server encoded, and the server
-- decodes those that the authenticator gave.
use personal_password_manage.Prelude.{
  ℕ, ◌≡◌, refl, Option, none, some, List, [], ◌∷◌, map, or_else, Text, codes, IsByte, All,
}
use personal_password_manage.Base64.{b64url_to_buffer, buffer_to_b64url}
use personal_password_manage.Base64.RoundTrip.{b64url_to_buffer-buffer_to_b64url}
use personal_password_manage.Passkeys.{
  buffers, optional_buffers, RequestOptions, CreationOptions, Assertion, Attestation, Prompted,
  given, done, creation_public_key, request_public_key, create_passkey, get_passkey_assertion,
}

abbrev pub IsBytes : List ℕ → Type 0
IsBytes bs = All IsByte bs

abbrev optional_map : {A B : Type 0} → (A → B) → Option A → Option B
optional_map f none = none
optional_map f (some a) = some (f a)

-- The options as the server writes them.
abbrev pub written_request : RequestOptions (List ℕ) → RequestOptions Text
written_request o = record {
  challenge = buffer_to_b64url o.challenge;
  rp_id = o.rp_id;
  allow = optional_map (map buffer_to_b64url) o.allow;
  timeout = o.timeout;
  user_verification = o.user_verification;
}

abbrev pub written_creation : CreationOptions (List ℕ) → CreationOptions Text
written_creation o = record {
  challenge = buffer_to_b64url o.challenge;
  rp_id = o.rp_id;
  rp_name = o.rp_name;
  user_id = buffer_to_b64url o.user_id;
  user_name = o.user_name;
  display_name = o.display_name;
  params = o.params;
  timeout = o.timeout;
  attestation = o.attestation;
  selection = o.selection;
  exclude = optional_map (map buffer_to_b64url) o.exclude;
}

abbrev pub AllBytes : Option (List (List ℕ)) → Type 0
AllBytes none = Unit
AllBytes (some ids) = All IsBytes ids

buffers-written :
    (ids : List (List ℕ)) → All IsBytes ids → buffers (map buffer_to_b64url ids) ≡ some ids
unfolding buffers
buffers-written [] h = refl
buffers-written (id ∷ ids) h =
    rw (b64url_to_buffer-buffer_to_b64url id h.0, buffers-written ids h.1)

optional_buffers-written :
    (ids : Option (List (List ℕ)))
    → AllBytes ids
    → optional_buffers (optional_map (map buffer_to_b64url) ids) ≡ some ids
unfolding optional_buffers
optional_buffers-written none h = refl
optional_buffers-written (some ids) h = rw (buffers-written ids h)

-- A sign-in with a passkey: the authenticator is asked with the challenge and the credentials that the
-- server wrote, and for the user's verification unless the server says otherwise; the four fields that go
-- back are read as the bytes that the authenticator gave.
pub get_passkey_assertion-carries :
    (get : RequestOptions (List ℕ) → Prompted (Assertion (List ℕ))) (o : RequestOptions (List ℕ))
    (a : Assertion (List ℕ))
    → IsBytes o.challenge
    → AllBytes o.allow
    → get (record o { user_verification = some (or_else o.user_verification (codes "required")) })
      ≡ given a
    → IsBytes a.credential_id
    → IsBytes a.authenticator_data
    → IsBytes a.client_data
    → IsBytes a.signature
    → (sent : Assertion Text) × (get_passkey_assertion get (written_request o) ≡ done sent)
      × (b64url_to_buffer sent.credential_id ≡ some a.credential_id)
      × (b64url_to_buffer sent.authenticator_data ≡ some a.authenticator_data)
      × (b64url_to_buffer sent.client_data ≡ some a.client_data)
      × (b64url_to_buffer sent.signature ≡ some a.signature)
unfolding get_passkey_assertion request_public_key
get_passkey_assertion-carries get o a hc ha g i d c s = (
  record {
    credential_id = buffer_to_b64url a.credential_id;
    authenticator_data = buffer_to_b64url a.authenticator_data;
    client_data = buffer_to_b64url a.client_data;
    signature = buffer_to_b64url a.signature;
  },
  rw (
    get_passkey_assertion,
    request_public_key,
    b64url_to_buffer-buffer_to_b64url o.challenge hc,
    request_public_key,
    optional_buffers-written o.allow ha,
    get_passkey_assertion,
    g,
  ),
  b64url_to_buffer-buffer_to_b64url a.credential_id i,
  b64url_to_buffer-buffer_to_b64url a.authenticator_data d,
  b64url_to_buffer-buffer_to_b64url a.client_data c,
  b64url_to_buffer-buffer_to_b64url a.signature s,
)

-- The registration of a passkey: the authenticator is asked with the challenge, the user and the excluded
-- credentials that the server wrote, and with no attestation unless the server wants one; the three fields
-- that go back are read as the bytes that the authenticator gave.
pub create_passkey-carries :
    (create : CreationOptions (List ℕ) → Prompted (Attestation (List ℕ)))
    (o : CreationOptions (List ℕ)) (a : Attestation (List ℕ))
    → IsBytes o.challenge
    → IsBytes o.user_id
    → AllBytes o.exclude
    → create (record o { attestation = some (or_else o.attestation (codes "none")) }) ≡ given a
    → IsBytes a.credential_id
    → IsBytes a.attestation_object
    → IsBytes a.client_data
    → (sent : Attestation Text) × (create_passkey create (written_creation o) ≡ done sent)
      × (b64url_to_buffer sent.credential_id ≡ some a.credential_id)
      × (b64url_to_buffer sent.attestation_object ≡ some a.attestation_object)
      × (b64url_to_buffer sent.client_data ≡ some a.client_data)
unfolding create_passkey creation_public_key
create_passkey-carries create o a hc hu he g i d c = (
  record {
    credential_id = buffer_to_b64url a.credential_id;
    attestation_object = buffer_to_b64url a.attestation_object;
    client_data = buffer_to_b64url a.client_data;
  },
  rw (
    create_passkey,
    creation_public_key,
    b64url_to_buffer-buffer_to_b64url o.challenge hc,
    creation_public_key,
    b64url_to_buffer-buffer_to_b64url o.user_id hu,
    creation_public_key,
    optional_buffers-written o.exclude he,
    create_passkey,
    g,
  ),
  b64url_to_buffer-buffer_to_b64url a.credential_id i,
  b64url_to_buffer-buffer_to_b64url a.attestation_object d,
  b64url_to_buffer-buffer_to_b64url a.client_data c,
)
