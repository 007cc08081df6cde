-- ===== src/Envelope.antt =====
-- lib/vaultEnvelope.ts: the plaintext that is encrypted into every vault snapshot.
-- `JSON.stringify` leaves out an undefined property; `as VaultItem[]` checks nothing, and an item
-- that is read back is looked at property by property.
pub mod RoundTrip
use personal_password_manage.Prelude.{
  ℕ, Bool, true, false, ◌&&◌, Option, none, some, List, [], ◌∷◌, map, if◌then◌else◌, Text, codes,
}
use personal_password_manage.Json.{
  Value, null, boolean, number, string, array, object, Elements, Fields, end, field, from_list,
  property, is_object, is_array, as_text, as_list,
}
use personal_password_manage.Platform.{Platform}
use personal_password_manage.Crypto.{KeyWrap, encrypt_string, decrypt_string}
use personal_password_manage.Vault.{VaultItem}

-- An optional property in front of the others.
abbrev pub optional : Text → Option Text → Fields → Fields
optional key none fs = fs
optional key (some s) fs = field key (string s) fs

abbrev pub strings : List Text → Elements
strings ss = from_list (map string ss)

unfoldable pub item_value : VaultItem → Value
item_value item = object (
    field (codes "id") (string item.id) (
      field (codes "type") (string item.kind) (
        field (codes "title") (string item.title) (
          optional (codes "username") item.username (
            optional (codes "password") item.password (
              field (codes "urls") (array (strings item.urls)) (
                optional (codes "notes") item.notes (
                  field (codes "favorite") (boolean item.favorite) (
                    optional (codes "folder") item.folder (
                      field (codes "created_at") (string item.created_at)
                        (field (codes "updated_at") (string item.updated_at) end)))))))))))

abbrev pub as_optional : Option Value → Option Text
as_optional (some (string s)) = some s
as_optional _ = none

abbrev pub as_bool : Option Value → Bool
as_bool (some (boolean b)) = b
as_bool _ = false

unfoldable pub value_item : Value → VaultItem
value_item v = record {
  id = as_text (property (codes "id") v);
  kind = as_text (property (codes "type") v);
  title = as_text (property (codes "title") v);
  username = as_optional (property (codes "username") v);
  password = as_optional (property (codes "password") v);
  urls = map (λ s. as_text (some s)) (as_list (property (codes "urls") v));
  notes = as_optional (property (codes "notes") v);
  favorite = as_bool (property (codes "favorite") v);
  folder = as_optional (property (codes "folder") v);
  created_at = as_text (property (codes "created_at") v);
  updated_at = as_text (property (codes "updated_at") v);
}

pub record VaultEnvelope : Type 0 where
  pub items : List VaultItem
  pub folders : List Text

-- `{ items, folders }`
abbrev pub contents_value : List VaultItem → List Text → Fields → Fields
contents_value items folders rest =
    field (codes "items") (array (from_list (map item_value items)))
      (field (codes "folders") (array (strings folders)) rest)

abbrev pub items_of : Value → List VaultItem
items_of v = map value_item (as_list (property (codes "items") v))

abbrev pub folders_of : Value → List Text
folders_of v = map (λ s. as_text (some s)) (as_list (property (codes "folders") v))

abbrev pub has_contents : Value → Bool
has_contents v = is_array (property (codes "items") v) && is_array (property (codes "folders") v)

-- What `decryptEnvelope` throws: the key is wrong, the text is no JSON, or it has another form.
pub data EnvelopeError : Type 0 where
  not_decrypted not_json unexpected_format : EnvelopeError

pub data EnvelopeResult : Type 0 where
  ok : VaultEnvelope → EnvelopeResult
  err : EnvelopeError → EnvelopeResult

module _ (p : Platform) where
  unfoldable pub encrypt_envelope : p.CryptoKey → List VaultItem → List Text → List ℕ → KeyWrap
  encrypt_envelope key items folders nonce =
      encrypt_string p key (p.stringify (object (contents_value items folders end))) nonce

  unfoldable pub read_envelope : Option Value → EnvelopeResult
  read_envelope none = err not_json
  read_envelope (some parsed) =
      if is_object parsed && has_contents parsed
      then ok (record { items = items_of parsed; folders = folders_of parsed })
      else err unexpected_format

  unfoldable pub decrypt_envelope : p.CryptoKey → Text → Text → EnvelopeResult
  decrypt_envelope key ciphertext nonce = elim (decrypt_string p key ciphertext nonce) [
    | none ↦ err not_decrypted
    | some plaintext ↦ read_envelope (p.parse plaintext)
  ]
