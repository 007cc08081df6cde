-- ===== src/Seed.antt =====
-- scripts/seed-demo.mjs: the account and the vault of the demonstration. The script has its own copy of the
-- key ceremony, on Node's `Buffer`; the answers of the server, the random bytes, the identifiers and the
-- times are arguments. A cookie is the text that the answer sets.
pub mod Ceremony
use personal_password_manage.Prelude.{
  ℕ, zero, suc, ◌≡◌, Bool, true, false, ◌||◌, not, Option, none, some, List, [], ◌∷◌, ◌++◌, map,
  ltb, ◌==◌, if◌then◌else◌, or_else, Text, codes, length,
}
use personal_password_manage.Base64.Buffers.{b64, from_b64}
use personal_password_manage.Utf8.{encode}
use personal_password_manage.Json.{Value, string, boolean, array, object, field, end, from_list}
use personal_password_manage.Platform.{Platform}
use personal_password_manage.Crypto.{KeyWrap, aad_kek, aad_recovery, import_vek, recovery_salt}
use personal_password_manage.Recovery.{secret_chars, group_chars}
use personal_password_manage.Envelope.{strings}
use personal_password_manage.Api.{VaultUpdate, decimal}
use personal_password_manage.Breach.{split_on}
use personal_password_manage.Register.{KdfParams, Random}

-- One entry of `DEMO_ITEMS`.
pub record Template : Type 0 where
  pub kind : Text
  pub title : Text
  pub username : Text
  pub password : Text
  pub urls : List Text
  pub notes : Text
  pub favorite : Bool

abbrev pub demo_items : List Template
demo_items =
    record {
      kind = codes "login";
      title = codes "GitHub";
      username = codes "demo-builder";
      password = codes "X9#vQ2m!pLw4zR8k";
      urls = codes "https://github.com" ∷ [];
      notes = codes "Work + personal. 2FA via authenticator.";
      favorite = true;
    }
    ∷ record {
      kind = codes "login";
      title = codes "AWS Console";
      username = codes "demo-admin";
      password = codes "Kj7!nP9@wQx2vB6m";
      urls = codes "https://console.aws.amazon.com" ∷ [];
      notes = codes "Root access locked in vault — use IAM roles day-to-day.";
      favorite = true;
    }
    ∷ record {
      kind = codes "login";
      title = codes "Figma";
      username = codes "demo.designer";
      password = codes "Fg5@mN8#kJq3wR7z";
      urls = codes "https://figma.com" ∷ [];
      notes = [];
      favorite = false;
    }
    ∷ record {
      kind = codes "card";
      title = codes "Team Card";
      username = codes "VI 4242 4242 4242";
      password = codes "4242";
      urls = [];
      notes = codes "Demo card (test number). CVV 123, 12/29.";
      favorite = false;
    }
    ∷ record {
      kind = codes "note";
      title = codes "Wi-Fi (office)";
      username = [];
      password = [];
      urls = [];
      notes = codes "SSID: securevault-guest · key: \"coffee first, then code\"";
      favorite = false;
    }
    ∷ []

abbrev pub demo_folders : List Text
demo_folders = codes "Work" ∷ codes "Personal" ∷ []

-- The identifier and the two times of an item.
pub record Stamp : Type 0 where
  pub id : Text
  pub created_at : Text
  pub updated_at : Text

abbrev pub folder_of : ℕ → Text
folder_of i = if ltb i 2 then codes "Work" else codes "Personal"

-- The object that `item` makes, in the order of its properties.
unfoldable pub template_value : Template → ℕ → Stamp → Value
template_value t i stamp = object (
    field (codes "type") (string t.kind) (
      field (codes "title") (string t.title) (
        field (codes "username") (string t.username) (
          field (codes "password") (string t.password) (
            field (codes "urls") (array (strings t.urls)) (
              field (codes "notes") (string t.notes) (
                field (codes "favorite") (boolean t.favorite) (
                  field (codes "id") (string stamp.id) (
                    field (codes "created_at") (string stamp.created_at) (
                      field (codes "updated_at") (string stamp.updated_at)
                        (field (codes "folder") (string (folder_of i)) end)))))))))))

-- `DEMO_ITEMS.map(item)`, from the index on.
unfoldable pub seeded_from : (ℕ → Stamp) → ℕ → List Template → List Value
seeded_from stamps i [] = []
seeded_from stamps i (t ∷ ts) = template_value t i (stamps i) ∷ seeded_from stamps (suc i) ts

abbrev pub seeded_value : (ℕ → Stamp) → Value
seeded_value stamps = object (
    field (codes "items") (array (from_list (seeded_from stamps 0 demo_items)))
      (field (codes "folders") (array (strings demo_folders)) end))

module _ (p : Platform) where
  unfoldable pub seed_derive_vault_key : Text → Text → ℕ → p.CryptoKey
  seed_derive_vault_key password salt_b64 iterations =
      p.derive_key (encode password) (from_b64 salt_b64) iterations

  unfoldable pub seed_wrap_raw_key : p.CryptoKey → List ℕ → Text → List ℕ → KeyWrap
  seed_wrap_raw_key wrapping_key raw_vek aad nonce = record {
    ciphertext = b64 (p.encrypt wrapping_key nonce (encode aad) raw_vek);
    nonce = b64 nonce;
  }

  unfoldable pub seed_encrypt_envelope : p.CryptoKey → Value → List ℕ → KeyWrap
  seed_encrypt_envelope vek contents nonce = record {
    ciphertext = b64 (p.encrypt vek nonce [] (encode (p.stringify contents)));
    nonce = b64 nonce;
  }

  unfoldable pub seed_derive_recovery_key : Text → ℕ → p.CryptoKey
  seed_derive_recovery_key normalized_secret iterations =
      p.derive_key (encode normalized_secret) (encode recovery_salt) iterations

  -- The body of PUT /vault.
  unfoldable pub seed_update : Text → KdfParams → Random → (ℕ → Stamp) → VaultUpdate
  seed_update master reg r stamps =
      let kek = seed_derive_vault_key master reg.salt reg.iterations in
      let recovery_key = seed_derive_recovery_key (secret_chars r.secret) reg.iterations in
      record {
        version = 1;
        body = seed_encrypt_envelope (import_vek p r.vek) (seeded_value stamps) r.body_nonce;
        kek_wrap = some (seed_wrap_raw_key kek r.vek aad_kek r.kek_nonce);
        recovery_wrap = some (seed_wrap_raw_key recovery_key r.vek aad_recovery r.recovery_nonce);
      }

-- The printed Secret Key: `secretChars.replace(/(.{8})(?=.)/g, '$1-')`
unfoldable pub secret_key : (ℕ → ℕ) → Text
secret_key random = let chars = secret_chars random in group_chars (length chars) chars

-- What `call` gives: the status, the body and the cookie without its attributes.
pub record Answer : Type 0 where
  pub status : ℕ
  pub kdf : KdfParams
  pub cookie : Option Text

unfoldable pub cookie_of : Option Text → Option Text
cookie_of none = none
cookie_of (some set_cookie) = some (split_on b';' set_cookie).0

-- How the script ends: with exit code 1 and the status it names, or with what it shows.
pub data SeedEnd : Type 0 where
  not_implemented : SeedEnd
  register_failed upload_failed : ℕ → SeedEnd
  ready : Text → SeedEnd

module _ (p : Platform) where
  -- `login` answers the attempt of `--reset`, `register` and `put` the two calls; `put` has the cookie of
  -- the registration. The second part is what was uploaded.
  unfoldable pub seed :
      Bool
      → ℕ
      → Answer
      → (Option Text → VaultUpdate → ℕ)
      → Text
      → Random
      → (ℕ → Stamp)
      → SeedEnd × Option VaultUpdate
  seed reset login register put master r stamps =
      let req = seed_update p master register.kdf r stamps in
      let status = put register.cookie req in
      if reset
      then (if login == 200 || login == 202 then (not_implemented, none) else registered status req)
      else registered status req
    where
      registered : ℕ → VaultUpdate → SeedEnd × Option VaultUpdate
      registered status req =
          if not (register.status == 201)
          then (register_failed register.status, none)
          else (if not (status == 200)
              then (upload_failed status, some req)
              else (ready (secret_key r.secret), some req))
