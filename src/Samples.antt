-- ===== src/Samples.antt =====
-- Concrete values for the examples of the other modules: two accounts, a platform, a server.
use personal_password_manage.Prelude.{
  ℕ, ◌≡◌, refl, false, arith, none, some, List, [], ◌∷◌, Text, codes,
}
use personal_password_manage.Base64.{b64encode, b64decode}
use personal_password_manage.Base64.RoundTrip.{b64decode-b64encode}
use personal_password_manage.Json.{Value, null}
use personal_password_manage.Platform.{Platform, IsAuthenticated, IsWritten}
use personal_password_manage.Platform.Toy.{toy, toy-IsAuthenticated}
use personal_password_manage.Vault.{VaultItem, VaultState, idle}
use personal_password_manage.Api.{VaultMeta, VaultUpdate, ApiResult, value}
use personal_password_manage.Crypto.{derive_vault_key}
use personal_password_manage.Utf8.{encode}
use personal_password_manage.Envelope.RoundTrip.{envelope_value}
use personal_password_manage.Server.{Base64Crate, IsStandard, Server}

abbrev pub mail : VaultItem
mail = record {
  id = codes "a1";
  kind = codes "login";
  title = codes "Mail";
  username = some (codes "ann");
  password = some (codes "hunter2");
  urls = codes "mail.example.org" ∷ codes "imap.example.org" ∷ [];
  notes = none;
  favorite = false;
  folder = none;
  created_at = codes "2024";
  updated_at = codes "2024";
}

abbrev pub bank : VaultItem
bank = record mail {
  id = codes "b2";
  title = codes "Bank";
  username = none;
  password = none;
  urls = [];
}

abbrev pub items : List VaultItem
items = mail ∷ bank ∷ []

abbrev pub folders : List Text
folders = codes "Work" ∷ []

-- A platform whose JSON reads back these contents.
abbrev pub contents : Value
contents = envelope_value items folders

abbrev pub platform : Platform
platform = toy contents

pub platform-IsAuthenticated : IsAuthenticated platform
platform-IsAuthenticated = toy-IsAuthenticated contents

abbrev pub written : IsWritten platform contents
written = record { code_points = tt; read_back = refl }

abbrev pub crate : Base64Crate
crate = record { decode = b64decode; encode = b64encode }

pub crate-IsStandard : IsStandard crate
crate-IsStandard = record { decode-b64encode = b64decode-b64encode; encode_same = λ bs h. refl }

abbrev pub nonce : List ℕ
nonce = 1 ∷ 2 ∷ 3 ∷ 4 ∷ 5 ∷ 6 ∷ 7 ∷ 8 ∷ 9 ∷ 10 ∷ 11 ∷ 12 ∷ []

abbrev pub vek : List ℕ
vek = 7 ∷ 0 ∷ 255 ∷ []

abbrev pub master : Text
master = codes "correct horse"

abbrev pub store : VaultState (List ℕ)
store = record {
  is_locked = false;
  items = items;
  folders = folders;
  search_query = codes "MAI";
  selected_item = none;
  lock_timeout = 5;
  last_activity = 1000;
  key = some vek;
  server_version = 0;
  sync_state = idle;
  sync_error = none;
  sync_retry = 0;
}

abbrev pub server : Server
server = record {
  version = 1;
  updated_at = codes "2024";
  kdf = record {
    algorithm = codes "PBKDF2-SHA256";
    memory = 0;
    iterations = 3;
    parallelism = 1;
    salt = 5 ∷ [];
    encrypted_vault_key = [];
  };
  snapshot = none;
  kek_wrap = none;
  recovery_wrap = none;
}

abbrev pub meta : VaultMeta
meta = record {
  version = 1;
  ciphertext = none;
  nonce = none;
  updated_at = none;
  kdf_algorithm = codes "PBKDF2-SHA256";
  kdf_memory = 0;
  kdf_iterations = 3;
  kdf_parallelism = 1;
  kdf_salt = b64encode (5 ∷ []);
  encrypted_vault_key = [];
  kek_wrap = none;
  recovery_wrap = none;
}

-- Key derivation of this platform takes the bytes of the password, with the salt left aside.
abbrev pub kek : List ℕ
kek = encode master

pub derived_in :
    (v : Value) (s : Text) (n : ℕ)
    → derive_vault_key (toy v) s (b64encode (5 ∷ [])) n ≡ some (encode s)
unfolding derive_vault_key
derived_in v s n = rw (b64decode-b64encode (5 ∷ []) (omega arith))

pub derived :
    (s : Text) (n : ℕ) → derive_vault_key platform s (b64encode (5 ∷ [])) n ≡ some (encode s)
derived = derived_in contents

abbrev pub accept : VaultUpdate → ApiResult Value
accept req = value null
