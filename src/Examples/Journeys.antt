-- ===== src/Examples/Journeys.antt =====
-- The registration and the demonstration, from end to end.
use personal_password_manage.Prelude.{
  ℕ, zero, suc, ◌≡◌, refl, some, none, List, [], ◌∷◌, arith, Text, text_eq_apart, codes, length,
  js_length, ascii_only,
}
use personal_password_manage.Utf8.{encode, encode_char}
use personal_password_manage.Base64.{b64encode}
use personal_password_manage.Base64.RoundTrip.{b64decode-b64encode}
use personal_password_manage.Settings.{kit_wrap}
use personal_password_manage.Settings.Keys.{kit_wrap-replaces}
use personal_password_manage.Json.{Value}
use personal_password_manage.Platform.{Platform}
use personal_password_manage.Platform.Toy.{toy_encrypt, frame, unary}
use personal_password_manage.Crypto.{KeyWrap, derive_vault_key, derive_recovery_key, import_vek}
use personal_password_manage.Password.{pick_chars, draw, char_at}
use personal_password_manage.Recovery.{
  SecretResult, secret_chars, generate_recovery_secret, normalize_recovery_secret,
}
use personal_password_manage.Envelope.RoundTrip.{envelope_value}
use personal_password_manage.Api.{VaultUpdate, ApiResult}
use personal_password_manage.VaultKeys.{
  recovered, refused, wrong_key, resolve_vault_key_with_secret_key,
}
use personal_password_manage.Unlock.{Page, password, enter_vault, handle_unlock}
use personal_password_manage.Register.{KdfParams, Random, first_update}
use personal_password_manage.Server.{Server, done, update_vault, update_vault_keys, get_vault}
use personal_password_manage.Server.Wrapped.{IsSealed}
use personal_password_manage.Journey.{
  sealed_body, sealed_kek, sealed_recovery, first_update-journey,
}
use personal_password_manage.Seed.{
  Stamp, demo_items, demo_folders, seeded_value, seed_update, secret_key,
}
use personal_password_manage.Seed.Ceremony.{items_from, seed_update-opens, seed_update-first_update}
use personal_password_manage.Samples.{crate, crate-IsStandard, nonce, master, store, server, accept}
use personal_password_manage.Examples.Compact.{compact, compact-IsAuthenticated, short}

abbrev zeros : ℕ → List ℕ
zeros zero = []
zeros (suc n) = 0 ∷ zeros n

abbrev drawn : Random
drawn = record {
  vek = zeros 32;
  secret = λ i. i;
  kek_nonce = nonce;
  recovery_nonce = nonce;
  body_nonce = nonce;
}

abbrev empty : Platform
empty = compact (envelope_value [] [])

abbrev page : Page (List ℕ)
page = record {
  mode = password;
  master_password = master;
  secret_input = [];
  new_master = [];
  confirm_new_master = [];
  error = none;
  pending_rewrap = none;
  store = store;
  route = none;
}

derived : (v : Value) → derive_vault_key (compact v) master (b64encode (5 ∷ [])) 3 ≡ some (0 ∷ [])
unfolding derive_vault_key encode encode_char
derived v = rw (b64decode-b64encode (5 ∷ []) (omega arith))

kek-IsSealed : (v : Value) → IsSealed (sealed_kek (compact v) (0 ∷ []) drawn)
kek-IsSealed v = record {
  ciphertext_bytes =
      (compact-IsAuthenticated v).encrypt-IsByte (0 ∷ []) nonce _ (zeros 32) (omega arith);
  nonce_bytes = omega arith;
  nonce_length = refl;
}

recovery-IsSealed : (v : Value) → IsSealed (sealed_recovery (compact v) 3 drawn)
recovery-IsSealed v = record {
  ciphertext_bytes = (compact-IsAuthenticated v).encrypt-IsByte _ nonce _ (zeros 32) (omega arith);
  nonce_bytes = omega arith;
  nonce_length = refl;
}

body-IsSealed : (v : Value) → IsSealed (sealed_body (compact v) v drawn)
unfolding encode
body-IsSealed v = record {
  ciphertext_bytes = (compact-IsAuthenticated v).encrypt-IsByte _ nonce [] [] tt;
  nonce_bytes = omega arith;
  nonce_length = refl;
}

abbrev kdf : KdfParams
kdf = record { salt = b64encode (5 ∷ []); iterations = 3 }

kek_length : (v : Value) → length (sealed_kek (compact v) (0 ∷ []) drawn).ciphertext ≡ 48
unfolding short toy_encrypt frame unary encode encode_char
kek_length v = refl

recovery_length : (v : Value) → length (sealed_recovery (compact v) 3 drawn).ciphertext ≡ 48
unfolding short toy_encrypt frame unary encode encode_char derive_recovery_key secret_chars
    pick_chars draw char_at
recovery_length v = refl

first_update-journey_example :
    (req : VaultUpdate) × (shown : Text) × (t : Server) × (first_update empty ascii_only master kdf
        drawn
      ≡ some (req, shown))
    × (update_vault crate req (codes "2024") server ≡ done t)
    × (handle_unlock empty ascii_only (ApiResult.value (get_vault crate t)) accept [] [] [] page
        ≡ enter_vault
            (import_vek empty (zeros 32))
            (record { items = []; folders = []; server_version = 1 })
            page)
    × (normalize_recovery_secret ascii_only shown ≡ SecretResult.ok (secret_chars (λ i. i)))
    × (resolve_vault_key_with_secret_key empty (get_vault crate t) (secret_chars (λ i. i))
        ≡ recovered (record { data_key = import_vek empty (zeros 32); raw_vek = zeros 32 }))
unfolding js_length
first_update-journey_example =
    first_update-journey empty (compact-IsAuthenticated (envelope_value [] [])) crate
      crate-IsStandard ascii_only master (codes "2024") drawn (0 ∷ []) server accept [] [] [] page
      (omega arith) (body-IsSealed (envelope_value [] [])) (kek-IsSealed (envelope_value [] []))
      (recovery-IsSealed (envelope_value [] [])) (kek_length (envelope_value [] []))
      (recovery_length (envelope_value [] [])) (record { code_points = tt; read_back = refl })
      (omega arith) refl (derived (envelope_value [] [])) refl refl

abbrev row : Server
row = record server { kek_wrap = some (sealed_kek empty (0 ∷ []) drawn) }

kit_wrap-replaces_example :
    (w : KeyWrap) × (after : Server) × (kit_wrap empty ascii_only
        (get_vault crate row)
        (λ i. i)
        nonce
        (record store { key = some (import_vek empty (zeros 32)) })
      ≡ some (w, generate_recovery_secret (λ i. i)))
    × (update_vault_keys crate
          (record { kek_wrap = none; recovery_wrap = some w })
          (codes "2026")
          row
        ≡ done after)
    × (resolve_vault_key_with_secret_key empty (get_vault crate after) (secret_chars (λ i. i))
        ≡ recovered (record { data_key = import_vek empty (zeros 32); raw_vek = zeros 32 }))
    × (resolve_vault_key_with_secret_key empty (get_vault crate after) [] ≡ refused wrong_key)
    × ((get_vault crate after).kek_wrap ≡ (get_vault crate row).kek_wrap)
    × ((get_vault crate after).ciphertext ≡ (get_vault crate row).ciphertext)
unfolding derive_recovery_key encode encode_char secret_chars pick_chars draw char_at
kit_wrap-replaces_example =
    kit_wrap-replaces empty (compact-IsAuthenticated (envelope_value [] [])) ascii_only crate
      (λ i. i) nonce (zeros 32) (record store { key = some (import_vek empty (zeros 32)) }) row
      (sealed_kek empty (0 ∷ []) drawn) [] (codes "2026") crate-IsStandard (omega arith)
      (omega arith) refl refl refl (recovery_length (envelope_value [] [])) (text_eq_apart _ _ refl)

abbrev stamps : ℕ → Stamp
stamps i = record { id = i ∷ []; created_at = codes "2024"; updated_at = codes "2024" }

abbrev demo : Platform
demo = compact (seeded_value stamps)

seed_update-first_update_example :
    let req = seed_update demo master kdf drawn stamps in
    (own : VaultUpdate) × (first_update demo ascii_only master kdf drawn
      ≡ some (own, secret_key (λ i. i)))
    × (req.version ≡ own.version)
    × (req.kek_wrap ≡ own.kek_wrap)
    × (req.recovery_wrap ≡ own.recovery_wrap)
seed_update-first_update_example =
    seed_update-first_update demo ascii_only master (5 ∷ []) 3 drawn stamps (0 ∷ []) (omega arith)
      (derived (seeded_value stamps))

seed_update-opens_example :
    (t : Server) × (update_vault crate
        (seed_update demo master kdf drawn stamps)
        (codes "2024")
        server
      ≡ done t)
    × (handle_unlock demo ascii_only (ApiResult.value (get_vault crate t)) accept [] [] [] page
        ≡ enter_vault
            (import_vek demo (zeros 32))
            (record {
              items = items_from stamps 0 demo_items;
              folders = demo_folders;
              server_version = 1;
            })
            page)
    × (normalize_recovery_secret ascii_only (secret_key (λ i. i))
        ≡ SecretResult.ok (secret_chars (λ i. i)))
    × (resolve_vault_key_with_secret_key demo (get_vault crate t) (secret_chars (λ i. i))
        ≡ recovered (record { data_key = import_vek demo (zeros 32); raw_vek = zeros 32 }))
unfolding js_length
seed_update-opens_example =
    seed_update-opens demo (compact-IsAuthenticated (seeded_value stamps)) crate crate-IsStandard
      ascii_only master (codes "2024") drawn stamps (0 ∷ []) server accept [] [] [] page
      (omega arith) (body-IsSealed (seeded_value stamps)) (kek-IsSealed (seeded_value stamps))
      (recovery-IsSealed (seeded_value stamps)) (kek_length (seeded_value stamps))
      (recovery_length (seeded_value stamps)) (record { code_points = tt; read_back = refl })
      (omega arith) refl (derived (seeded_value stamps)) refl refl
