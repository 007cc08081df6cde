-- ===== src/Examples/Widgets.antt =====
-- The view of the store, the passkey ceremonies, the clipboard, the generator, the newest accounts and the
-- emergency kit.
use personal_password_manage.Prelude.{
  ascii_only, ℕ, ◌≡◌, ◌≤◌, refl, true, false, some, none, List, [], ◌∷◌, arith, Text, codes, any,
  leb, if◌then◌else◌, All, length,
}
use personal_password_manage.Base64.{b64url_to_buffer}
use personal_password_manage.Vault.{no_updates}
use personal_password_manage.Vault.Refines.{
  run, view, replay, Edit, add, update, remove, run-refines,
}
use personal_password_manage.Passkeys.{
  RequestOptions, Assertion, Prompted, given, done, get_passkey_assertion,
}
use personal_password_manage.Passkeys.Bytes.{written_request, get_passkey_assertion-carries}
use personal_password_manage.Clipboard.{Clip, clear_after, handle_copy, wait}
use personal_password_manage.Clipboard.Clearing.{handle_copy-cleared}
use personal_password_manage.Password.Generated.{allowed}
use personal_password_manage.Generator.{Form, Class, opened, first_password, set_length, set_class}
use personal_password_manage.Generator.Shown.{rendered, sized, checked, Reach-current}
use personal_password_manage.Recovery.{
  SecretResult, secret_chars, generate_recovery_secret, normalize_recovery_secret,
}
use personal_password_manage.Kit.{registration_kit}
use personal_password_manage.Kit.Lines.{read_secret, is_line-IsLine, registration_kit-read}
use personal_password_manage.Samples.{mail, store}

abbrev edits : List Edit
edits =
    add (record mail { id = codes "c3" })
    ∷ update (codes "c3") (record no_updates { title = some (codes "Post") }) (codes "2025")
    ∷ remove (codes "a1")
    ∷ add mail
    ∷ []

run-refines_example : view (run edits store) ≡ replay edits (view store)
run-refines_example = run-refines edits store (tt, (refl, (tt, (tt, tt))))

abbrev asked : RequestOptions (List ℕ)
asked = record {
  challenge = 251 ∷ 255 ∷ 0 ∷ 7 ∷ [];
  rp_id = none;
  allow = some ((1 ∷ 2 ∷ []) ∷ []);
  timeout = none;
  user_verification = none;
}

abbrev answer : Assertion (List ℕ)
answer = record {
  credential_id = 1 ∷ 2 ∷ [];
  authenticator_data = 5 ∷ [];
  client_data = 6 ∷ [];
  signature = 7 ∷ 8 ∷ 9 ∷ [];
}

abbrev prompt : RequestOptions (List ℕ) → Prompted (Assertion (List ℕ))
prompt o = given answer

get_passkey_assertion-carries_example :
    (sent : Assertion Text) × (get_passkey_assertion prompt (written_request asked) ≡ done sent)
    × (b64url_to_buffer sent.credential_id ≡ some (1 ∷ 2 ∷ []))
    × (b64url_to_buffer sent.authenticator_data ≡ some (5 ∷ []))
    × (b64url_to_buffer sent.client_data ≡ some (6 ∷ []))
    × (b64url_to_buffer sent.signature ≡ some (7 ∷ 8 ∷ 9 ∷ []))
get_passkey_assertion-carries_example =
    get_passkey_assertion-carries prompt asked answer (omega arith) ((omega arith), tt) refl
      (omega arith) (omega arith) (omega arith) (omega arith)

abbrev clip : Clip
clip = record { clipboard = []; copied = none; timers = 20000 ∷ [] }

handle_copy-cleared_example :
    let over = any (λ left. leb left 25000) (clear_after ∷ 20000 ∷ []) in
    let later = wait 25000 (handle_copy (codes "hunter2") (codes "password") clip) in
    (later.clipboard ≡ (if over then [] else codes "hunter2"))
    × (later.copied ≡ (if over then none else some (codes "password")))
handle_copy-cleared_example =
    handle_copy-cleared (codes "hunter2") (codes "password") clip 25000 (omega arith)

abbrev form : Form
form =
    set_class Class.symbols false (λ i. i)
      (set_length 12 (λ i. i) (first_password (λ i. i) (opened clip)))

Reach-current_example :
    (8 ≤ form.length)
    × (form.length ≤ 64)
    × (length form.password ≡ form.length)
    × All (λ c. allowed form.classes c ≡ true) form.password
Reach-current_example = Reach-current (
    checked Class.symbols false (λ i. i)
      (sized 12 (λ i. i) (omega arith) (omega arith) (rendered clip (λ i. i))))

registration_kit-read_example :
    let email = codes "ann@example.org" in
    (kit : Text) × (secret_key : Text) × (registration_kit email
        (some (generate_recovery_secret (λ i. i)))
      ≡ some kit)
    × (read_secret kit ≡ some secret_key)
    × (normalize_recovery_secret ascii_only secret_key ≡ SecretResult.ok (secret_chars (λ i. i)))
registration_kit-read_example =
    registration_kit-read ascii_only (codes "ann@example.org") (λ i. i)
      (is_line-IsLine (codes "ann@example.org") refl)
