-- ===== src/Examples/Settling.antt =====
-- The settings page: a backup of the sample, and a new recovery kit; the audit log; and
-- writes to the server.
use personal_password_manage.Prelude.{
  ◌%◌, ℕ, ◌≡◌, refl, ◌⊎◌, Option, some, none, List, [], ◌∷◌, length, arith, Text, codes, ascii_only,
  is_empty, ap, js_length, if◌then◌else◌,
}
use personal_password_manage.Json.{Value, null}
use personal_password_manage.Platform.{Platform, IsAuthenticated}
use personal_password_manage.Platform.Toy.{toy, toy-IsAuthenticated}
use personal_password_manage.Base64.{b64encode}
use personal_password_manage.Base64.RoundTrip.{b64decode-b64encode}
use personal_password_manage.Utf8.{encode}
use personal_password_manage.Crypto.{
  encrypt_string, import_vek, KeyWrap, aad_kek, derive_vault_key, wrap_raw_key,
}
use personal_password_manage.Recovery.{generate_recovery_secret}
use personal_password_manage.Vault.{VaultState}
use personal_password_manage.Transfer.{
  VaultExportFile, payload_value, file_value, export_iterations, create_encrypted_export,
}
use personal_password_manage.Transfer.RoundTrip.{open_encrypted_export-create}
use personal_password_manage.Settings.{distinct}
use personal_password_manage.Settings.Keys.{kit_wrap-made}
use personal_password_manage.Settings.Handlers.{
  ExportForm, KitPage, imported_text, handle_export, handle_import, handle_generate_kit,
  generate_with, kit_wrapped, kit_stored,
}
use personal_password_manage.Settings.Backup.{handle_import-handle_export}
use personal_password_manage.Settings.Shown.{IsStored, handle_generate_kit-shown}
use personal_password_manage.Admin.{page_size}
use personal_password_manage.Admin.Auditing.{
  Audit, AuditAnswer, first_query, opened_log, set_query, fetch_query, older_exists, choose_type,
  to_older, answered,
}
use personal_password_manage.Admin.Auditing.Order.{
  start, chosen, first, older, shown_query, Reach-shown,
}
use personal_password_manage.Server.Register.{view, puts, writes, puts-writes}
use personal_password_manage.Server.Versions.{plain_update}
use personal_password_manage.Api.{VaultMeta, KeysUpdate, ApiResult, value, failed, VaultUpdate}
use personal_password_manage.Samples.{
  crate, server, kek, platform, platform-IsAuthenticated, items, folders, nonce, vek, meta, master,
  store,
}

abbrev payload : Value
payload = payload_value (codes "2024") items folders

derived_key :
    (s : Text)
    → derive_vault_key (toy payload) s (b64encode (5 ∷ [])) export_iterations ≡ some (encode s)
unfolding derive_vault_key
derived_key s = rw (b64decode-b64encode (5 ∷ []) (omega arith))

-- The file, and a platform that reads its text (an x) and that of its contents (empty).
abbrev made :
    (f : VaultExportFile) × (create_encrypted_export
        (toy payload)
        master
        items
        folders
        (5 ∷ [])
        (codes "2024")
        nonce
      ≡ some f)
made =
    let r =
      open_encrypted_export-create (toy payload) (toy-IsAuthenticated payload) master kek items
        folders (5 ∷ []) (codes "2024") nonce (omega arith)
        (record { code_points = tt; read_back = refl }) (derived_key master) in
    (r.0, r.1)

abbrev reader : Platform
reader = record (toy payload) {
  parse = λ t. if is_empty t then some payload else some (file_value made.0);
}

reader-IsAuthenticated : IsAuthenticated reader
reader-IsAuthenticated =
    let h = toy-IsAuthenticated payload in
    record {
      decrypt-encrypt = h.decrypt-encrypt;
      encrypt-IsByte = h.encrypt-IsByte;
      encrypt_not_empty = h.encrypt_not_empty;
      rejects_key = h.rejects_key;
      rejects_aad = h.rejects_aad;
      export-import = h.export-import;
    }

abbrev fresh : VaultState (List ℕ)
fresh = record store { items = []; folders = codes "Home" ∷ [] }

abbrev form : ExportForm
form = record { passphrase = master; error = none; downloaded = none }

handle_import-handle_export_example :
    (text : Text) × ((handle_export reader []
        (λ v. b'x' ∷ [])
        store
        (5 ∷ [])
        (codes "2024")
        nonce
        form).downloaded
      ≡ some text)
    × (handle_import reader [] fresh
          (record { file = some text; passphrase = master; error = none; result = none })
        ≡ (
          record {
            file = none;
            passphrase = codes "";
            error = none;
            result = some (imported_text (length items));
          },
          record fresh { items = items; folders = distinct (codes "Home" ∷ folders) },
        ))
unfolding js_length derive_vault_key create_encrypted_export encrypt_string
handle_import-handle_export_example =
    handle_import-handle_export reader reader-IsAuthenticated [] (λ v. b'x' ∷ []) store fresh form
      (5 ∷ []) (codes "2024") nonce kek made.0 refl refl refl refl (omega arith)
      (record { code_points = tt; read_back = refl }) (derived_key master) made.1 refl

abbrev keyed : VaultMeta
keyed = record meta { kek_wrap = some (wrap_raw_key platform kek vek aad_kek nonce) }

abbrev kit : KitPage
kit = record { meta = none; secret_key = none; error = some (codes "before") }

abbrev takes : KeysUpdate → ApiResult Value
takes req = value null

shown :
    (handle_generate_kit platform ascii_only []
      (value keyed)
      (λ i. i)
      nonce
      takes
      (failed (codes "API error 500"))
      store
      kit).secret_key
    ≡ some (generate_recovery_secret (λ i. i))
unfolding handle_generate_kit generate_with kit_wrapped kit_stored import_vek
shown =
    ap
      (λ (o : Option (KeyWrap × Text)).
        (kit_wrapped platform ascii_only [] o takes (failed (codes "API error 500"))
          (record { meta = none; secret_key = none; error = none })).secret_key)
      (kit_wrap-made platform platform-IsAuthenticated ascii_only keyed (λ i. i) nonce vek store
        (wrap_raw_key platform kek vek aad_kek nonce) refl refl)

handle_generate_kit-shown_example :
    (m : VaultMeta) × IsStored platform ascii_only takes m
      (λ i. i)
      nonce
      store
      (generate_recovery_secret (λ i. i))
    × ((kit.meta ≡ some m) ⊎ (value keyed ≡ value m))
handle_generate_kit-shown_example =
    handle_generate_kit-shown platform ascii_only [] (generate_recovery_secret (λ i. i))
      (value keyed) (λ i. i) nonce takes (failed (codes "API error 500")) store kit refl shown

abbrev many : ApiResult AuditAnswer
many = value (record { total = 120; limit = 50 })

-- The first page, then the next one, then the sign-ins.
abbrev paged : Audit
paged = to_older (answered first_query [] many opened_log)

abbrev filtered : Audit
filtered =
    choose_type (codes "LOGIN_FAILED")
      (answered (record { event_type = []; offset = 50 }) [] many paged)

abbrev log : Audit
log = answered (record { event_type = codes "LOGIN_FAILED"; offset = 0 }) [] many filtered

Reach-shown_example : (shown_query log.shown ≡ some log.query) × (log.query.offset % page_size ≡ 0)
unfolding answered to_older choose_type set_query fetch_query older_exists
Reach-shown_example =
    Reach-shown
      (first _ [] many refl
        (chosen (codes "LOGIN_FAILED") (first _ [] many refl (older (first _ [] many refl start)))))
      refl refl

-- The first version twice, one with a short nonce, and the second version.
abbrev requests : List (VaultUpdate × Text)
requests =
    (plain_update crate 1 vek nonce, codes "2025")
    ∷ (plain_update crate 1 kek nonce, codes "2025")
    ∷ (plain_update crate 2 kek vek, codes "2025")
    ∷ (plain_update crate 2 kek nonce, codes "2026")
    ∷ []

puts-writes_example :
    ((puts crate requests server).0 ≡ (writes crate requests (view server)).0)
    × (view (puts crate requests server).1 ≡ (writes crate requests (view server)).1)
puts-writes_example = puts-writes crate requests server
