-- ===== src/Settings/Backup.antt =====
-- A vault that is exported and imported again.
use personal_password_manage.Prelude.{
  ℕ, ◌≡◌, refl, ap, subst, ◌∙◌, true, false, Option, none, some, List, [], ◌∷◌, ◌++◌, length, ltb,
  Text, codes, js_length, is_some, IsByte, All,
}
use personal_password_manage.Base64.{b64encode}
use personal_password_manage.Json.{Value}
use personal_password_manage.Platform.{Platform, IsAuthenticated, IsWritten}
use personal_password_manage.Crypto.{derive_vault_key}
use personal_password_manage.Transfer.{
  VaultExportFile, file_value, payload_value, export_iterations, opened, create_encrypted_export,
  open_encrypted_export, read_export_file,
}
use personal_password_manage.Transfer.RoundTrip.{open_encrypted_export-create}
use personal_password_manage.Vault.{VaultItem, VaultState}
use personal_password_manage.Settings.{distinct, import_opened}
use personal_password_manage.Settings.Import.{new_items, import_opened-items}
use personal_password_manage.Settings.Access.{export_error}
use personal_password_manage.Settings.Handlers.{
  ExportForm, imported_text, handle_export, handle_import,
}

new_items-all : (items : List VaultItem) → new_items [] items ≡ items
new_items-all [] = refl
new_items-all (i ∷ items) = ap (λ (is : List VaultItem). i ∷ is) (new_items-all items)

export_error-none :
    {K : Type 0} (key : Option K) (passphrase : Text)
    → is_some key ≡ true
    → ltb (js_length passphrase) 8 ≡ false
    → export_error (is_some key) passphrase ≡ none
unfolding export_error
export_error-none key passphrase k long = rw (k, long) refl

module _ (p : Platform) (h : IsAuthenticated p) (of_step : Text) where
  -- The file that an unlocked vault exports under a passphrase of eight characters or more is imported with
  -- it into an empty unlocked vault: this one then has the items of the other, in their order, and its
  -- folders behind those it had, each once. The texts of the file and of its contents are read back.
  pub handle_import-handle_export :
      (pretty : Value → Text) (s t : VaultState p.CryptoKey) (form : ExportForm) (salt : List ℕ)
      (now : Text) (nonce : List ℕ) (key : p.CryptoKey) (f : VaultExportFile)
      → is_some s.key ≡ true
      → is_some t.key ≡ true
      → t.items ≡ []
      → ltb (js_length form.passphrase) 8 ≡ false
      → All IsByte nonce
      → IsWritten p (payload_value now s.items s.folders)
      → derive_vault_key p form.passphrase (b64encode salt) export_iterations ≡ some key
      → create_encrypted_export p form.passphrase s.items s.folders salt now nonce ≡ some f
      → p.parse (pretty (file_value f)) ≡ some (file_value f)
      → (text : Text) × ((handle_export p of_step pretty s salt now nonce form).downloaded
          ≡ some text)
        × (handle_import p of_step t (record {
          file = some text;
          passphrase = form.passphrase;
          error = none;
          result = none;
        })
            ≡ (
              record {
                file = none;
                passphrase = codes "";
                error = none;
                result = some (imported_text (length s.items));
              },
              record t { items = s.items; folders = distinct (t.folders ++ s.folders) },
            ))
  unfolding handle_export handle_import read_export_file
  handle_import-handle_export pretty s t form salt now nonce key f k l empty long bytes w d c read =
      let (g, made, back) =
        open_encrypted_export-create p h form.passphrase key s.items s.folders salt now nonce bytes
          w d in
      let same : g ≡ f = cc (made, c) in
      let opens : open_encrypted_export p form.passphrase (file_value f)
          ≡ opened (record { items = s.items; folders = s.folders; exported_at = some now }) =
        subst
          (λ (x : VaultExportFile).
            open_encrypted_export p form.passphrase (file_value x)
            ≡ opened (record { items = s.items; folders = s.folders; exported_at = some now }))
          same back in
      let all : (import_opened
            (record { items = s.items; folders = s.folders; exported_at = some now }) t)
          ≡ (
            record t { items = s.items; folders = distinct (t.folders ++ s.folders) },
            length s.items,
          ) =
        import_opened-items _ t ∙ rw (empty, new_items-all s.items) refl in
      (
        pretty (file_value f),
        rw (handle_export, export_error-none s.key form.passphrase k long, c) refl,
        rw (l, read, opens, all) refl,
      )
