-- ===== src/Settings.antt =====
-- app/settings/page.tsx: the import, the change of the master password and the recovery kit. The answers of
-- the server and random bytes are arguments; `of_step` is the message of a step that throws in the runtime.
pub mod Import
pub mod Keys
pub mod Access
pub mod Handlers
pub mod Backup
pub mod Shown
use personal_password_manage.Prelude.{
  ℕ, ◌+◌, Bool, true, false, not, ◌||◌, Option, none, some, List, [], ◌∷◌, ◌++◌, map, if◌then◌else◌,
  ltb, Text, codes, text_eq, is_empty, js_length, any, is_some, Unicode,
}
use personal_password_manage.Json.{Value}
use personal_password_manage.Platform.{Platform}
use personal_password_manage.Crypto.{
  KeyWrap, aad_kek, aad_recovery, derive_vault_key, derive_recovery_key, generate_vek, import_vek,
  wrap_raw_key, unwrap_raw_key,
}
use personal_password_manage.Recovery.{
  SecretError, SecretResult, generate_recovery_secret, normalize_recovery_secret,
}
use personal_password_manage.Envelope.{EnvelopeResult, encrypt_envelope, decrypt_envelope}
use personal_password_manage.Api.{VaultMeta, VaultUpdate, KeysUpdate, ApiResult, session_expired}
use personal_password_manage.Sync.{new_version}
use personal_password_manage.Transfer.{Opened}
use personal_password_manage.Vault.{
  VaultItem, VaultState, add_item, set_folders, set_server_version, rekey,
}

abbrev pub known : List Text → Text → Bool
known ids id = any (λ other. text_eq other id) ids

-- `Array.from(new Set(xs))`: each text at its first place.
pub distinct_from : List Text → List Text → List Text
distinct_from seen [] = []
distinct_from seen (x ∷ xs) =
    let skip = distinct_from seen xs in
    let keep = x ∷ distinct_from (x ∷ seen) xs in if known seen x then skip else keep

unfoldable pub distinct : List Text → List Text
unfolding distinct_from
distinct xs = distinct_from [] xs

module _ {K : Type 0} where
  -- The loop of `handleImport` over the items of the file: the store, and how many were added.
  unfoldable pub add_new : List Text → List VaultItem → ℕ → VaultState K → VaultState K × ℕ
  add_new existing [] added s = (s, added)
  add_new existing (item ∷ items) added s =
      let skip = add_new existing items added s in
      let add = add_new existing items (added + 1) (add_item item s) in
      if known existing item.id then skip else add

  -- The rest of `handleImport` after the file was opened.
  unfoldable pub import_opened : Opened → VaultState K → VaultState K × ℕ
  import_opened file s =
      let (t, added) = add_new (map (λ (i : VaultItem). i.id) s.items) file.items 0 s in
      (set_folders (distinct (s.folders ++ file.folders)) t, added)

pub data ChangeFailure : Type 0 where
  no_match too_short no_current incorrect not_initialized expired : ChangeFailure
  message : Text → ChangeFailure

pub data Rewrap : Type 0 where
  wrong_current thrown : Rewrap
  wrapped : KeyWrap → Rewrap

-- How the change of the master password ends.
pub data Change (K : Type 0) : Type 0 where
  refused : ChangeFailure → Change K
  rewrapped : Change K
  upgraded : VaultState K → Change K

abbrev pub call_failure : Unicode → Text → ChangeFailure
call_failure u text = if session_expired u text then expired else message text

unfoldable pub form_failure : Text → Text → Text → Option ChangeFailure
form_failure current new confirm =
    if not (text_eq new confirm)
    then some no_match
    else (if ltb (js_length new) 12
        then some too_short
        else (if ltb (js_length current) 1 then some no_current else none))

module _ (p : Platform) (u : Unicode) where
  -- A vault with a wrapped key: the wrap under the new password, or the failure.
  unfoldable pub rewrap : VaultMeta → KeyWrap → Text → Text → List ℕ → Rewrap
  rewrap meta old current new nonce =
      elim (open_old (derive_vault_key p current meta.kdf_salt meta.kdf_iterations)) [
        | none ↦ wrong_current
        | some raw ↦ elim (derive_vault_key p new meta.kdf_salt meta.kdf_iterations) [
          | none ↦ thrown
          | some kek ↦ wrapped (wrap_raw_key p kek raw aad_kek nonce)
        ]
      ]
    where
      open_old : Option p.CryptoKey → Option (List ℕ)
      open_old none = none
      open_old (some kek) = unwrap_raw_key p kek old aad_kek

  unfoldable pub change_wrapped :
      Text
      → (KeysUpdate → ApiResult Value)
      → VaultMeta
      → KeyWrap
      → Text
      → Text
      → List ℕ
      → Change p.CryptoKey
  change_wrapped of_step put_keys meta old current new nonce =
      elim (rewrap meta old current new nonce) [
        | wrong_current ↦ refused incorrect
        | thrown ↦ refused (call_failure u of_step)
        | wrapped wrap ↦ elim (put_keys (record { kek_wrap = some wrap; recovery_wrap = none })) [
          | ApiResult.failed text ↦ refused (call_failure u text)
          | ApiResult.value v ↦ rewrapped
        ]
      ]

  -- The snapshot of a legacy vault under a fresh key.
  unfoldable pub upgrade_update :
      p.CryptoKey → List ℕ → List ℕ → List ℕ → VaultState p.CryptoKey → VaultUpdate
  upgrade_update kek raw wrap_nonce nonce s = record {
    version = s.server_version + 1;
    body = encrypt_envelope p (import_vek p raw) s.items s.folders nonce;
    kek_wrap = some (wrap_raw_key p kek raw aad_kek wrap_nonce);
    recovery_wrap = none;
  }

  unfoldable pub change_legacy :
      Text
      → (VaultUpdate → ApiResult Value)
      → VaultMeta
      → Text
      → Text
      → Text
      → Text
      → List ℕ
      → List ℕ
      → List ℕ
      → VaultState p.CryptoKey
      → Change p.CryptoKey
  change_legacy of_step put meta ciphertext body_nonce current new raw wrap_nonce nonce s =
      elim (derive_vault_key p current meta.kdf_salt meta.kdf_iterations) [
        | none ↦ refused (call_failure u of_step)
        | some old_key ↦ elim (decrypt_envelope p old_key ciphertext body_nonce) [
          | EnvelopeResult.err e ↦ refused incorrect
          | EnvelopeResult.ok e ↦ elim (derive_vault_key p new meta.kdf_salt meta.kdf_iterations) [
            | none ↦ refused (call_failure u of_step)
            | some kek ↦ elim (new_version (put (upgrade_update kek raw wrap_nonce nonce s))) [
              | ApiResult.failed text ↦ refused (call_failure u text)
              | ApiResult.value version ↦
                  upgraded (set_server_version version (rekey (import_vek p raw) s))
            ]
          ]
        ]
      ]

  abbrev pub truthy : Option Text → Option Text
  truthy none = none
  truthy (some s) = if is_empty s then none else some s

  -- `handleChangeMaster` with the vault's metadata at hand.
  unfoldable pub handle_change_master :
      Text
      → (VaultUpdate → ApiResult Value)
      → (KeysUpdate → ApiResult Value)
      → VaultMeta
      → Text
      → Text
      → Text
      → List ℕ
      → List ℕ
      → List ℕ
      → VaultState p.CryptoKey
      → Change p.CryptoKey
  handle_change_master of_step put put_keys meta current new confirm raw wrap_nonce nonce s =
      elim (form_failure current new confirm) [
        | some e ↦ refused e
        | none ↦ elim meta.kek_wrap [
          | some old ↦ change_wrapped of_step put_keys meta old current new wrap_nonce
          | none ↦ elim (truthy meta.ciphertext) [
            | none ↦ refused not_initialized
            | some ciphertext ↦ elim (truthy meta.nonce) [
              | none ↦ refused not_initialized
              | some body_nonce ↦
                  change_legacy of_step put meta ciphertext body_nonce current new raw wrap_nonce
                    nonce s
            ]
          ]
        ]
      ]

  -- The wrap of a new recovery kit and its secret; `none` where a guard or a step stops it.
  unfoldable pub kit_wrap :
      VaultMeta → (ℕ → ℕ) → List ℕ → VaultState p.CryptoKey → Option (KeyWrap × Text)
  kit_wrap meta random nonce s = if not (is_some meta.kek_wrap) then none else elim s.key [
    | none ↦ none
    | some key ↦ elim (p.export_key key) [
      | none ↦ none
      | some raw ↦ elim (normalize_recovery_secret u (generate_recovery_secret random)) [
        | SecretResult.err e ↦ none
        | SecretResult.ok normalized ↦ some (
          wrap_raw_key p (derive_recovery_key p normalized meta.kdf_iterations) raw aad_recovery
              nonce,
          generate_recovery_secret random,
        )
      ]
    ]
  ]
