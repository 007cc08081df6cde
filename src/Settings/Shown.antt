-- ===== src/Settings/Shown.antt =====
-- What the settings page shows of a new recovery kit.
use personal_password_manage.Prelude.{
  ℕ, ◌≡◌, refl, ap, inl, inr, ◌⊎◌, Option, none, some, List, Text, is_some, Unicode, Bool-cases,
}
use personal_password_manage.Json.{Value}
use personal_password_manage.Platform.{Platform}
use personal_password_manage.Crypto.{KeyWrap}
use personal_password_manage.Vault.{VaultState}
use personal_password_manage.Api.{VaultMeta, KeysUpdate, ApiResult, value, failed}
use personal_password_manage.Settings.{kit_wrap}
use personal_password_manage.Settings.Handlers.{
  KitPage, kit_stored, kit_wrapped, generate_with, handle_generate_kit,
}

module _ (p : Platform) (u : Unicode) where
  -- A Secret Key that the page did not show before is the one of a wrap that the server has taken.
  abbrev pub IsStored :
      (KeysUpdate → ApiResult Value)
      → VaultMeta
      → (ℕ → ℕ)
      → List ℕ
      → VaultState p.CryptoKey
      → Text
      → Type 0
  IsStored put_keys meta random nonce s secret =
      (wrap : KeyWrap) × (v : Value) × (kit_wrap p u meta random nonce s ≡ some (wrap, secret))
      × (put_keys (record { kek_wrap = none; recovery_wrap = some wrap }) ≡ value v)

  kit_stored-shown :
      (shown secret : Text) (a : ApiResult Value) (get : ApiResult VaultMeta) (k : KitPage)
      → k.secret_key ≡ none
      → (kit_stored p u shown a get k).secret_key ≡ some secret
      → (v : Value) × (a ≡ value v) × (shown ≡ secret)
  unfolding kit_stored
  kit_stored-shown shown secret (failed m) get k hidden h = cc
  kit_stored-shown shown secret (value v) (failed m) k hidden h = (v, refl, cc)
  kit_stored-shown shown secret (value v) (value fresh) k hidden h = (v, refl, cc)

  kit_wrapped-shown :
      (of_step secret : Text) (o : Option (KeyWrap × Text))
      (put_keys : KeysUpdate → ApiResult Value) (get : ApiResult VaultMeta) (k : KitPage)
      → k.secret_key ≡ none
      → (kit_wrapped p u of_step o put_keys get k).secret_key ≡ some secret
      → (wrap : KeyWrap) × (v : Value) × (o ≡ some (wrap, secret))
        × (put_keys (record { kek_wrap = none; recovery_wrap = some wrap }) ≡ value v)
  unfolding kit_wrapped
  kit_wrapped-shown of_step secret none put_keys get k hidden h = absurd (cc (hidden, h))
  kit_wrapped-shown of_step secret (some (wrap, shown)) put_keys get k hidden h =
      let (v, taken, same) = kit_stored-shown shown secret _ get k hidden h in
      (wrap, v, ap (λ (t : Text). some (wrap, t)) same, taken)

  generate_with-shown :
      (of_step : Text) (meta : VaultMeta) (random : ℕ → ℕ) (nonce : List ℕ)
      (put_keys : KeysUpdate → ApiResult Value) (get : ApiResult VaultMeta)
      (s : VaultState p.CryptoKey) (k : KitPage) (secret : Text)
      → k.secret_key ≡ none
      → (generate_with p u of_step meta random nonce put_keys get s k).secret_key ≡ some secret
      → IsStored put_keys meta random nonce s secret
  unfolding generate_with
  generate_with-shown of_step meta random nonce put_keys get s k secret hidden h =
      elim (Bool-cases (is_some meta.kek_wrap)) [
        | inr legacy ↦ absurd (cc (legacy, hidden, h))
        | inl wrapped ↦ elim (Bool-cases (is_some s.key)) [
          | inr locked ↦ absurd (cc (wrapped, locked, hidden, h))
          | inl unlocked ↦
              kit_wrapped-shown of_step secret (kit_wrap p u meta random nonce s) put_keys get k
                hidden (rw (wrapped, unlocked) at h)
        ]
      ]

  with_meta :
      (of_step secret : Text) (cached : Option VaultMeta) (first : ApiResult VaultMeta)
      (random : ℕ → ℕ) (nonce : List ℕ) (put_keys : KeysUpdate → ApiResult Value)
      (get : ApiResult VaultMeta) (s : VaultState p.CryptoKey) (k : KitPage)
      → k.meta ≡ cached
      → k.secret_key ≡ none
      → (handle_generate_kit p u of_step first random nonce put_keys get s k).secret_key
        ≡ some secret
      → (meta : VaultMeta) × IsStored put_keys meta random nonce s secret
        × ((cached ≡ some meta) ⊎ (first ≡ value meta))
  unfolding handle_generate_kit
  with_meta of_step secret (some meta) first random nonce put_keys get s k c hidden h = (
    meta,
    generate_with-shown of_step meta random nonce put_keys get s
        (record k { meta = some meta; error = none }) secret hidden (rw c at h),
    inl refl,
  )
  with_meta of_step secret none (failed m) random nonce put_keys get s k c hidden h =
      absurd (cc (hidden, rw c at h))
  with_meta of_step secret none (value meta) random nonce put_keys get s k c hidden h = (
    meta,
    generate_with-shown of_step meta random nonce put_keys get s
        (record k { meta = none; error = none }) secret hidden (rw c at h),
    inr refl,
  )

  -- Where the page comes to show a Secret Key, the vault was unlocked with a wrapped key, and the server has
  -- taken the wrap of this very Secret Key, made with the metadata that the page had or has fetched; this
  -- holds also where the fetch after the update fails and the page shows its error.
  pub handle_generate_kit-shown :
      (of_step secret : Text) (first : ApiResult VaultMeta) (random : ℕ → ℕ) (nonce : List ℕ)
      (put_keys : KeysUpdate → ApiResult Value) (get : ApiResult VaultMeta)
      (s : VaultState p.CryptoKey) (k : KitPage)
      → k.secret_key ≡ none
      → (handle_generate_kit p u of_step first random nonce put_keys get s k).secret_key
        ≡ some secret
      → (meta : VaultMeta) × IsStored put_keys meta random nonce s secret
        × ((k.meta ≡ some meta) ⊎ (first ≡ value meta))
  handle_generate_kit-shown of_step secret first random nonce put_keys get s k hidden h =
      with_meta of_step secret k.meta first random nonce put_keys get s k refl hidden h
