-- ===== src/Unlock/Rewrap.antt =====
-- The new master password after a recovery, at the unlock page: what the wrap that is uploaded opens to, at
-- the first attempt and after a failed one.
use personal_password_manage.Prelude.{
  ℕ, ◌≡◌, refl, ◌⊎◌, inl, inr, true, false, none, some, List, [], ◌∷◌, arith, ltb, Text, IsByte,
  All, js_length, Unicode, text_eq, Bool-cases, Option-cases,
}
use personal_password_manage.Platform.{Platform, IsAuthenticated}
use personal_password_manage.Crypto.Wraps.{unwrap-wrap}
use personal_password_manage.Unlock.Reading.{resolve-v2}
use personal_password_manage.Api.{KeysUpdate, ApiResult}
use personal_password_manage.Json.{Value}
use personal_password_manage.VaultKeys.{Mode, resolve_vault_key_with_master_password}
use personal_password_manage.Crypto.{aad_kek, derive_vault_key, import_vek, wrap_raw_key, KeyWrap}
use personal_password_manage.Unlock.{Page, Pending, zeroed, handle_set_new_master}

answer_cases :
    {A : Type 0} (r : ApiResult A)
    → ((v : A) × (r ≡ ApiResult.value v)) ⊎ ((t : Text) × (r ≡ ApiResult.failed t))
answer_cases (ApiResult.value v) = inl (v, refl)
answer_cases (ApiResult.failed t) = inr (t, refl)

zeroed-IsByte : (raw : List ℕ) → All IsByte (zeroed raw)
zeroed-IsByte [] = tt
zeroed-IsByte (b ∷ raw) = (omega arith, zeroed-IsByte raw)

-- The key update of a new master password.
abbrev only_kek : KeyWrap → KeysUpdate
only_kek wrap = record { kek_wrap = some wrap; recovery_wrap = none }

module _ (p : Platform) where
  -- Nothing waits for a wrap any more only after the server took one.
  handle_set_new_master-taken :
      (u : Unicode) (of_salt : Text) (put_keys : KeysUpdate → ApiResult Value) (nonce : List ℕ)
      (page : Page p.CryptoKey) (pending : Pending)
      → page.pending_rewrap ≡ some pending
      → (handle_set_new_master p u of_salt put_keys nonce page).pending_rewrap ≡ none
      → (kek : p.CryptoKey) × (v : Value) × (derive_vault_key p page.new_master
            pending.meta.kdf_salt pending.meta.kdf_iterations
          ≡ some kek)
        × (put_keys (only_kek (wrap_raw_key p kek pending.raw_vek aad_kek nonce))
            ≡ ApiResult.value v)
  unfolding handle_set_new_master
  handle_set_new_master-taken u of_salt put_keys nonce page pending q h =
      let out = handle_set_new_master p u of_salt put_keys nonce page in
      elim (Bool-cases (text_eq page.new_master page.confirm_new_master)) [
        | inr m ↦
            let kept : out.pending_rewrap ≡ page.pending_rewrap =
              rw (m, handle_set_new_master) refl in
            absurd (cc (kept, h, q))
        | inl m ↦ elim (Bool-cases (ltb (js_length page.new_master) 12)) [
          | inl l ↦
              let kept : out.pending_rewrap ≡ page.pending_rewrap =
                rw (m, l, handle_set_new_master) refl in
              absurd (cc (kept, h, q))
          | inr l ↦
              elim (Option-cases (
                derive_vault_key p page.new_master pending.meta.kdf_salt
                  pending.meta.kdf_iterations)) [
                    | inl d ↦
                        let kept : out.pending_rewrap ≡ some pending =
                          rw (m, l, handle_set_new_master, q, d) q in
                        absurd (cc (kept, h))
                    | inr (kek, d) ↦
                        elim (answer_cases (
                          put_keys (only_kek (wrap_raw_key p kek pending.raw_vek aad_kek nonce)))) [
                            | inl (v, sent) ↦ (kek, v, d, sent)
                            | inr (t, sent) ↦
                                let kept : out.pending_rewrap
                                    ≡ some (record pending { raw_vek = zeroed pending.raw_vek }) =
                                  rw (m, l, handle_set_new_master, q, d, sent) refl in
                                absurd (cc (kept, h))
                          ]
                  ]
        ]
      ]

  handle_set_new_master-cleared :
      (u : Unicode) (of_salt t : Text) (put_keys : KeysUpdate → ApiResult Value) (nonce : List ℕ)
      (page : Page p.CryptoKey) (pending : Pending) (kek : p.CryptoKey)
      → text_eq page.new_master page.confirm_new_master ≡ true
      → ltb (js_length page.new_master) 12 ≡ false
      → page.pending_rewrap ≡ some pending
      → derive_vault_key p page.new_master pending.meta.kdf_salt pending.meta.kdf_iterations
        ≡ some kek
      → put_keys (only_kek (wrap_raw_key p kek pending.raw_vek aad_kek nonce)) ≡ ApiResult.failed t
      → (handle_set_new_master p u of_salt put_keys nonce page).pending_rewrap
        ≡ some (record pending { raw_vek = zeroed pending.raw_vek })
  unfolding handle_set_new_master
  handle_set_new_master-cleared u of_salt t put_keys nonce page pending kek m l q d sent =
      rw (m, l, handle_set_new_master, q, d, sent) refl

module _ (p : Platform) (h : IsAuthenticated p) where
  pub handle_set_new_master-wraps :
      (u : Unicode) (of_salt : Text) (put_keys : KeysUpdate → ApiResult Value) (nonce : List ℕ)
      (page : Page p.CryptoKey) (pending : Pending)
      → All IsByte pending.raw_vek
      → All IsByte nonce
      → page.pending_rewrap ≡ some pending
      → (handle_set_new_master p u of_salt put_keys nonce page).pending_rewrap ≡ none
      → (wrap : KeyWrap) × (v : Value) × (put_keys
            (record { kek_wrap = some wrap; recovery_wrap = none })
          ≡ ApiResult.value v)
        × (resolve_vault_key_with_master_password p
              (record pending.meta { kek_wrap = some wrap })
              page.new_master
            ≡ some (record { data_key = import_vek p pending.raw_vek; mode = Mode.v2 }))
  handle_set_new_master-wraps u of_salt put_keys nonce page pending br bn q done =
      let (kek, v, d, sent) =
        handle_set_new_master-taken p u of_salt put_keys nonce page pending q done in
      let wrap = wrap_raw_key p kek pending.raw_vek aad_kek nonce in
      (
        wrap,
        v,
        sent,
        resolve-v2 p (record pending.meta { kek_wrap = some wrap }) page.new_master kek wrap
            (some pending.raw_vek) d refl (unwrap-wrap p h kek pending.raw_vek nonce aad_kek br bn),
      )

  -- After an attempt whose upload failed, a second one with the same password that leaves nothing to store has
  -- sent a wrap of zero bytes: with that wrap the new password gives the key of as many zeros as the key that
  -- was recovered has bytes.
  pub handle_set_new_master-retried :
      (u : Unicode) (of_salt t : Text) (put_keys again : KeysUpdate → ApiResult Value)
      (nonce nonce' : List ℕ) (page : Page p.CryptoKey) (pending : Pending) (kek : p.CryptoKey)
      → text_eq page.new_master page.confirm_new_master ≡ true
      → ltb (js_length page.new_master) 12 ≡ false
      → All IsByte nonce'
      → page.pending_rewrap ≡ some pending
      → derive_vault_key p page.new_master pending.meta.kdf_salt pending.meta.kdf_iterations
        ≡ some kek
      → put_keys (record {
        kek_wrap = some (wrap_raw_key p kek pending.raw_vek aad_kek nonce);
        recovery_wrap = none;
      })
        ≡ ApiResult.failed t
      → let q = handle_set_new_master p u of_salt put_keys nonce page in
        (handle_set_new_master p u of_salt again nonce' q).pending_rewrap ≡ none
        → (wrap : KeyWrap) × (v : Value) × (again
              (record { kek_wrap = some wrap; recovery_wrap = none })
            ≡ ApiResult.value v)
          × (resolve_vault_key_with_master_password p
                (record pending.meta { kek_wrap = some wrap })
                q.new_master
              ≡ some (record { data_key = import_vek p (zeroed pending.raw_vek); mode = Mode.v2 }))
  handle_set_new_master-retried u of_salt t put_keys again nonce nonce' page pending kek m l bn q d
        sent done =
      handle_set_new_master-wraps u of_salt again nonce'
        (handle_set_new_master p u of_salt put_keys nonce page)
        (record pending { raw_vek = zeroed pending.raw_vek }) (zeroed-IsByte pending.raw_vek) bn
        (handle_set_new_master-cleared p u of_salt t put_keys nonce page pending kek m l q d sent)
        done
