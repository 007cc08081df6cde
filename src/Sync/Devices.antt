-- ===== src/Sync/Devices.antt =====
-- Two devices with the same vault key: what becomes of a change that loses the race, and of one that is
-- made during an upload.
use personal_password_manage.Prelude.{
  ℕ, ◌+◌, ◌≡◌, ◌≢◌, refl, ap, true, false, not, none, some, List, [], ◌∷◌, ◌++◌, ◌==◌, arith,
  length, Text, text_eq, text_eq_refl, is_empty, is_some, IsByte, All, Unicode,
}
use personal_password_manage.Base64.{b64encode}
use personal_password_manage.Base64.RoundTrip.{b64encode_not_empty}
use personal_password_manage.Utf8.{encode}
use personal_password_manage.Utf8.RoundTrip.{encode-IsByte}
use personal_password_manage.Platform.{Platform, IsAuthenticated, IsWritten}
use personal_password_manage.Crypto.{encrypt_string}
use personal_password_manage.Envelope.{VaultEnvelope, ok, encrypt_envelope, decrypt_envelope}
use personal_password_manage.Envelope.RoundTrip.{envelope_value, decrypt_envelope-encrypt_envelope}
use personal_password_manage.Api.{VaultMeta, Fetched, value, request, answered}
use personal_password_manage.Vault.{
  VaultState, saved, set_sync_state, set_server_version, apply_server_contents,
}
use personal_password_manage.Server.{
  Base64Crate, IsStandard, Server, bad_version, max_version, put_vault, get_vault, into_response,
}
use personal_password_manage.Server.Versions.{
  stored, plain_update, update_vault-next, update_vault-stale, stale-is_conflict, put_vault-done,
  put_vault-fails,
}
use personal_password_manage.Sync.{
  Manager, Messages, Waiting, reloading, decrypting, new_version, payload, payload_of, decide,
  upload_of, finish_upload, finish_reload, finish_decrypt,
}

module _ (p : Platform) where
  -- When an upload is answered with its new version, the manager reports "saved" with that version; and if
  -- the store, still unlocked, was changed in the meantime, the next effect sets the timer again exactly
  -- when its contents are not those that were uploaded.
  pub finish_upload-decide :
      (u : Unicode) (snapshot : VaultState p.CryptoKey) (v : ℕ) (rest : List (Waiting p.CryptoKey))
      (m : Manager p.CryptoKey)
      → m.store.is_locked ≡ false
      → is_some m.store.key ≡ true
      → (v == 0) ≡ false
      → let n = finish_upload p u snapshot (value v) rest m in
        (n.store.sync_state ≡ saved)
        × (n.store.server_version ≡ v)
        × (n.store.items ≡ m.store.items)
        × (n.in_flight ≡ false)
        × ((decide p n).0 ≡ not (text_eq (payload p m.store) (payload p snapshot)))
  unfolding finish_upload decide set_sync_state set_server_version
  finish_upload-decide u snapshot v rest m open_ keyed pos = (refl, refl, refl, refl, ground arith)

-- The bytes of a snapshot.
abbrev pub sealed : (p : Platform) → p.CryptoKey → VaultState p.CryptoKey → List ℕ → List ℕ
sealed p key store nonce = p.encrypt key nonce [] (encode (payload p store))

upload_of-plain :
    (p : Platform) (key : p.CryptoKey) (store : VaultState p.CryptoKey) (nonce : List ℕ)
    → (c : Base64Crate)
    → upload_of p key store nonce
      ≡ plain_update c (store.server_version + 1) (sealed p key store nonce) nonce
unfolding upload_of encrypt_envelope encrypt_string
upload_of-plain p key store nonce c = refl

finish_reload-decrypts :
    (p : Platform) (key : p.CryptoKey) (fresh : VaultMeta) (ciphertext nonce : Text)
    (rest : List (Waiting p.CryptoKey)) (m : Manager p.CryptoKey)
    → m.store.key ≡ some key
    → fresh.ciphertext ≡ some ciphertext
    → fresh.nonce ≡ some nonce
    → is_empty ciphertext ≡ false
    → is_empty nonce ≡ false
    → finish_reload p (value fresh) rest m
      ≡ record m { waiting = rest ++ decrypting key fresh ciphertext nonce ∷ [] }
unfolding finish_reload
finish_reload-decrypts p key fresh ct nn rest m k e f g h = ground arith

-- What was adopted is not uploaded again.
adopted-quiet :
    (p : Platform) (msgs : Messages) (fresh : VaultMeta) (envelope : VaultEnvelope)
    (rest : List (Waiting p.CryptoKey)) (n : Manager p.CryptoKey)
    → (decide p (finish_decrypt p msgs fresh (ok envelope) rest n)).0 ≡ false
unfolding decide finish_decrypt apply_server_contents
adopted-quiet p msgs fresh envelope rest n =
    ground (arith, text_eq_refl (payload_of p envelope.items envelope.folders))

module _ (p : Platform) (h : IsAuthenticated p) (c : Base64Crate) (std : IsStandard c) where
  sealed-IsByte :
      (key : p.CryptoKey) (a : VaultState p.CryptoKey) (nonce : List ℕ)
      → IsWritten p (envelope_value a.items a.folders)
      → All IsByte (sealed p key a nonce)
  sealed-IsByte key a nonce w = h.encrypt-IsByte key nonce [] _ (encode-IsByte _ w.code_points)

  -- An upload from a device that knows the newest version is stored.
  upload-stored :
      (key : p.CryptoKey) (a : VaultState p.CryptoKey) (nonce : List ℕ) (now : Text) (s : Server)
      → All IsByte nonce
      → length nonce ≡ 12
      → IsWritten p (envelope_value a.items a.folders)
      → a.server_version ≡ max_version s
      → (put_vault c (upload_of p key a nonce) now s).1
        ≡ stored c (max_version s + 1) (sealed p key a nonce) nonce now s
  upload-stored key a nonce now s hn l w v =
      rw (upload_of-plain p key a nonce c, v)
        (put_vault-done c _ now s _ (
          update_vault-next c std (sealed p key a nonce) nonce now s (sealed-IsByte key a nonce w)
            hn l))

  -- An upload from a device that knows another version is refused.
  upload-refused :
      (key : p.CryptoKey) (b : VaultState p.CryptoKey) (nonce : List ℕ) (now : Text) (s : Server)
      → All IsByte nonce
      → length nonce ≡ 12
      → IsWritten p (envelope_value b.items b.folders)
      → b.server_version + 1 ≢ max_version s + 1
      → put_vault c (upload_of p key b nonce) now s
        ≡ (answered (into_response (bad_version (max_version s + 1) (b.server_version + 1))), s)
  upload-refused key b nonce now s hn l w ne = rw (upload_of-plain p key b nonce c) (
      put_vault-fails c _ now s _ (
        update_vault-stale c std (b.server_version + 1) (sealed p key b nonce) nonce now s
          (sealed-IsByte key b nonce w) hn l ne))

  get_vault-stored :
      (v : ℕ) (cs ns : List ℕ) (now : Text) (s : Server)
      → All IsByte cs
      → All IsByte ns
      → let fresh = get_vault c (stored c v cs ns now s) in
        (fresh.ciphertext ≡ some (b64encode cs))
        × (fresh.nonce ≡ some (b64encode ns))
        × (fresh.version ≡ v)
  unfolding get_vault
  get_vault-stored v cs ns now s hc hn =
      (ap some (std.encode_same cs hc), ap some (std.encode_same ns hn), refl)

  uploaded-opens :
      (key : p.CryptoKey) (a : VaultState p.CryptoKey) (na : List ℕ)
      → All IsByte na
      → IsWritten p (envelope_value a.items a.folders)
      → decrypt_envelope p key (b64encode (sealed p key a na)) (b64encode na)
        ≡ ok (record { items = a.items; folders = a.folders })
  unfolding encrypt_envelope encrypt_string
  uploaded-opens key a na ha wa =
      decrypt_envelope-encrypt_envelope p h key a.items a.folders na ha wa

  -- Of two devices that know the newest version, the one whose upload comes first is stored as the next
  -- version: what the server then gives out is that device's ciphertext and nonce with that version, and
  -- the key opens it to that device's items and folders. The upload of the other changes nothing at the
  -- server, and its manager goes on to reload.
  pub uploads-race :
      (u : Unicode) (key : p.CryptoKey) (a b : VaultState p.CryptoKey) (na nb : List ℕ)
      (now now' : Text) (s : Server) (rest : List (Waiting p.CryptoKey)) (m : Manager p.CryptoKey)
      → All IsByte na
      → All IsByte nb
      → length na ≡ 12
      → length nb ≡ 12
      → IsWritten p (envelope_value a.items a.folders)
      → IsWritten p (envelope_value b.items b.folders)
      → a.server_version ≡ max_version s
      → b.server_version ≡ max_version s
      → let first = put_vault c (upload_of p key a na) now s in
        let second = put_vault c (upload_of p key b nb) now' first.1 in
        let fresh = get_vault c first.1 in
        (ciphertext : Text) × (nonce : Text) × (fresh.ciphertext ≡ some ciphertext)
        × (fresh.nonce ≡ some nonce)
        × (fresh.version ≡ max_version s + 1)
        × (decrypt_envelope p key ciphertext nonce
            ≡ ok (record { items = a.items; folders = a.folders }))
        × (max_version first.1 ≡ max_version s + 1)
        × (second.1 ≡ first.1)
        × (finish_upload p u b (new_version (request second.0)) rest m
            ≡ record m { waiting = rest ++ reloading ∷ [] })
  unfolding new_version finish_upload
  uploads-race u key a b na nb now now' s rest m ha hb la lb wa wb va vb =
      let first = (put_vault c (upload_of p key a na) now s).1 in
      let kept = upload-stored key a na now s ha la wa va in
      let newest : max_version first ≡ max_version s + 1 = rw kept in
      let late = upload-refused key b nb now' first hb lb wb (λ e. omega (arith, e, newest, vb)) in
      let (message, told, conflict) =
        stale-is_conflict u (max_version first + 1) (b.server_version + 1) in
      let (ct, nn, v) =
        get_vault-stored (max_version s + 1) (sealed p key a na) na now s
          (sealed-IsByte key a na wa) ha in
      (
        b64encode (sealed p key a na),
        b64encode na,
        rw kept ct,
        rw kept nn,
        rw kept v,
        uploaded-opens key a na ha wa,
        newest,
        ap (λ (x : Fetched × Server). x.1) late,
        rw (late, told, new_version, conflict, finish_upload),
      )

  -- A manager that reloads the server's copy after another device with the same key uploaded it: it waits
  -- for the decryption, which gives the other device's items and folders; they take the place of its own,
  -- with the server's version and "saved", and the next effect does not upload them again.
  pub reload-adopts :
      (msgs : Messages) (key : p.CryptoKey) (a : VaultState p.CryptoKey) (na : List ℕ) (now : Text)
      (s : Server) (rest : List (Waiting p.CryptoKey)) (m n : Manager p.CryptoKey)
      → All IsByte na
      → length na ≡ 12
      → IsWritten p (envelope_value a.items a.folders)
      → a.server_version ≡ max_version s
      → m.store.key ≡ some key
      → let fresh = get_vault c (put_vault c (upload_of p key a na) now s).1 in
        let ciphertext = b64encode (sealed p key a na) in
        let opened = decrypt_envelope p key ciphertext (b64encode na) in
        let o = finish_decrypt p msgs fresh opened rest n in
        (finish_reload p (value fresh) rest m
          ≡ record m { waiting = rest ++ decrypting key fresh ciphertext (b64encode na) ∷ [] })
        × (o.store ≡ apply_server_contents a.items a.folders (max_version s + 1) n.store)
        × (o.in_flight ≡ false)
        × ((decide p o).0 ≡ false)
  unfolding finish_decrypt
  reload-adopts msgs key a na now s rest m n ha la wa va keyed =
      let kept = upload-stored key a na now s ha la wa va in
      let opened = uploaded-opens key a na ha wa in
      let bytes = sealed-IsByte key a na wa in
      let full = b64encode_not_empty (sealed p key a na) bytes (h.encrypt_not_empty key na [] _) in
      let full' = b64encode_not_empty na ha (ground (arith, la)) in
      let fresh = get_vault c (stored c (max_version s + 1) (sealed p key a na) na now s) in
      let (ct, nn, v) =
        get_vault-stored (max_version s + 1) (sealed p key a na) na now s bytes ha in
      rw (kept, opened)
        (
          finish_reload-decrypts p key fresh _ _ rest m keyed ct nn full full',
          rw (finish_decrypt, v) refl,
          refl,
          adopted-quiet p msgs fresh (record { items = a.items; folders = a.folders }) rest n,
        )

-- A conflict with a server that has no snapshot: the manager keeps its contents, with version 0 and
-- "saved", and the next effect does not upload them, although the server does not have them.
pub reload-keeps :
    (p : Platform) (key : p.CryptoKey) (fresh : VaultMeta) (rest : List (Waiting p.CryptoKey))
    (m : Manager p.CryptoKey)
    → m.store.key ≡ some key
    → fresh.ciphertext ≡ none
    → let n = finish_reload p (value fresh) rest m in
      (n.store ≡ apply_server_contents m.store.items m.store.folders 0 m.store)
      × (n.waiting ≡ rest)
      × ((decide p n).0 ≡ false)
unfolding finish_reload decide apply_server_contents
reload-keeps p key fresh rest m k e =
    (ground arith, ground arith, ground (arith, text_eq_refl (payload p m.store)))
