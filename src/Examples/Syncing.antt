-- ===== src/Examples/Syncing.antt =====
-- The synchronisation of two devices and the server.
use personal_password_manage.Sync.Retry.{finish_upload-retries}
use personal_password_manage.Prelude.{
  Text, some, to_lower_case, lower_from, includes, ℕ, ◌+◌, ◌≡◌, ◌≤◌, refl, true, false, not, none,
  List, [], ◌∷◌, arith, text_eq, codes, ascii_only,
}
use personal_password_manage.Base64.{b64encode}
use personal_password_manage.Envelope.{decrypt_envelope, ok}
use personal_password_manage.Api.{is_conflict, failed, value, request}
use personal_password_manage.Vault.{retry_sync, SyncState, saved, apply_server_contents, lock}
use personal_password_manage.Server.{max_version, put_vault, get_vault}
use personal_password_manage.Sync.{
  Manager, Messages, reloading, decrypting, new_version, payload, decide, begin, upload_of,
  finish_encrypt, finish_upload, finish_reload, finish_decrypt,
}
use personal_password_manage.Sync.Steps.{
  fired, start, next, mounted, Answers, then_answer, encrypted, uploaded,
}
use personal_password_manage.Sync.Flight.{IsSingle, Reach-IsSingle, Reach-ends}
use personal_password_manage.Sync.Devices.{
  sealed, finish_upload-decide, uploads-race, reload-adopts, reload-keeps,
}
use personal_password_manage.Samples.{
  platform, platform-IsAuthenticated, written, crate, crate-IsStandard, items, folders, nonce, vek,
  store, server, meta,
}

abbrev msgs : Messages
msgs = record { of_cipher = codes "OperationError"; of_json = codes "SyntaxError" }

abbrev manager : Manager (List ℕ)
manager = record { store = store; in_flight = true; last_sent = none; had_key = true; waiting = [] }

uploads-race_example :
    let one = put_vault crate (upload_of platform vek store nonce) (codes "2025") server in
    let two = put_vault crate (upload_of platform vek store nonce) (codes "2026") one.1 in
    let fresh = get_vault crate one.1 in
    (ciphertext : Text) × (given : Text) × (fresh.ciphertext ≡ some ciphertext)
    × (fresh.nonce ≡ some given)
    × (fresh.version ≡ max_version server + 1)
    × (decrypt_envelope platform vek ciphertext given
        ≡ ok (record { items = items; folders = folders }))
    × (max_version one.1 ≡ max_version server + 1)
    × (two.1 ≡ one.1)
    × (finish_upload platform ascii_only store (new_version (request two.0)) [] manager
        ≡ record manager { waiting = reloading ∷ [] })
uploads-race_example =
    uploads-race platform platform-IsAuthenticated crate crate-IsStandard ascii_only vek store store
      nonce nonce (codes "2025") (codes "2026") server [] manager (omega arith) (omega arith) refl
      refl written written refl refl

reload-adopts_example :
    let fresh =
      get_vault crate
        (put_vault crate (upload_of platform vek store nonce) (codes "2025") server).1 in
    let ciphertext = b64encode (sealed platform vek store nonce) in
    let opened = decrypt_envelope platform vek ciphertext (b64encode nonce) in
    let o = finish_decrypt platform msgs fresh opened [] manager in
    (finish_reload platform (value fresh) [] manager
      ≡ record manager { waiting = decrypting vek fresh ciphertext (b64encode nonce) ∷ [] })
    × (o.store ≡ apply_server_contents items folders (max_version server + 1) store)
    × (o.in_flight ≡ false)
    × ((decide platform o).0 ≡ false)
reload-adopts_example =
    reload-adopts platform platform-IsAuthenticated crate crate-IsStandard msgs vek store nonce
      (codes "2025") server [] manager manager (omega arith) refl written refl refl

reload-keeps_example :
    let n = finish_reload platform (value meta) [] manager in
    (n.store ≡ apply_server_contents items folders 0 store)
    × (n.waiting ≡ [])
    × ((decide platform n).0 ≡ false)
reload-keeps_example = reload-keeps platform vek meta [] manager refl refl

finish_upload-decide_example :
    let n = finish_upload platform ascii_only (lock store) (value 4) [] manager in
    (n.store.sync_state ≡ saved)
    × (n.store.server_version ≡ 4)
    × (n.store.items ≡ items)
    × (n.in_flight ≡ false)
    × ((decide platform n).0
        ≡ not (text_eq (payload platform store) (payload platform (lock store))))
finish_upload-decide_example =
    finish_upload-decide platform ascii_only (lock store) 4 [] manager refl refl refl

abbrev begun : Manager (List ℕ)
begun = begin platform nonce (mounted platform ascii_only msgs store)

Reach-IsSingle_example : IsSingle begun
Reach-IsSingle_example =
    Reach-IsSingle platform ascii_only msgs {m = begun} (next (start store) (fired nonce))

Reach-ends_example : 2 ≤ 4
unfolding begin finish_encrypt
Reach-ends_example =
    Reach-ends platform ascii_only msgs {k = 2} {m = begun} (next (start store) (fired nonce)) (
      then_answer (encrypted [] [] vek store nonce refl) (
        then_answer (uploaded [] [] store (upload_of platform vek store nonce) (value 1) refl)
          Answers.stop))

abbrev offline : Text
offline = codes "Failed to fetch"

finish_upload-retries_example :
    let n = finish_upload platform ascii_only store (failed offline) [] manager in
    let again = record n { store = retry_sync n.store } in
    (n.store ≡ record store { sync_state = SyncState.error; sync_error = some offline })
    × (n.in_flight ≡ false)
    × (again.store.sync_retry ≡ 0 + 1)
    × ((decide platform again).0 ≡ (decide platform manager).0)
unfolding is_conflict to_lower_case lower_from includes
finish_upload-retries_example =
    finish_upload-retries platform ascii_only store offline [] manager refl
