-- ===== src/Sync/Retry.antt =====
-- What a failed upload keeps, and what a lock during a reload leaves.
use personal_password_manage.Prelude.{◌+◌, ◌≡◌, refl, true, false, some, List, arith, Text, Unicode}
use personal_password_manage.Platform.{Platform}
use personal_password_manage.Envelope.{VaultEnvelope, ok}
use personal_password_manage.Api.{VaultMeta, failed, is_conflict}
use personal_password_manage.Vault.{
  VaultState, error, retry_sync, set_sync_state, apply_server_contents,
}
use personal_password_manage.Sync.{
  Manager, Messages, Waiting, decide, finish_upload, finish_decrypt,
}

module _ (p : Platform) where
  -- An upload that fails for another reason than a conflict reports the error and keeps the contents, the
  -- version and the mark of what was sent; so after a retry the next effect sets the timer exactly when it
  -- would have before.
  pub finish_upload-retries :
      (u : Unicode) (snapshot : VaultState p.CryptoKey) (message : Text)
      (rest : List (Waiting p.CryptoKey)) (m : Manager p.CryptoKey)
      → is_conflict u message ≡ false
      → let n = finish_upload p u snapshot (failed message) rest m in
        let again = record n { store = retry_sync n.store } in
        (n.store ≡ record m.store { sync_state = error; sync_error = some message })
        × (n.in_flight ≡ false)
        × (again.store.sync_retry ≡ m.store.sync_retry + 1)
        × ((decide p again).0 ≡ (decide p m).0)
  unfolding finish_upload decide set_sync_state retry_sync
  finish_upload-retries u snapshot message rest m c =
      rw (c, finish_upload) (refl, refl, refl, ground arith)

  -- A store that is locked while a reload waits for its decryption takes the decrypted items all the same,
  -- and stays locked.
  pub finish_decrypt-locked :
      (msgs : Messages) (fresh : VaultMeta) (envelope : VaultEnvelope)
      (rest : List (Waiting p.CryptoKey)) (m : Manager p.CryptoKey)
      → m.store.is_locked ≡ true
      → let n = finish_decrypt p msgs fresh (ok envelope) rest m in
        (n.store.is_locked ≡ true) × (n.store.items ≡ envelope.items) × (n.store.key ≡ m.store.key)
  unfolding finish_decrypt apply_server_contents
  finish_decrypt-locked msgs fresh envelope rest m l = (l, refl, refl)
