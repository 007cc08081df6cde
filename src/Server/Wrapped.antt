-- ===== src/Server/Wrapped.antt =====
-- An update with both wraps of the vault key: what the server keeps of it, and what GET /vault gives back.
use personal_password_manage.Prelude.{
  ℕ, ◌+◌, ◌≡◌, refl, ap, true, some, ◌==◌, arith, length, Text, IsByte, All,
}
use personal_password_manage.Base64.{b64encode}
use personal_password_manage.Crypto.{KeyWrap}
use personal_password_manage.Api.{VaultUpdate}
use personal_password_manage.Server.{
  Base64Crate, IsStandard, Server, Sealed, done, max_version, update_vault, get_vault,
  apply_wrap_update, decode_wrap,
}
use personal_password_manage.Server.Versions.{stored}

-- A sealed text as the browser sends it.
abbrev pub sent : Sealed → KeyWrap
sent x = record { ciphertext = b64encode x.ciphertext; nonce = b64encode x.nonce }

abbrev pub wrapped_update : ℕ → Sealed → Sealed → Sealed → VaultUpdate
wrapped_update version body kek recovery = record {
  version = version;
  body = sent body;
  kek_wrap = some (sent kek);
  recovery_wrap = some (sent recovery);
}

pub record IsSealed (x : Sealed) : Type 0 where
  pub ciphertext_bytes : All IsByte x.ciphertext
  pub nonce_bytes : All IsByte x.nonce
  pub nonce_length : length x.nonce ≡ 12

module _ (c : Base64Crate) where
  abbrev pub stored_wrapped : ℕ → Sealed → Sealed → Sealed → Text → Server → Server
  stored_wrapped version body kek recovery now s =
      record (stored c version body.ciphertext body.nonce now s) {
        kek_wrap = some kek;
        recovery_wrap = some recovery;
      }

  module _ (std : IsStandard c) where
    pub decode_wrap-sent :
        (x : Sealed) → IsSealed x → length x.ciphertext ≡ 48 → decode_wrap c (sent x) ≡ done x
    unfolding decode_wrap
    decode_wrap-sent x h l = rw (
      std.decode-b64encode x.ciphertext h.ciphertext_bytes,
      std.decode-b64encode x.nonce h.nonce_bytes,
      h.nonce_length,
      l,
    )

    pub update_vault-wrapped :
        (body kek recovery : Sealed) (now : Text) (s : Server)
        → IsSealed body
        → IsSealed kek
        → IsSealed recovery
        → length kek.ciphertext ≡ 48
        → length recovery.ciphertext ≡ 48
        → update_vault c (wrapped_update (max_version s + 1) body kek recovery) now s
          ≡ done (stored_wrapped (max_version s + 1) body kek recovery now s)
    unfolding update_vault apply_wrap_update
    update_vault-wrapped body kek recovery now s hb hk hr lk lr =
        let same : (max_version s + 1 == max_version s + 1) ≡ true = ground arith in
        rw (
          std.decode-b64encode body.ciphertext hb.ciphertext_bytes,
          std.decode-b64encode body.nonce hb.nonce_bytes,
          hb.nonce_length,
          same,
          decode_wrap-sent kek hk lk,
          decode_wrap-sent recovery hr lr,
        )

    pub sent_same :
        (x : Sealed)
        → IsSealed x
        → ◌≡◌ {A = KeyWrap}
            (record { ciphertext = c.encode x.ciphertext; nonce = c.encode x.nonce })
            (sent x)
    sent_same x h =
        rw (std.encode_same x.ciphertext h.ciphertext_bytes, std.encode_same x.nonce h.nonce_bytes)

    pub get_vault-wrapped :
        (version : ℕ) (body kek recovery : Sealed) (now : Text) (s : Server)
        → IsSealed body
        → IsSealed kek
        → IsSealed recovery
        → All IsByte s.kdf.salt
        → let meta = get_vault c (stored_wrapped version body kek recovery now s) in
          (meta.version ≡ version)
          × (meta.ciphertext ≡ some (sent body).ciphertext)
          × (meta.nonce ≡ some (sent body).nonce)
          × (meta.kek_wrap ≡ some (sent kek))
          × (meta.recovery_wrap ≡ some (sent recovery))
          × (meta.kdf_salt ≡ b64encode s.kdf.salt)
          × (meta.kdf_iterations ≡ s.kdf.iterations)
    unfolding get_vault
    get_vault-wrapped version body kek recovery now s hb hk hr hs = (
      refl,
      ap some (std.encode_same body.ciphertext hb.ciphertext_bytes),
      ap some (std.encode_same body.nonce hb.nonce_bytes),
      ap some (sent_same kek hk),
      ap some (sent_same recovery hr),
      std.encode_same s.kdf.salt hs,
      refl,
    )
