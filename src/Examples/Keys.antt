-- ===== src/Examples/Keys.antt =====
-- Wraps, envelopes and export files.
use personal_password_manage.Prelude.{◌≡◌, refl, some, none, arith, Text, text_eq_apart, codes}
use personal_password_manage.Utf8.{encode, encode_char}
use personal_password_manage.Crypto.{
  aad_kek, aad_recovery, derive_recovery_key, import_vek, wrap_raw_key,
}
use personal_password_manage.Envelope.{EnvelopeResult, encrypt_envelope, decrypt_envelope}
use personal_password_manage.Envelope.RoundTrip.{decrypt_envelope-encrypt_envelope}
use personal_password_manage.Api.{VaultMeta}
use personal_password_manage.VaultKeys.{
  recovered, refused, wrong_key, v2, resolve_vault_key_with_master_password,
  resolve_vault_key_with_secret_key,
}
use personal_password_manage.VaultKeys.Opening.{resolve-agree, resolve-others}
use personal_password_manage.Samples.{
  kek, derived, platform, platform-IsAuthenticated, written, items, folders, nonce, vek, meta,
  master,
}

decrypt_envelope_example :
    decrypt_envelope platform vek
      (encrypt_envelope platform vek items folders nonce).ciphertext
      (encrypt_envelope platform vek items folders nonce).nonce
    ≡ EnvelopeResult.ok (record { items = items; folders = folders })
decrypt_envelope_example =
    decrypt_envelope-encrypt_envelope platform platform-IsAuthenticated vek items folders nonce
      (omega arith) written

abbrev secret : Text
secret = codes "SECRET"

abbrev wrapped : VaultMeta
wrapped = record meta {
  kek_wrap = some (wrap_raw_key platform kek vek aad_kek nonce);
  recovery_wrap = some (wrap_raw_key platform (encode secret) vek aad_recovery nonce);
}

resolve-agree_example :
    (resolve_vault_key_with_master_password platform wrapped master
      ≡ some (record { data_key = import_vek platform vek; mode = v2 }))
    × (resolve_vault_key_with_secret_key platform wrapped secret
        ≡ recovered (record { data_key = import_vek platform vek; raw_vek = vek }))
unfolding derive_recovery_key
resolve-agree_example =
    resolve-agree platform platform-IsAuthenticated wrapped master secret kek vek nonce nonce
      (omega arith) (omega arith) (omega arith) (derived master 3) refl refl

resolve-others_example :
    (resolve_vault_key_with_master_password platform wrapped (codes "guess") ≡ none)
    × (resolve_vault_key_with_secret_key platform wrapped (codes "GUESS") ≡ refused wrong_key)
unfolding derive_recovery_key encode encode_char
resolve-others_example =
    resolve-others platform platform-IsAuthenticated wrapped (codes "guess") (codes "GUESS") kek
      (encode (codes "guess")) (encode secret) vek nonce nonce (omega arith) (omega arith)
      (omega arith) (derived (codes "guess") 3) (text_eq_apart _ _ refl) (text_eq_apart _ _ refl)
      refl refl
