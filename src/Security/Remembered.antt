-- ===== src/Security/Remembered.antt =====
-- The remembered identity.
use messk.Prelude.{ℕ, ◌≡◌, refl, sym, ap, true, Option, some, [], Text, same, nonempty, ◌or_else◌}
use messk.Prelude.Int.{pos}
use messk.Prelude.Number.{Number}
use messk.Json.{get, field_of}
use messk.Json.Plain.{json_of, write, HasKeys}
use messk.Json.Plain.Parsed.{parse-write}
use messk.Ratchet.Step.{>>?-some}
use messk.Security.{
  Vault, IsVault, Bytes, remember_identity_with_pin, restore_remembered_identity_with_pin,
  identity_plain, envelope_plain, read_identity, open_envelope, remembered_identity_iterations,
}

module _ (v : Vault) (h : IsVault v) (salt iv : Bytes) (now : ℕ)
    (public_key secret_key pin : Text) where
  identity-HasKeys : HasKeys (identity_plain v public_key secret_key now)
  unfolding json_of field_of same
  identity-HasKeys = (refl, tt, (refl, tt, (refl, tt, tt)))

  envelope-HasKeys : (c : Bytes) → HasKeys (envelope_plain v salt iv c)
  unfolding json_of field_of same
  envelope-HasKeys c = (refl, tt, (refl, tt, (refl, tt, (refl, tt, (refl, tt, tt)))))

  identity-read :
      read_identity v (json_of (identity_plain v public_key secret_key now))
      ≡ some (public_key, secret_key)
  unfolding json_of get field_of same
  identity-read = refl

  write-shown : (c : Bytes) → nonempty (write (envelope_plain v salt iv c)) ≡ true
  unfolding write
  write-shown c = refl

  envelope-opens :
      (key c : Bytes)
      → v.derive_key pin salt (Number.int (pos remembered_identity_iterations)) ≡ some key
      → v.aes_encrypt key iv (write (identity_plain v public_key secret_key now)) ≡ some c
      → open_envelope v pin (json_of (envelope_plain v salt iv c)) ≡ some (public_key, secret_key)
  unfolding json_of get field_of same
  envelope-opens key c derived encrypted =
      rw
        (
          h.base64 salt,
          h.base64 iv,
          h.base64 c,
          derived,
          h.aes key iv _ c encrypted,
          parse-write (identity_plain v public_key secret_key now) identity-HasKeys tt,
        )
        identity-read

  -- An identity that is remembered under a PIN is restored with that PIN.
  pub restore-remember :
      (raw : Text)
      → remember_identity_with_pin v salt iv now public_key secret_key pin ≡ some raw
      → restore_remembered_identity_with_pin v (some raw) pin ≡ some (public_key, secret_key)
  unfolding remember_identity_with_pin restore_remembered_identity_with_pin
  restore-remember raw e =
      let (key, derived, e1) =
        >>?-some (v.derive_key pin salt (Number.int (pos remembered_identity_iterations))) _ raw
          e in
      let (c, encrypted, e2) =
        >>?-some (v.aes_encrypt key iv (write (identity_plain v public_key secret_key now))) _ raw
          e1 in
      let written : raw ≡ write (envelope_plain v salt iv c) =
        sym (ap (λ (o : Option Text). o or_else []) e2) in
      let shown : nonempty (write (envelope_plain v salt iv c)) ≡ true = write-shown c in
      rw written (
        simp (shown, parse-write (envelope_plain v salt iv c) (envelope-HasKeys c) tt)
          (envelope-opens key c derived encrypted))
