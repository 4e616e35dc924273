-- ===== src/App/Unlock.antt =====
-- Unlocking with the PIN.
use messk.Prelude.{◌≡◌, refl, true, false, Option, some, Text, nonempty, ℕ}
use messk.Security.{
  Vault, IsVault, Bytes, remember_identity_with_pin, restore_remembered_identity_with_pin,
}
use messk.Security.Remembered.{restore-remember}
use messk.App.{App, set_keys}
use messk.App.Remembered.{unlocked, unlock_remembered_identity}

module _ (v : Vault) (h : IsVault v) (decode_base64 : Text → Option Bytes) where
  unlocked-opens :
      (public_key secret_key : Text) (bytes : Bytes) (app : App)
      → nonempty secret_key ≡ true
      → decode_base64 secret_key ≡ some bytes
      → ((unlocked v decode_base64 (some (public_key, secret_key)) app).0 ≡ some true)
        × ((unlocked v decode_base64 (some (public_key, secret_key)) app).1.state.is_locked ≡ false)
        × ((unlocked v decode_base64 (some (public_key, secret_key)) app).1.state.my_public_key
            ≡ some public_key)
        × ((unlocked v decode_base64 (some (public_key, secret_key)) app).1.state.my_secret_key
            ≡ some secret_key)
        × ((unlocked v decode_base64 (some (public_key, secret_key)) app).1.vault_key ≡ some bytes)
  unfolding set_keys
  unlocked-opens public_key secret_key bytes app shown decoded =
      rw (shown, decoded) (refl, refl, refl, refl, refl)

  -- An identity that was remembered under a PIN is unlocked by that PIN: it becomes the identity of the
  -- application again, the vault is open with its secret key, and the application is not locked.
  pub unlock-remember :
      (salt iv : Bytes) (now : ℕ) (public_key secret_key pin raw : Text) (bytes : Bytes) (app : App)
      → remember_identity_with_pin v salt iv now public_key secret_key pin ≡ some raw
      → app.remembered ≡ some raw
      → nonempty secret_key ≡ true
      → decode_base64 secret_key ≡ some bytes
      → ((unlock_remembered_identity v decode_base64 pin app).0 ≡ some true)
        × ((unlock_remembered_identity v decode_base64 pin app).1.state.is_locked ≡ false)
        × ((unlock_remembered_identity v decode_base64 pin app).1.state.my_public_key
            ≡ some public_key)
        × ((unlock_remembered_identity v decode_base64 pin app).1.state.my_secret_key
            ≡ some secret_key)
        × ((unlock_remembered_identity v decode_base64 pin app).1.vault_key ≡ some bytes)
  unfolding unlock_remembered_identity
  unlock-remember salt iv now public_key secret_key pin raw bytes app e stored shown decoded =
      let restored : restore_remembered_identity_with_pin v app.remembered pin
          ≡ some (public_key, secret_key) =
        rw stored (restore-remember v h salt iv now public_key secret_key pin raw e) in
      rw restored (unlocked-opens public_key secret_key bytes app shown decoded)
