-- ===== src/App/Consistent.antt =====
-- What all actions of the application keep.
use messk.Prelude.{
  ◌≡◌, refl, Bool, false, not, ◌&&◌, Option, none, some, Text, nonempty, truthy, is_some,
  if◌then◌else◌, if-property, Bool-cases, inl, inr, ap, arith,
}
use messk.Prelude.Number.{Number}
use messk.Security.{Vault, Bytes, restore_remembered_identity_with_pin}
use messk.App.{
  App, AppState, Profile, ConnectionStatus, default_db_name, get_database_name_for_identity,
  set_keys, set_profile, set_active_peer, set_active_group, set_active_channel, set_typing,
  set_connection_status, set_locked, set_pin_hash, lock_app, set_auto_lock_minutes,
}
use messk.App.Remembered.{
  restore_remembered_identity, set_identity_remembered, forget_remembered_identity, logout, opens,
  unlocked, unlock_remembered_identity,
}

-- At most one chat is open.
abbrev pub HasOneChat : AppState → Type 0
HasOneChat s =
    ((is_some s.active_peer_key && is_some s.active_group_id) ≡ false)
    × ((is_some s.active_peer_key && is_some s.active_channel_id) ≡ false)
    × ((is_some s.active_group_id && is_some s.active_channel_id) ≡ false)

abbrev pub name_of : Option Text → Text
name_of none = default_db_name
name_of (some key) = get_database_name_for_identity key

-- What it is about.
abbrev core :
    App → Text × Option Bytes × Option Text × Option Text × Option Text × Option Text × Option Text
core app = (
  app.database_name, app.vault_key, app.state.my_public_key, app.state.my_secret_key,
  app.state.active_peer_key, app.state.active_group_id, app.state.active_channel_id,
)

module _ (decode_base64 : Text → Option Bytes) where
  abbrev pub vault_of : Option Text → Option Bytes
  vault_of none = none
  vault_of (some key) = if not (nonempty key) then none else decode_base64 key

  -- The open database is the identity's, and the vault's key is its secret key; without an identity
  -- the database is the default one, and the vault is shut. At most one chat is open.
  pub record IsConsistent (app : App) : Type 0 where
    pub database : app.database_name ≡ name_of app.state.my_public_key
    pub vault : app.vault_key ≡ vault_of app.state.my_secret_key
    pub one_chat : HasOneChat app.state

  abbrev pub CanDecode : Text → Type 0
  CanDecode key = (bytes : Bytes) × (decode_base64 key ≡ some bytes)

module _ (v : Vault) (decode_base64 : Text → Option Bytes) where
  -- Actions, one after the other. Secret keys are such that they can be decoded.
  pub data Runs : App → App → Type 0 where
    rest : {app : App} → Runs app app
    keys :
        {app after : App} (public_key secret_key : Text)
        → CanDecode decode_base64 secret_key
        → Runs (set_keys decode_base64 public_key secret_key app) after
        → Runs app after
    profile : {app after : App} (p : Profile) → Runs (set_profile p app) after → Runs app after
    peer :
        {app after : App} (key : Option Text)
        → Runs (set_active_peer key app) after
        → Runs app after
    group :
        {app after : App} (id : Option Text) → Runs (set_active_group id app) after → Runs app after
    channel :
        {app after : App} (id : Option Text)
        → Runs (set_active_channel id app) after
        → Runs app after
    typing :
        {app after : App} (key : Text) (b : Bool)
        → Runs (set_typing key b app) after
        → Runs app after
    status :
        {app after : App} (c : ConnectionStatus)
        → Runs (set_connection_status c app) after
        → Runs app after
    locked : {app after : App} (b : Bool) → Runs (set_locked b app) after → Runs app after
    pin :
        {app after : App} (hash : Option Text) → Runs (set_pin_hash hash app) after → Runs app after
    lock : {app after : App} → Runs (lock_app app) after → Runs app after
    minutes :
        {app after : App} (n : Number) → Runs (set_auto_lock_minutes n app) after → Runs app after
    restore : {app after : App} → Runs (restore_remembered_identity app) after → Runs app after
    remember :
        {app after : App} (b : Bool) → Runs (set_identity_remembered b app) after → Runs app after
    forget : {app after : App} → Runs (forget_remembered_identity app) after → Runs app after
    leave : {app after : App} → Runs (logout app) after → Runs app after
    unlock :
        {app after : App} (code : Text)
        → ((public_key secret_key : Text)
            → restore_remembered_identity_with_pin v app.remembered code
              ≡ some (public_key, secret_key)
            → CanDecode decode_base64 secret_key)
        → Runs (unlock_remembered_identity v decode_base64 code app).1 after
        → Runs app after

  -- A step that leaves the identity, the chats, the database and the vault alone.
  kept :
      (app after : App)
      → IsConsistent decode_base64 app
      → core after ≡ core app
      → IsConsistent decode_base64 after
  kept app after c e = record {
    database = rw (ap (λ k. k.0) e, ap (λ k. k.2) e) c.database;
    vault = rw (ap (λ k. k.1) e, ap (λ k. k.3) e) c.vault;
    one_chat = rw (ap (λ k. k.4) e, ap (λ k. k.5) e, ap (λ k. k.6) e) c.one_chat;
  }

  set_keys-IsConsistent :
      (public_key secret_key : Text) (app : App)
      → CanDecode decode_base64 secret_key
      → IsConsistent decode_base64 app
      → IsConsistent decode_base64 (set_keys decode_base64 public_key secret_key app)
  unfolding set_keys
  set_keys-IsConsistent public_key secret_key app (bytes, decoded) c =
      elim (Bool-cases (nonempty secret_key)) [
        | inl shown ↦
            rw (shown, decoded)
              (record { database = refl; vault = rw (shown, decoded) refl; one_chat = c.one_chat })
        | inr empty ↦
            rw empty (record { database = refl; vault = rw empty refl; one_chat = c.one_chat })
      ]

  unlocked-IsConsistent :
      (o : Option (Text × Text)) (app : App)
      → ((public_key secret_key : Text)
          → o ≡ some (public_key, secret_key)
          → CanDecode decode_base64 secret_key)
      → IsConsistent decode_base64 app
      → IsConsistent decode_base64 (unlocked v decode_base64 o app).1
  unlocked-IsConsistent none app can c = c
  unlocked-IsConsistent (some (public_key, secret_key)) app can c =
      let c' = set_keys-IsConsistent public_key secret_key app (can public_key secret_key refl) c in
      if-property {A = Option Bool × App} (λ r. IsConsistent decode_base64 r.1)
        (opens v decode_base64 secret_key) _ _
        (λ _. kept (set_keys decode_base64 public_key secret_key app) _ c' refl) (λ _. c')

  lock-IsConsistent :
      (app : App) → IsConsistent decode_base64 app → IsConsistent decode_base64 (lock_app app)
  unfolding lock_app set_locked
  lock-IsConsistent app c =
      if-property (IsConsistent decode_base64) (truthy app.state.pin_hash) _ app
        (λ _. kept app _ c refl) (λ _. c)

  restore-IsConsistent :
      (app : App)
      → IsConsistent decode_base64 app
      → IsConsistent decode_base64 (restore_remembered_identity app)
  unfolding restore_remembered_identity
  restore-IsConsistent app c =
      if-property (IsConsistent decode_base64) (truthy app.remembered && truthy app.stored_pin_hash)
        _ _ (λ _. kept app _ c refl) (λ _. kept app _ c refl)

  -- However the actions of the application follow each other, the open database stays the one of the
  -- identity and the vault's key its secret key, both are shut without an identity, and at most one chat
  -- is open; provided that this was so at first, and that the secret keys that come in can be decoded.
  pub Runs-IsConsistent :
      {app after : App}
      → Runs app after
      → IsConsistent decode_base64 app
      → IsConsistent decode_base64 after
  unfolding set_profile set_active_peer set_active_group set_active_channel set_typing
      set_connection_status set_locked set_pin_hash set_auto_lock_minutes set_identity_remembered
      forget_remembered_identity logout unlock_remembered_identity
  Runs-IsConsistent rest c = c
  Runs-IsConsistent (keys {app} public_key secret_key can r) c =
      Runs-IsConsistent r (set_keys-IsConsistent public_key secret_key app can c)
  Runs-IsConsistent (profile {app} p r) c = Runs-IsConsistent r (kept app _ c refl)
  Runs-IsConsistent (peer {app} key r) c = Runs-IsConsistent r (record {
    database = c.database;
    vault = c.vault;
    one_chat = (ground arith, ground arith, refl);
  })
  Runs-IsConsistent (group {app} id r) c =
      Runs-IsConsistent r
        (record { database = c.database; vault = c.vault; one_chat = (refl, refl, ground arith) })
  Runs-IsConsistent (channel {app} id r) c =
      Runs-IsConsistent r
        (record { database = c.database; vault = c.vault; one_chat = (refl, refl, refl) })
  Runs-IsConsistent (typing {app} key b r) c = Runs-IsConsistent r (kept app _ c refl)
  Runs-IsConsistent (status {app} x r) c = Runs-IsConsistent r (kept app _ c refl)
  Runs-IsConsistent (locked {app} b r) c = Runs-IsConsistent r (kept app _ c refl)
  Runs-IsConsistent (pin {app} hash r) c = Runs-IsConsistent r (kept app _ c refl)
  Runs-IsConsistent (lock {app} r) c = Runs-IsConsistent r (lock-IsConsistent app c)
  Runs-IsConsistent (minutes {app} n r) c = Runs-IsConsistent r (kept app _ c refl)
  Runs-IsConsistent (restore {app} r) c = Runs-IsConsistent r (restore-IsConsistent app c)
  Runs-IsConsistent (remember {app} b r) c = Runs-IsConsistent r (kept app _ c refl)
  Runs-IsConsistent (forget {app} r) c = Runs-IsConsistent r (kept app _ c refl)
  Runs-IsConsistent (leave {app} r) c =
      Runs-IsConsistent r (record { database = refl; vault = refl; one_chat = (refl, refl, refl) })
  Runs-IsConsistent (unlock {app} code can r) c =
      Runs-IsConsistent r (unlocked-IsConsistent _ app can c)
