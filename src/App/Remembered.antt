-- ===== src/App/Remembered.antt =====
-- The identity that is remembered, logging out and starting again (messk/src/store/index.ts).
use messk.Prelude.{
  Bool, true, false, ◌&&◌, ◌||◌, not, Option, none, some, [], Text, truthy, nonempty, is_some,
  ◌or_else◌, if◌then◌else◌,
}
use messk.Prelude.Int.{pos}
use messk.Prelude.Number.{Number}
use messk.Security.{Vault, Bytes, restore_remembered_identity_with_pin}
use messk.App.{App, offline, default_db_name, with_state, set_keys, normalize_auto_lock_minutes}

unfoldable pub restore_remembered_identity : App → App
restore_remembered_identity app =
    if truthy app.remembered && truthy app.stored_pin_hash
    then with_state
        (λ s. record s {
          is_locked = true;
          is_restoring_identity = false;
          is_identity_remembered = true;
        })
        app
    else with_state
        (λ s. record s { is_restoring_identity = false; is_identity_remembered = false })
        (record app { remembered = if truthy app.remembered then none else app.remembered })

unfoldable pub set_identity_remembered : Bool → App → App
set_identity_remembered is_remembered =
    with_state (λ s. record s { is_identity_remembered = is_remembered })

unfoldable pub forget_remembered_identity : App → App
forget_remembered_identity app = record app {
  state = record app.state { is_identity_remembered = false };
  remembered = none;
}

unfoldable pub logout : App → App
logout app = record app {
  state = record app.state {
    my_public_key = none;
    my_secret_key = none;
    active_peer_key = none;
    active_group_id = none;
    active_channel_id = none;
    typing_status = [];
    connection_status = offline;
    is_locked = false;
    pin_hash = none;
    is_restoring_identity = false;
    is_identity_remembered = false;
  };
  remembered = none;
  database_name = default_db_name;
  vault_key = none;
}

module _ (v : Vault) (decode_base64 : Text → Option Bytes) where
  -- Whether `setVaultKey` returns.
  abbrev pub opens : Text → Bool
  opens secret_key = not (nonempty secret_key) || is_some (decode_base64 secret_key)

  abbrev pub unlocked : Option (Text × Text) → App → Option Bool × App
  unlocked none app = (some false, app)
  unlocked (some (public_key, secret_key)) app =
      let after = set_keys decode_base64 public_key secret_key app in
      if opens secret_key
      then (
        some true,
        with_state (λ s. record s { is_locked = false; is_identity_remembered = true }) after,
      )
      else (none, after)

  -- `unlockRememberedIdentity`; `none` is a promise that is rejected.
  unfoldable pub unlock_remembered_identity : Text → App → Option Bool × App
  unlock_remembered_identity pin app =
      unlocked (restore_remembered_identity_with_pin v app.remembered pin) app

-- The store as it is made when the program starts, from what is kept; no identity is loaded yet.
unfoldable pub start : App → App
start app = record app {
  state = record {
    my_public_key = none;
    my_secret_key = none;
    active_peer_key = none;
    active_group_id = none;
    active_channel_id = none;
    profile = app.stored_profile;
    typing_status = [];
    connection_status = offline;
    is_locked = false;
    pin_hash = app.stored_pin_hash;
    auto_lock_minutes =
        normalize_auto_lock_minutes (app.stored_auto_lock_minutes or_else Number.int (pos 15));
    is_restoring_identity = true;
    is_identity_remembered = false;
  };
  database_name = default_db_name;
  vault_key = none;
}
