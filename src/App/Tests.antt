-- ===== src/App/Tests.antt =====
-- The application on a vault that hides nothing.
use messk.Prelude.{◌≡◌, refl, true, false, Option, none, some, [], ◌∷◌, Text, codes}
use messk.Prelude.Number.{Number}
use messk.Prelude.Int.{pos}
use messk.Security.{Bytes}
use messk.Security.Tests.{toy, toy-IsVault, raw, is_remembered}
use messk.App.{App, no_profile, offline, default_db_name, set_keys, set_active_group}
use messk.App.Remembered.{start, logout, unlock_remembered_identity}
use messk.App.Consistent.{IsConsistent, rest, keys, group, leave, Runs-IsConsistent}
use messk.App.Unlock.{unlock-remember}

abbrev app : App
app = start (record {
  state = record {
    my_public_key = none;
    my_secret_key = none;
    active_peer_key = none;
    active_group_id = none;
    active_channel_id = none;
    profile = no_profile;
    typing_status = [];
    connection_status = offline;
    is_locked = false;
    pin_hash = none;
    auto_lock_minutes = Number.int (pos 15);
    is_restoring_identity = true;
    is_identity_remembered = false;
  };
  stored_pin_hash = some (codes "h");
  stored_profile = no_profile;
  stored_profiles = [];
  stored_auto_lock_minutes = none;
  remembered = some raw;
  database_name = default_db_name;
  vault_key = none;
})

abbrev decode : Text → Option Bytes
decode t = some t

consistent : IsConsistent decode app
unfolding start
consistent = record { database = refl; vault = refl; one_chat = (refl, refl, refl) }

abbrev after : App
after = logout (set_active_group (some (codes "g")) (set_keys decode (codes "a") (codes "s") app))

Runs-IsConsistent_example : IsConsistent decode after
Runs-IsConsistent_example =
    Runs-IsConsistent toy decode
      (keys (codes "a") (codes "s") (codes "s", refl) (group (some (codes "g")) (leave rest)))
      consistent

stored : app.remembered ≡ some raw
unfolding start
stored = refl

unlock-remember_example :
    ((unlock_remembered_identity toy decode (codes "1234") app).0 ≡ some true)
    × ((unlock_remembered_identity toy decode (codes "1234") app).1.state.is_locked ≡ false)
    × ((unlock_remembered_identity toy decode (codes "1234") app).1.state.my_public_key
        ≡ some (codes "a"))
    × ((unlock_remembered_identity toy decode (codes "1234") app).1.state.my_secret_key
        ≡ some (codes "s"))
    × ((unlock_remembered_identity toy decode (codes "1234") app).1.vault_key ≡ some (codes "s"))
unlock-remember_example =
    unlock-remember toy toy-IsVault decode (1 ∷ []) (2 ∷ []) 7 (codes "a") (codes "s")
      (codes "1234") raw (codes "s") app is_remembered stored refl refl
