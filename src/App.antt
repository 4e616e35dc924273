-- ===== src/App.antt =====
-- messk/src/store/index.ts: identity, lock and open chat of the application, with what messk/src/lib/db.ts
-- (`switchActiveDatabase`, `setVaultKey`, `getDatabaseNameForIdentity`) and messk/src/lib/security.ts
-- keep beside it. The settings of appearance, the synchronisation states, and the writes to the new
-- database that `setKeys` starts are not modelled.
pub mod Remembered
pub mod Consistent
pub mod Unlock
pub mod Name
mod Tests
use messk.Prelude.{
  ℕ, ◌==◌, ◌≡◌, Bool, true, false, ◌&&◌, ◌||◌, not, Option, none, some, List, [], ◌∷◌, ◌++◌, Text,
  codes, truthy, nonempty, map, length, replicate, is_some, leb, ◌or_else◌, if◌then◌else◌,
}
use messk.Prelude.Dict.{Dict, lookup, insert}
use messk.Prelude.Int.{pos}
use messk.Prelude.Number.{Number, is_finite, at_most, at_least}
use messk.Security.{Vault, Bytes, restore_remembered_identity_with_pin}

pub record Profile : Type 0 where
  pub nickname : Option Text
  pub avatar : Option Text
  pub username : Option Text

pub data ConnectionStatus : Type 0 where
  offline connecting connected reconnecting : ConnectionStatus

pub record AppState : Type 0 where
  pub my_public_key : Option Text
  pub my_secret_key : Option Text
  pub active_peer_key : Option Text
  pub active_group_id : Option Text
  pub active_channel_id : Option Text
  pub profile : Profile
  pub typing_status : Dict Bool
  pub connection_status : ConnectionStatus
  pub is_locked : Bool
  pub pin_hash : Option Text
  pub auto_lock_minutes : Number
  pub is_restoring_identity : Bool
  pub is_identity_remembered : Bool

-- The state with what is kept in localStorage (the PIN's hash, the last profile and that
-- of each identity, the minutes until the lock, the remembered identity)
-- and by the module of the database (the name of the open database, the vault's key).
pub record App : Type 0 where
  pub state : AppState
  pub stored_pin_hash : Option Text
  pub stored_profile : Profile
  pub stored_profiles : Dict Profile
  pub stored_auto_lock_minutes : Option Number
  pub remembered : Option Text
  pub database_name : Text
  pub vault_key : Option Bytes

abbrev pub default_db_name : Text
default_db_name = codes "MessengerDBClean20260511"

-- The replacements of '+' and '/'.
abbrev pub safe_char : ℕ → ℕ
safe_char c = if c == b'+' then b'-' else if c == b'/' then b'_' else c

-- replace(/=+$/, '')
unfoldable pub strip_padding : Text → Text
strip_padding [] = []
strip_padding (c ∷ s) = elim (strip_padding s) [
  | [] ↦ if c == b'=' then [] else c ∷ []
  | d ∷ rest ↦ c ∷ (d ∷ rest)
]

unfoldable pub get_database_name_for_identity : Text → Text
get_database_name_for_identity public_key =
    if not (nonempty public_key)
    then default_db_name
    else default_db_name ++ b'-' ∷ strip_padding (map safe_char public_key)

abbrev pub no_profile : Profile
no_profile = record { nickname = none; avatar = none; username = none }

abbrev pub profile_or_none : Option Profile → Profile
profile_or_none none = no_profile
profile_or_none (some profile) = profile

-- The buffer of the old key is overwritten before the new one is decoded.
abbrev pub zeroed : Option Bytes → Option Bytes
zeroed none = none
zeroed (some key) = some (replicate (length key) 0)

-- `set({…})` in `setKeys`
abbrev pub with_keys : Text → Text → App → App
with_keys public_key secret_key app = record app {
  state = record app.state {
    my_public_key = some public_key;
    my_secret_key = some secret_key;
    profile = profile_or_none (lookup public_key app.stored_profiles);
    is_restoring_identity = false;
    is_identity_remembered = truthy app.remembered;
  };
}

-- `setVaultKey` with a key, and the rest of `setKeys`, which an exception of the decoder prevents.
abbrev pub open_vault : Text → Text → Option Bytes → App → App
open_vault public_key secret_key none app = record app { vault_key = zeroed app.vault_key }
open_vault public_key secret_key (some key) app =
    with_keys public_key secret_key (record app { vault_key = some key })

module _ (decode_base64 : Text → Option Bytes) where
  unfoldable pub set_keys : Text → Text → App → App
  set_keys public_key secret_key app =
      let opened = record app { database_name = get_database_name_for_identity public_key } in
      if not (nonempty secret_key)
      then with_keys public_key secret_key (record opened { vault_key = none })
      else open_vault public_key secret_key (decode_base64 secret_key) opened

unfoldable pub set_profile : Profile → App → App
set_profile profile app = record app {
  state = record app.state { profile = profile };
  stored_profile = profile;
  stored_profiles = elim app.state.my_public_key [
    | none ↦ app.stored_profiles
    | some key ↦
        if nonempty key then insert key profile app.stored_profiles else app.stored_profiles
  ];
}

abbrev pub with_state : (AppState → AppState) → App → App
with_state f app = record app { state = f app.state }

-- `setActivePeer`, `setActiveGroup`, `setActiveChannel`: each closes the other two.
unfoldable pub set_active_peer : Option Text → App → App
set_active_peer key =
    with_state
      (λ s. record s { active_peer_key = key; active_group_id = none; active_channel_id = none })

unfoldable pub set_active_group : Option Text → App → App
set_active_group id =
    with_state
      (λ s. record s { active_group_id = id; active_peer_key = none; active_channel_id = none })

unfoldable pub set_active_channel : Option Text → App → App
set_active_channel id =
    with_state
      (λ s. record s { active_channel_id = id; active_peer_key = none; active_group_id = none })

unfoldable pub set_typing : Text → Bool → App → App
set_typing peer_key is_typing =
    with_state (λ s. record s { typing_status = insert peer_key is_typing s.typing_status })

unfoldable pub set_connection_status : ConnectionStatus → App → App
set_connection_status status = with_state (λ s. record s { connection_status = status })

unfoldable pub set_locked : Bool → App → App
set_locked is_locked = with_state (λ s. record s { is_locked = is_locked })

unfoldable pub set_pin_hash : Option Text → App → App
set_pin_hash pin_hash app = record app {
  state = record app.state {
    pin_hash = pin_hash;
    is_locked = if truthy pin_hash then app.state.is_locked else false;
    is_identity_remembered = if truthy pin_hash then app.state.is_identity_remembered else false;
  };
  stored_pin_hash = pin_hash;
  remembered = if truthy pin_hash then app.remembered else none;
}

unfoldable pub lock_app : App → App
lock_app app = if truthy app.state.pin_hash then set_locked true app else app

-- `normalizeAutoLockMinutes` of a number
unfoldable pub normalize_auto_lock_minutes : Number → Number
normalize_auto_lock_minutes value =
    if is_finite value && at_least value (pos 0) && at_most value (pos 240)
    then value
    else Number.int (pos 15)

unfoldable pub set_auto_lock_minutes : Number → App → App
set_auto_lock_minutes minutes app = record app {
  state = record app.state { auto_lock_minutes = normalize_auto_lock_minutes minutes };
  stored_auto_lock_minutes = some (normalize_auto_lock_minutes minutes);
}
