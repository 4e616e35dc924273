-- ===== src/Health/Connection.antt =====
-- messk/src/lib/connectionHealth.ts
pub mod Items
use messk.Prelude.{
  ℕ, ◌-◌, ◌==◌, Bool, true, false, ◌&&◌, not, Option, none, some, List, [], ◌∷◌, ◌++◌, Text, codes,
  decimal, ltb, leb, if◌then◌else◌,
}
use messk.Prelude.Int.{pos}
use messk.Prelude.Number.{Number}

pub data ConnectionHealthStatus : Type 0 where
  offline connecting connected reconnecting : ConnectionHealthStatus

pub data ConnectionHealthThreadKind : Type 0 where
  direct group channel : ConnectionHealthThreadKind

pub data ConnectionHealthTone : Type 0 where
  ok warn danger : ConnectionHealthTone

pub data ConnectionHealthIcon : Type 0 where
  clock sync wifi_off : ConnectionHealthIcon

pub data Live : Type 0 where
  polite assertive : Live

pub data SyncState : Type 0 where
  idle syncing synced error : SyncState

pub record ConnectionHealthSyncStatus : Type 0 where
  pub state : SyncState
  pub error : Option Text

pub record ConnectionHealthItem : Type 0 where
  pub id : Text
  pub title : Text
  pub detail : Text
  pub tone : ConnectionHealthTone
  pub icon : ConnectionHealthIcon
  pub live : Live

pub record ConnectionHealthInput : Type 0 where
  pub connection_status : ConnectionHealthStatus
  pub thread_kind : ConnectionHealthThreadKind
  pub queued_direct_count : Option Number
  pub queued_direct_attempts : Option Number
  pub queued_room_event_count : Option Number
  pub collection_sync_status : Option ConnectionHealthSyncStatus

unfoldable pub pluralize : ℕ → Text → Text
pluralize count singular =
    decimal count ++ b' ' ∷ (if count == 1 then singular else singular ++ codes "s")

unfoldable pub room_label : ConnectionHealthThreadKind → Text
room_label channel = codes "channel"
room_label _ = codes "group"

-- `room[0].toUpperCase()` and the rest, of the label's small letters.
unfoldable pub capitalize : Text → Text
capitalize [] = []
capitalize (c ∷ s) = (if leb b'a' c && leb c b'z' then c - 32 else c) ∷ s

unfoldable pub safe_count : Option Number → ℕ
safe_count (some (Number.int (pos n))) = n
safe_count (some (Number.between (pos n))) = n
safe_count _ = 0

abbrev pub is_connected : ConnectionHealthStatus → Bool
is_connected connected = true
is_connected _ = false

abbrev pub is_direct : ConnectionHealthThreadKind → Bool
is_direct direct = true
is_direct _ = false

unfoldable pub connection_items : ConnectionHealthStatus → List ConnectionHealthItem
connection_items connected = []
connection_items offline =
    record {
      id = codes "connection-offline";
      title = codes "Offline";
      detail =
          codes
            "Messages stay on this device and retry automatically when the secure channel returns.";
      tone = danger;
      icon = wifi_off;
      live = assertive;
    }
    ∷ []
connection_items reconnecting =
    record {
      id = codes "connection-reconnecting";
      title = codes "Reconnecting secure channel";
      detail =
          codes
            "Delivery may be delayed. Queued sends stay encrypted locally until reconnect succeeds.";
      tone = warn;
      icon = wifi_off;
      live = polite;
    }
    ∷ []
connection_items connecting =
    record {
      id = codes "connection-connecting";
      title = codes "Connecting secure channel";
      detail = codes "The thread is readable while Messk establishes a realtime transport.";
      tone = warn;
      icon = sync;
      live = polite;
    }
    ∷ []

abbrev pub queue_icon : ConnectionHealthStatus → ConnectionHealthIcon
queue_icon status = if is_connected status then clock else wifi_off

unfoldable pub direct_items : ConnectionHealthStatus → ℕ → ℕ → List ConnectionHealthItem
direct_items status count attempts =
    if ltb 0 count
    then record {
      id = codes "direct-retry-queue";
      title = pluralize count (codes "message") ++ codes " waiting for delivery";
      detail =
          codes "Stored locally in the retry queue. Attempts: " ++ (decimal attempts ++ codes ".");
      tone = warn;
      icon = queue_icon status;
      live = polite;
    }
      ∷ []
    else []

unfoldable pub room_items :
    ConnectionHealthStatus → ConnectionHealthThreadKind → ℕ → List ConnectionHealthItem
room_items status kind count =
    if ltb 0 count && not (is_direct kind)
    then record {
      id = room_label kind ++ codes "-retry-queue";
      title = pluralize count (room_label kind ++ codes " event") ++ codes " queued for reconnect";
      detail =
          if is_connected status
          then codes
              "Encrypted room changes are waiting for secure resend and should flush shortly."
          else codes
              "Connection is unstable. Encrypted room changes will send automatically after reconnect.";
      tone = warn;
      icon = queue_icon status;
      live = polite;
    }
      ∷ []
    else []

unfoldable pub syncing_item : Text → ConnectionHealthItem
syncing_item room = record {
  id = room ++ codes "-metadata-sync";
  title = codes "Syncing " ++ (room ++ codes " metadata");
  detail =
      codes
        "You can keep reading the current thread while membership and permission state catches up.";
  tone = warn;
  icon = sync;
  live = polite;
}

unfoldable pub sync_error_item : Text → ConnectionHealthItem
sync_error_item room = record {
  id = room ++ codes "-metadata-sync-error";
  title = capitalize room ++ codes " metadata needs refresh";
  detail =
      codes
        "Retry after reconnect. Raw server errors are hidden here so diagnostics do not expose identifiers.";
  tone = danger;
  icon = wifi_off;
  live = assertive;
}

abbrev pub state_items : Text → SyncState → List ConnectionHealthItem
state_items room synced = []
state_items room error = sync_error_item room ∷ []
state_items room _ = syncing_item room ∷ []

unfoldable pub sync_items :
    ConnectionHealthThreadKind → Option ConnectionHealthSyncStatus → List ConnectionHealthItem
sync_items kind none = []
sync_items kind (some status) =
    if is_direct kind then [] else state_items (room_label kind) status.state

unfoldable pub build_connection_health_items : ConnectionHealthInput → List ConnectionHealthItem
build_connection_health_items input =
    connection_items input.connection_status
    ++ (direct_items input.connection_status (safe_count input.queued_direct_count)
          (safe_count input.queued_direct_attempts)
        ++ (room_items input.connection_status input.thread_kind
              (safe_count input.queued_room_event_count)
            ++ sync_items input.thread_kind input.collection_sync_status))

unfoldable pub get_connection_health_tone_class : ConnectionHealthTone → Text
get_connection_health_tone_class danger = codes "border-red-400/20 bg-red-400/10 text-red-100"
get_connection_health_tone_class ok =
    codes "border-emerald-400/20 bg-emerald-400/10 text-emerald-200"
get_connection_health_tone_class warn = codes "border-amber-300/20 bg-amber-300/10 text-amber-100"
