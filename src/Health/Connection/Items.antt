-- ===== src/Health/Connection/Items.antt =====
-- The list of health items as a whole.
use messk.Prelude.{
  ℕ, ◌≡◌, ◌↔◌, ◌⊎◌, refl, true, false, Option, none, some, List, [], ◌∷◌, ◌++◌, arith,
  if◌then◌else◌,
}
use messk.Health.Connection.{
  ConnectionHealthInput, ConnectionHealthItem, ConnectionHealthStatus, connected,
  ConnectionHealthThreadKind, ConnectionHealthSyncStatus, SyncState, synced,
  build_connection_health_items, connection_items, direct_items, room_items, sync_items, safe_count,
  room_label, state_items, is_direct, offline,
}

-- Without the text of the server's error.
abbrev pub hide_error : Option ConnectionHealthSyncStatus → Option ConnectionHealthSyncStatus
hide_error none = none
hide_error (some status) = some (record status { error = none })

-- What is shown does not depend on the text of a server's error.
pub items-hide_error :
    (input : ConnectionHealthInput)
    → build_connection_health_items
        (record input { collection_sync_status = hide_error input.collection_sync_status })
      ≡ build_connection_health_items input
unfolding build_connection_health_items sync_items
items-hide_error input = go input.collection_sync_status
  where
    go :
        (status : Option ConnectionHealthSyncStatus)
        → build_connection_health_items
            (record input { collection_sync_status = hide_error status })
          ≡ build_connection_health_items (record input { collection_sync_status = status })
    go none = refl
    go (some status) = refl

abbrev pub IsQuiet : Option ConnectionHealthSyncStatus → Type 0
IsQuiet none = Unit
IsQuiet (some status) = status.state ≡ synced

sync_items-empty :
    (kind : ConnectionHealthThreadKind) (status : Option ConnectionHealthSyncStatus)
    → is_direct kind ≡ false
    → (sync_items kind status ≡ []) ↔ IsQuiet status
unfolding sync_items
sync_items-empty kind none h = ground arith
sync_items-empty kind (some status) h = go status.state h
  where
    go :
        (state : SyncState)
        → is_direct kind ≡ false
        → ((if is_direct kind then [] else state_items (room_label kind) state) ≡ [])
          ↔ (state ≡ synced)
    go synced h = rw h (ground arith)
    go SyncState.idle h = rw h (ground arith)
    go SyncState.syncing h = rw h (ground arith)
    go SyncState.error h = rw h (ground arith)

append-empty : (xs ys : List ConnectionHealthItem) → (xs ++ ys ≡ []) ↔ ((xs ≡ []) × (ys ≡ []))
append-empty [] ys = (λ e. (refl, e), λ e. e.1)
append-empty (x ∷ xs) ys = (λ e. absurd (cc), λ e. absurd (cc (e.0)))

connection_items-empty :
    (status : ConnectionHealthStatus) → (connection_items status ≡ []) ↔ (status ≡ connected)
unfolding connection_items
connection_items-empty connected = ground arith
connection_items-empty offline = ground arith
connection_items-empty ConnectionHealthStatus.connecting = ground arith
connection_items-empty ConnectionHealthStatus.reconnecting = ground arith

direct_items-empty :
    (status : ConnectionHealthStatus) (n a : ℕ) → (direct_items status n a ≡ []) ↔ (n ≡ 0)
unfolding direct_items
direct_items-empty status n a = ground arith

room_items-empty :
    (status : ConnectionHealthStatus) (kind : ConnectionHealthThreadKind) (n : ℕ)
    → (room_items status kind n ≡ []) ↔ ((is_direct kind ≡ true) ⊎ (n ≡ 0))
unfolding room_items
room_items-empty status kind n = ground arith

sync_items-direct :
    (kind : ConnectionHealthThreadKind) (status : Option ConnectionHealthSyncStatus)
    → is_direct kind ≡ true
    → sync_items kind status ≡ []
unfolding sync_items
sync_items-direct kind none h = refl
sync_items-direct kind (some status) h = rw h refl

-- Nothing is shown exactly when the channel is connected, no direct message is queued and, in a
-- group or a channel, no room event is queued and no synchronisation is under way or has failed.
pub items-empty_iff :
    (input : ConnectionHealthInput)
    → (build_connection_health_items input ≡ []) ↔ (
        (input.connection_status ≡ connected)
        × (safe_count input.queued_direct_count ≡ 0)
        × ((is_direct input.thread_kind ≡ true)
            ⊎ ((safe_count input.queued_room_event_count ≡ 0)
                × IsQuiet input.collection_sync_status)))
unfolding build_connection_health_items
items-empty_iff input =
    let status = input.connection_status in
    let kind = input.thread_kind in
    let n = safe_count input.queued_direct_count in
    let a = safe_count input.queued_direct_attempts in
    let m = safe_count input.queued_room_event_count in
    let sync = input.collection_sync_status in
    let top =
      append-empty (connection_items status)
        (direct_items status n a ++ (room_items status kind m ++ sync_items kind sync)) in
    let next =
      append-empty (direct_items status n a) (room_items status kind m ++ sync_items kind sync) in
    let last = append-empty (room_items status kind m) (sync_items kind sync) in
    ground (
      arith,
      top,
      next,
      last,
      connection_items-empty status,
      direct_items-empty status n a,
      room_items-empty status kind m,
      sync_items-empty kind sync,
      sync_items-direct kind sync,
    )
