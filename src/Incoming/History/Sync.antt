-- ===== src/Incoming/History/Sync.antt =====
-- `applyDirectHistoryRecord` and the pages of `syncDirectHistory` (messk/src/lib/socket.ts).
use messk.Prelude.{
  ℕ, zero, suc, Bool, true, ◌||◌, not, Option, none, some, List, [], ◌∷◌, Text, same, nonempty,
  trim, ltb, leb, length, includes, any, filter, ◌or_else◌, if◌then◌else◌,
}
use messk.Prelude.Dict.{Dict, lookup, insert}
use messk.Ratchet.Platform.{Platform}
use messk.Ratchet.Step.{Outcome, done}
use messk.Store.{in_thread}
use messk.Incoming.{DirectEnvelope, Client, Moment}
use messk.Incoming.History.{
  DirectHistoryRecord, DirectHistoryResponse, normalize_history_envelope, apply_envelope,
}

-- The client with `directHistoryCursorByPeer` and `syncingDirectHistory`.
pub record Synchronizer : Type 0 where
  pub client : Client
  pub cursors : Dict ℕ
  pub syncing : List Text

abbrev with_client : Client → Synchronizer → Synchronizer
with_client client s = record s { client = client }

module _ (p : Platform) (preview : Text → Text) where
  abbrev pub apply_normalized :
      Moment → DirectHistoryRecord → Option DirectEnvelope → Client → Outcome Bool × Client
  apply_normalized moment entry none client = (done true, client)
  apply_normalized moment entry (some env) client = apply_envelope p preview moment env entry client

  unfoldable pub apply_direct_history_record :
      Moment → DirectHistoryRecord → Client → Outcome Bool × Client
  apply_direct_history_record moment entry client =
      apply_normalized moment entry (normalize_history_envelope entry) client

  abbrev pub apply_then :
      (Client → Outcome Bool × Client) → Outcome Bool × Client → Outcome Bool × Client
  apply_then next (done true, client) = next client
  apply_then next (o, client) = (o, client)

  -- The loop over a page's records: `done true` where all have been applied.
  unfoldable pub apply_records :
      List (Moment × DirectHistoryRecord) → Client → Outcome Bool × Client
  apply_records [] client = (done true, client)
  apply_records ((moment, entry) ∷ rest) client =
      apply_then (apply_records rest) (apply_direct_history_record moment entry client)

  -- After the records of a page: the next one, or the end of the loop. `throws` is caught by the caller.
  abbrev pub turn_page :
      (ℕ → Synchronizer → Synchronizer)
      → Text
      → ℕ
      → DirectHistoryResponse
      → Outcome Bool × Client
      → Synchronizer
      → Synchronizer
  turn_page next peer cursor response (done true, client) s =
      let moved = record s {
        client = client;
        cursors = insert peer response.next_cursor s.cursors;
      } in
      if leb response.next_cursor cursor
      then with_client client s
      else if ltb (length response.messages) response.limit
      then moved
      else next response.next_cursor moved
  turn_page next peer cursor response (o, client) s = with_client client s

  -- `none` is an exception of `fetchDirectHistory`, which the caller catches.
  abbrev pub read_page :
      (ℕ → Synchronizer → Synchronizer)
      → Text
      → ℕ
      → Option DirectHistoryResponse
      → Synchronizer
      → Synchronizer
  read_page next peer cursor none s = s
  read_page next peer cursor (some response) s =
      turn_page next peer cursor response (apply_records response.messages s.client) s

  -- The pages that are left, from a cursor; `fetch` is `fetchDirectHistory`.
  unfoldable pub sync_pages :
      ℕ → Text → (ℕ → Option DirectHistoryResponse) → ℕ → Synchronizer → Synchronizer
  sync_pages zero peer fetch cursor s = s
  sync_pages (suc pages) peer fetch cursor s =
      read_page (sync_pages pages peer fetch) peer cursor (fetch cursor) s

  -- A chat without messages is read from the start.
  abbrev pub start_cursor : Text → Synchronizer → ℕ
  start_cursor peer s =
      if any (in_thread peer) s.client.db.messages then lookup peer s.cursors or_else 0 else 0

  abbrev stop_syncing : Text → Synchronizer → Synchronizer
  stop_syncing peer s = record s { syncing = filter (λ t. not (same t peer)) s.syncing }

  -- `ready` is `ensureRealtimeReady`; at most 5 pages.
  unfoldable pub sync_direct_history :
      Bool → (ℕ → Option DirectHistoryResponse) → Text → Synchronizer → Synchronizer
  sync_direct_history ready fetch peer_pub_key s =
      let peer = trim peer_pub_key in
      if not (nonempty peer) || not (nonempty s.client.public_key) || same peer s.client.public_key
      then s
      else if includes s.syncing peer
      then s
      else if not ready
      then s
      else stop_syncing peer
          (sync_pages 5 peer fetch (start_cursor peer s) (record s { syncing = peer ∷ s.syncing }))
