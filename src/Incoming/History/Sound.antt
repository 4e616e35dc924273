-- ===== src/Incoming/History/Sound.antt =====
-- Synchronisation keeps the tables sound.
use messk.Prelude.{
  ℕ, zero, suc, ◌≡◌, refl, Bool, true, false, ◌||◌, not, Option, none, some, ◌∷◌, Text, same,
  nonempty, trim, ltb, leb, length, includes, if-property,
}
use messk.Prelude.Dict.{insert}
use messk.Ratchet.Platform.{Platform}
use messk.Ratchet.Step.{Outcome, done, null, throws}
use messk.Store.{Database}
use messk.Store.Synced.{IsSynced}
use messk.Incoming.{Client}
use messk.Incoming.Invariant.{IsKept}
use messk.Incoming.Once.{HasUniqueIds, IsSound, IsSound-IsKept}
use messk.Incoming.History.{DirectHistoryResponse}
use messk.Incoming.History.Sync.{
  Synchronizer, apply_records, turn_page, read_page, sync_pages, sync_direct_history, start_cursor,
}
use messk.Incoming.History.Records.{HasKeys, Leaves, records-Leaves}

-- Every page that the server may give.
abbrev pub AllPagesHaveKeys : (ℕ → Option DirectHistoryResponse) → Type 0
AllPagesHaveKeys fetch =
    (c : ℕ) (response : DirectHistoryResponse) → fetch c ≡ some response → HasKeys response.messages

module _ (p : Platform) (preview : Text → Text) (P : Database → Type 0)
    (kept : IsKept preview P) where
  -- Of the database of a synchroniser.
  abbrev Stays : Synchronizer → Type 0
  Stays s = P s.client.db

  turn_page-Stays :
      (next : ℕ → Synchronizer → Synchronizer) (peer : Text) (cursor : ℕ)
      (response : DirectHistoryResponse) (r : Outcome Bool × Client) (s : Synchronizer)
      → ((c : ℕ) (s : Synchronizer) → Stays s → Stays (next c s))
      → Leaves p preview P kept r
      → Stays (turn_page p preview next peer cursor response r s)
  turn_page-Stays next peer cursor response (done true, client) s rest h =
      let moved = record s {
        client = client;
        cursors = insert peer response.next_cursor s.cursors;
      } in
      if-property Stays (leb response.next_cursor cursor) _ _ (λ _. h)
        (λ _.
          if-property Stays (ltb (length response.messages) response.limit) moved _ (λ _. h)
            (λ _. rest response.next_cursor moved h))
  turn_page-Stays next peer cursor response (done false, client) s rest h = h
  turn_page-Stays next peer cursor response (null, client) s rest h = h
  turn_page-Stays next peer cursor response (throws, client) s rest h = h

  read_page-Stays :
      (next : ℕ → Synchronizer → Synchronizer) (peer : Text) (cursor : ℕ)
      (o : Option DirectHistoryResponse) (s : Synchronizer)
      → ((c : ℕ) (s : Synchronizer) → Stays s → Stays (next c s))
      → ((response : DirectHistoryResponse) → o ≡ some response → HasKeys response.messages)
      → Stays s
      → Stays (read_page p preview next peer cursor o s)
  read_page-Stays next peer cursor none s rest keys h = h
  read_page-Stays next peer cursor (some response) s rest keys h =
      turn_page-Stays next peer cursor response (apply_records p preview response.messages s.client)
        s rest (records-Leaves p preview P kept response.messages s.client (keys response refl) h)

  sync_pages-Stays :
      (pages : ℕ) (peer : Text) (fetch : ℕ → Option DirectHistoryResponse) (cursor : ℕ)
      (s : Synchronizer)
      → AllPagesHaveKeys fetch
      → Stays s
      → Stays (sync_pages p preview pages peer fetch cursor s)
  unfolding sync_pages
  sync_pages-Stays zero peer fetch cursor s keys h = h
  sync_pages-Stays (suc pages) peer fetch cursor s keys h =
      read_page-Stays (sync_pages p preview pages peer fetch) peer cursor (fetch cursor) s
        (λ c t k. sync_pages-Stays pages peer fetch c t keys k) (keys cursor) h

  sync-Stays :
      (ready : Bool) (fetch : ℕ → Option DirectHistoryResponse) (peer : Text) (s : Synchronizer)
      → AllPagesHaveKeys fetch
      → Stays s
      → Stays (sync_direct_history p preview ready fetch peer s)
  unfolding sync_direct_history
  sync-Stays ready fetch peer_pub_key s keys h =
      let peer = trim peer_pub_key in
      if-property Stays
        (not (nonempty peer) || not (nonempty s.client.public_key) || same peer s.client.public_key)
        s _ (λ _. h)
        (λ _.
          if-property Stays (includes s.syncing peer) s _ (λ _. h)
            (λ _.
              if-property Stays (not ready) s _ (λ _. h)
                (λ _.
                  sync_pages-Stays 5 peer fetch (start_cursor p preview peer s)
                    (record s { syncing = peer ∷ s.syncing }) keys h)))

-- A synchronisation, whatever the server answers, gives no two rows of the message table one message
-- id, and leaves each thread with the statistics of its messages; provided that this was so at first,
-- and that the keys of new rows are positive.
pub sync_direct_history-IsSound :
    (p : Platform) (preview : Text → Text) (ready : Bool) (fetch : ℕ → Option DirectHistoryResponse)
    (peer : Text) (s : Synchronizer)
    → AllPagesHaveKeys fetch
    → HasUniqueIds s.client.db.messages
    → IsSynced preview s.client.db
    → HasUniqueIds (sync_direct_history p preview ready fetch peer s).client.db.messages
      × IsSynced preview (sync_direct_history p preview ready fetch peer s).client.db
sync_direct_history-IsSound p preview ready fetch peer s keys u i =
    sync-Stays p preview (IsSound preview) (IsSound-IsKept preview) ready fetch peer s keys (u, i)
