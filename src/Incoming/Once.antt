-- ===== src/Incoming/Once.antt =====
-- Any sequence of direct envelopes: each message is stored once, and the statistics of the threads fit.
use messk.Prelude.{
  ℕ, ◌<◌, ◌==◌, ◌≡◌, refl, Option, none, some, List, [], ◌∷◌, ◌++◌, Text, same, same_iff, All,
  if-property, arith, false,
}
use messk.Ratchet.Platform.{Platform}
use messk.Store.{
  Database, StoredMessage, find_by_msg_id, find_by_id, update_row, update_message_and_sync,
  add_message_and_sync, sync_thread_stats, sync_existing,
}
use messk.Store.Synced.{IsSynced, add-IsSynced, update-IsSynced}
use messk.Incoming.{DirectEnvelope, Client, Moment}
use messk.Incoming.SelfSync.{with_id}
use messk.Incoming.Dispatch.{handle_direct, IsDirect}
use messk.Incoming.Invariant.{IsKept}
use messk.Incoming.Received.{handle_direct-Kept}

-- Each row has a key, and a `msgId` that no other row has.
abbrev pub HasUniqueIds : List StoredMessage → Type 0
HasUniqueIds [] = Unit
HasUniqueIds (m ∷ ms) = (0 < m.id) × (find_by_msg_id m.msg_id ms ≡ none) × HasUniqueIds ms

find-append :
    (t : Text) (m : StoredMessage) (ms : List StoredMessage)
    → find_by_msg_id t ms ≡ none
    → same m.msg_id t ≡ false
    → find_by_msg_id t (ms ++ m ∷ []) ≡ none
unfolding find_by_msg_id
find-append t m [] h k = rw k refl
find-append t m (n ∷ ms) h k = ground (arith, find-append t m ms)

pub append-HasUniqueIds :
    (m : StoredMessage) (ms : List StoredMessage)
    → 0 < m.id
    → find_by_msg_id m.msg_id ms ≡ none
    → HasUniqueIds ms
    → HasUniqueIds (ms ++ m ∷ [])
unfolding find_by_msg_id
append-HasUniqueIds m [] key h u = (key, refl, tt)
append-HasUniqueIds m (n ∷ ms) key h (low, fresh, u) =
    let (differs, rest) = split in
    (
      low,
      find-append n.msg_id m ms fresh
          (ground (arith, same_iff m.msg_id n.msg_id, same_iff n.msg_id m.msg_id)),
      append-HasUniqueIds m ms key rest u,
    )
  where
    split : (same n.msg_id m.msg_id ≡ false) × (find_by_msg_id m.msg_id ms ≡ none)
    split = ground arith

find-update_row :
    (t : Text) (id : ℕ) (changes : StoredMessage → StoredMessage) (ms : List StoredMessage)
    → ((m : StoredMessage) → (changes m).msg_id ≡ m.msg_id)
    → find_by_msg_id t ms ≡ none
    → find_by_msg_id t (update_row id changes ms) ≡ none
unfolding find_by_msg_id update_row
find-update_row t id changes [] keeps h = refl
find-update_row t id changes (m ∷ ms) keeps h =
    ground (arith, keeps m, find-update_row t id changes ms keeps)

pub update_row-HasUniqueIds :
    (id : ℕ) (changes : StoredMessage → StoredMessage) (ms : List StoredMessage)
    → ((m : StoredMessage) → (changes m).id ≡ m.id)
    → ((m : StoredMessage) → (changes m).msg_id ≡ m.msg_id)
    → HasUniqueIds ms
    → HasUniqueIds (update_row id changes ms)
unfolding update_row
update_row-HasUniqueIds id changes [] ids keeps u = tt
update_row-HasUniqueIds id changes (m ∷ ms) ids keeps (low, fresh, u) =
    if-property HasUniqueIds (m.id == id) (changes m ∷ ms) (m ∷ update_row id changes ms)
      (λ _. (rw (ids m) low, rw (keeps m) fresh, u))
      (λ _. (
        low,
        find-update_row m.msg_id id changes ms keeps fresh,
        update_row-HasUniqueIds id changes ms ids keeps u,
      ))

unknown-with_id :
    (t : Text) (ms : List StoredMessage)
    → HasUniqueIds ms
    → with_id (find_by_msg_id t ms) ≡ none
    → find_by_msg_id t ms ≡ none
unfolding find_by_msg_id
unknown-with_id t [] u h = refl
unknown-with_id t (m ∷ ms) (low, fresh, u) h = ground (arith, unknown-with_id t ms u)

module _ (preview : Text → Text) where
  pub sync-messages :
      (t : Text) (db : Database) → (sync_thread_stats preview t db).messages ≡ db.messages
  unfolding sync_thread_stats
  sync-messages t db = ground arith

  pub add-messages :
      (m : StoredMessage) (db : Database)
      → find_by_msg_id m.msg_id db.messages ≡ none
      → (add_message_and_sync preview m db).messages ≡ db.messages ++ m ∷ []
  unfolding add_message_and_sync
  add-messages m db new =
      rw new (sync-messages m.peer_public_key (record db { messages = db.messages ++ m ∷ [] }))

  pub sync_existing-messages :
      (o : Option StoredMessage) (db : Database)
      → (sync_existing preview o db).messages ≡ db.messages
  sync_existing-messages none db = refl
  sync_existing-messages (some m) db = sync-messages m.peer_public_key db

  -- Both invariants of the tables of messages and statistics.
  abbrev pub IsSound : Database → Type 0
  IsSound db = HasUniqueIds db.messages × IsSynced preview db

  pub IsSound-IsKept : IsKept preview IsSound
  unfolding update_message_and_sync
  IsSound-IsKept = record {
    add = λ m db key unknown (u, s). (
      rw (add-messages m db (unknown-with_id m.msg_id db.messages u unknown)) (
          append-HasUniqueIds m db.messages key (unknown-with_id m.msg_id db.messages u unknown) u),
      add-IsSynced preview m db s,
    );
    change = λ id changes db ids keeps threads (u, s). (
      rw
          (sync_existing-messages (find_by_id id db.messages)
            (record db { messages = update_row id changes db.messages }))
          (update_row-HasUniqueIds id changes db.messages ids keeps u),
      update-IsSynced preview id changes db threads s,
    );
  }

module _ (p : Platform) (preview : Text → Text) where
  -- Direct envelopes, one after the other.
  abbrev pub handle_all : List (Moment × DirectEnvelope) → Client → Client
  handle_all [] client = client
  handle_all ((moment, env) ∷ rest) client =
      handle_all rest (handle_direct p preview moment env client)

  -- However many direct envelopes arrive (messages, offline messages, copies of one's own devices, edits,
  -- deletions, reactions, pins, receipts and session repairs), of any content and in any order, no two
  -- rows of the message table get one message id, and the statistics of each thread are those of its
  -- messages; provided that this was so at first, and that the keys of new rows are positive.
  pub handle_all-IsSound :
      (arrivals : List (Moment × DirectEnvelope)) (client : Client)
      → All (λ (a : Moment × DirectEnvelope). (0 < a.0.next_id) × IsDirect a.1) arrivals
      → HasUniqueIds client.db.messages
      → IsSynced preview client.db
      → HasUniqueIds (handle_all arrivals client).db.messages
        × IsSynced preview (handle_all arrivals client).db
  handle_all-IsSound [] client fresh u s = (u, s)
  handle_all-IsSound ((moment, env) ∷ rest) client ((key, direct), fresh) u s =
      let (u', s') =
        handle_direct-Kept p preview (IsSound preview) (IsSound-IsKept preview) moment env client
          key (u, s) in
      handle_all-IsSound rest (handle_direct p preview moment env client) fresh u' s'
