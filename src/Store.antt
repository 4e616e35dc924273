-- ===== src/Store.antt =====
-- messk/src/lib/socketMessageStore.ts, with the message and statistics tables of
-- messk/src/lib/db.ts (`syncThreadStats`, `rebuildAllThreadStats`). A table is a list in the order
-- of its primary key; `getMessageNotificationPreview`, a function of the text, is an argument.
pub mod Synced
pub mod Steps
pub mod Rebuild
mod Tests
use messk.Prelude.{
  ℕ, suc, ◌+◌, ◌==◌, Bool, true, false, ◌&&◌, not, Option, none, some, List, [], ◌∷◌, ◌++◌, Text,
  codes, same, nonempty, filter, leb, map, is_some, ltb, if◌then◌else◌, includes,
}
use messk.Prelude.Dict.{Dict, insert, remove}

pub data Status : Type 0 where
  pending sent delivered read failed : Status

pub record StoredMessage : Type 0 where
  pub id : ℕ
  pub msg_id : Text
  pub peer_public_key : Text
  pub sender_public_key : Text
  pub text : Text
  pub timestamp : ℕ
  pub status : Status
  pub reactions : Dict Text
  pub edited_at : Option ℕ
  pub deleted_at : Option ℕ
  pub edited_by : Option Text
  pub deleted_by : Option Text

pub record ThreadStat : Type 0 where
  pub unread_count : ℕ
  pub last_message_preview : Text
  pub last_message_at : ℕ

-- The tables that are used here, and the public key of the first row of `keypairs`.
pub record Database : Type 0 where
  pub identity : Option Text
  pub messages : List StoredMessage
  pub thread_stats : Dict ThreadStat

abbrev pub is_read : Status → Bool
is_read read = true
is_read _ = false

abbrev pub in_thread : Text → StoredMessage → Bool
in_thread thread_id m = same m.peer_public_key thread_id

-- The later of a message and the messages behind it; on a tie, the last one.
unfoldable pub latest : StoredMessage → List StoredMessage → StoredMessage
latest current [] = current
latest current (m ∷ ms) = latest (if leb current.timestamp m.timestamp then m else current) ms

abbrev pub is_unread : Option Text → StoredMessage → Bool
is_unread none m = false
is_unread (some my_public_key) m =
    nonempty my_public_key && not (same m.sender_public_key my_public_key) && not (is_read m.status)

unfoldable pub unread_count : Option Text → List StoredMessage → ℕ
unread_count me [] = 0
unread_count me (m ∷ ms) =
    let rest = unread_count me ms in if is_unread me m then suc rest else rest

-- `if (message.deletedAt)`
abbrev pub is_deleted : Option ℕ → Bool
is_deleted none = false
is_deleted (some at) = ltb 0 at

module _ (preview : Text → Text) where
  unfoldable pub preview_thread_message : StoredMessage → Text
  preview_thread_message m =
      if is_deleted m.deleted_at then codes "Message deleted" else preview m.text

  -- The row for a thread with these messages; a thread without messages has none.
  unfoldable pub stats_of : Option Text → List StoredMessage → Option ThreadStat
  stats_of me [] = none
  stats_of me (m ∷ ms) = some (record {
    unread_count = unread_count me (m ∷ ms);
    last_message_preview = preview_thread_message (latest m ms);
    last_message_at = (latest m ms).timestamp;
  })

abbrev pub put_or_delete : Text → Option ThreadStat → Dict ThreadStat → Dict ThreadStat
put_or_delete thread_id none stats = remove thread_id stats
put_or_delete thread_id (some stat) stats = insert thread_id stat stats

-- `where('msgId').equals(…).first()`
unfoldable pub find_by_msg_id : Text → List StoredMessage → Option StoredMessage
find_by_msg_id msg_id [] = none
find_by_msg_id msg_id (m ∷ ms) = if same m.msg_id msg_id then some m else find_by_msg_id msg_id ms

-- `messages.get(id)`
unfoldable pub find_by_id : ℕ → List StoredMessage → Option StoredMessage
find_by_id id [] = none
find_by_id id (m ∷ ms) = if m.id == id then some m else find_by_id id ms

-- `messages.update(id, changes)`: one row at most, as `id` is the primary key.
unfoldable pub update_row :
    ℕ → (StoredMessage → StoredMessage) → List StoredMessage → List StoredMessage
update_row id changes [] = []
update_row id changes (m ∷ ms) =
    let rest = update_row id changes ms in if m.id == id then changes m ∷ ms else m ∷ rest

module _ (preview : Text → Text) where
  unfoldable pub sync_thread_stats : Text → Database → Database
  sync_thread_stats thread_id db =
      if nonempty thread_id
      then record db {
        thread_stats =
            put_or_delete thread_id
              (stats_of preview db.identity (filter (in_thread thread_id) db.messages))
              db.thread_stats;
      }
      else db

  -- `msgId` is a unique index: Dexie refuses a second row of one id with an exception, and nothing is
  -- written.
  unfoldable pub add_message_and_sync : StoredMessage → Database → Database
  add_message_and_sync message db =
      if is_some (find_by_msg_id message.msg_id db.messages)
      then db
      else sync_thread_stats message.peer_public_key
          (record db { messages = db.messages ++ message ∷ [] })

  abbrev pub sync_existing : Option StoredMessage → Database → Database
  sync_existing none db = db
  sync_existing (some existing) db = sync_thread_stats existing.peer_public_key db

  unfoldable pub update_message_and_sync : ℕ → (StoredMessage → StoredMessage) → Database → Database
  update_message_and_sync message_id changes db =
      sync_existing (find_by_id message_id db.messages)
        (record db { messages = update_row message_id changes db.messages })

  -- `if (existing?.id) await updateMessageAndSync(existing.id, changes)`
  abbrev pub update_existing :
      Option StoredMessage → (StoredMessage → StoredMessage) → Database → Database
  update_existing none changes db = db
  update_existing (some existing) changes db =
      if ltb 0 existing.id then update_message_and_sync existing.id changes db else db

  unfoldable pub update_message_by_msg_id :
      Text → (StoredMessage → StoredMessage) → Database → Database
  update_message_by_msg_id msg_id changes db =
      update_existing (find_by_msg_id msg_id db.messages) changes db

  unfoldable pub mark_message_edited : ℕ → Text → Text → Option Text → Database → Database
  mark_message_edited now msg_id text edited_by = update_message_by_msg_id msg_id (λ m. record m {
    text = text;
    edited_at = some now;
    edited_by = edited_by;
    deleted_at = none;
  })

  unfoldable pub mark_message_deleted : ℕ → Text → Option Text → Database → Database
  mark_message_deleted now msg_id deleted_by = update_message_by_msg_id msg_id (λ m. record m {
    text = codes "[Message deleted]";
    deleted_at = some now;
    deleted_by = deleted_by;
    edited_at = none;
    reactions = [];
  })

  -- `if (reaction) reactions[actor] = reaction; else delete reactions[actor]`
  abbrev pub set_reaction : Text → Option Text → Dict Text → Dict Text
  set_reaction actor none reactions = remove actor reactions
  set_reaction actor (some reaction) reactions =
      if nonempty reaction then insert actor reaction reactions else remove actor reactions

  abbrev pub react_to : Option StoredMessage → Text → Option Text → Database → Database
  react_to none actor reaction db = db
  react_to (some existing) actor reaction db =
      if ltb 0 existing.id
      then update_message_and_sync existing.id
          (λ m. record m { reactions = set_reaction actor reaction existing.reactions }) db
      else db

  unfoldable pub apply_message_reaction : Text → Text → Option Text → Database → Database
  apply_message_reaction msg_id actor reaction db =
      react_to (find_by_msg_id msg_id db.messages) actor reaction db

-- `[...new Set(ids)]`
unfoldable pub distinct : List Text → List Text → List Text
distinct seen [] = []
distinct seen (t ∷ ts) =
    let more = t ∷ distinct (t ∷ seen) ts in
    let rest = distinct seen ts in if includes seen t then rest else more

module _ (preview : Text → Text) where
  abbrev pub sync_each : List Text → Database → Database
  sync_each [] db = db
  sync_each (t ∷ ts) db = sync_each ts (sync_thread_stats preview t db)

  unfoldable pub sync_thread_stats_for_many : List Text → Database → Database
  sync_thread_stats_for_many thread_ids db = sync_each (distinct [] (filter nonempty thread_ids)) db

  unfoldable pub rebuild_all_thread_stats : Database → Database
  rebuild_all_thread_stats db =
      sync_thread_stats_for_many (distinct [] (map (λ m. m.peer_public_key) db.messages))
        (record db { thread_stats = [] })
