-- ===== src/Store/Tests.antt =====
-- A run of the message store, and instances of its theorems.
use messk.Prelude.{◌≡◌, refl, none, some, [], Text, codes, same}
use messk.Prelude.Dict.{lookup, insert}
use messk.Store.{
  StoredMessage, Database, Status, stats_of, latest, unread_count, sync_thread_stats,
  add_message_and_sync, mark_message_deleted, update_message_by_msg_id, update_message_and_sync,
  find_by_id, find_by_msg_id, update_row, preview_thread_message,
}
use messk.Store.Synced.{IsSynced}
use messk.Store.Steps.{rest, add, delete, Steps-IsSynced}

abbrev preview : Text → Text
preview t = t

abbrev received : StoredMessage
received = record {
  id = 1;
  msg_id = codes "m1";
  peer_public_key = codes "alice";
  sender_public_key = codes "alice";
  text = codes "hi";
  timestamp = 7;
  status = Status.delivered;
  reactions = [];
  edited_at = none;
  deleted_at = none;
  edited_by = none;
  deleted_by = none;
}

abbrev empty : Database
empty = record { identity = some (codes "me"); messages = []; thread_stats = [] }

empty-IsSynced : IsSynced preview empty
unfolding stats_of lookup
empty-IsSynced t written = refl

unread_test :
    lookup (codes "alice") (add_message_and_sync preview received empty).thread_stats
    ≡ some (record { unread_count = 1; last_message_preview = codes "hi"; last_message_at = 7 })
unfolding add_message_and_sync sync_thread_stats stats_of latest unread_count preview_thread_message
    lookup insert same find_by_msg_id
unread_test = refl

abbrev deleted : Database
deleted =
    mark_message_deleted preview 9 (codes "m1") none (add_message_and_sync preview received empty)

deleted_test :
    lookup (codes "alice") deleted.thread_stats
    ≡ some (record {
      unread_count = 1;
      last_message_preview = codes "Message deleted";
      last_message_at = 7;
    })
unfolding add_message_and_sync sync_thread_stats stats_of latest unread_count preview_thread_message
    lookup insert same mark_message_deleted update_message_by_msg_id update_message_and_sync
    find_by_id find_by_msg_id update_row
deleted_test = refl

Steps-IsSynced_example : IsSynced preview deleted
Steps-IsSynced_example =
    Steps-IsSynced preview (add received (delete 9 (codes "m1") none rest)) empty-IsSynced
