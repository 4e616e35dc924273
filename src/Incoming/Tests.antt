-- ===== src/Incoming/Tests.antt =====
-- A message that arrives, and a synchronisation, on the toy platform.
use messk.Prelude.{
  ℕ, ◌≤◌, ◌≡◌, ◌≢◌, refl, subst, true, false, none, some, [], ◌∷◌, ◌++◌, codes, Text, replicate,
  arith, same, trim, Option, ◌or_else◌,
}
use messk.Prelude.Dict.{lookup}
use messk.Json.Parse.{parse_json}
use messk.Ratchet.Step.{done, null}
use messk.Ratchet.Toy.{toy, toy-IsPlatform, ToyPair, toy-IsKeyExchange}
use messk.Sessions.Decrypt.{decrypt_in_session}
use messk.Sessions.Tests.{
  key, draws, no_sessions, bob_store, first_sent, text_of, is_sent, holds, unknown,
}
use messk.Store.{Database, StoredMessage, delivered, stats_of, find_by_msg_id}
use messk.Store.Synced.{IsSynced}
use messk.Outbox.{OutgoingDirectMessage, direct_envelope}
use messk.Incoming.{DirectEnvelope, Client, Moment}
use messk.Incoming.Direct.{decrypt_for}
use messk.Incoming.Message.{handle_message, received_message}
use messk.Incoming.Dispatch.{IsDirect}
use messk.Incoming.Once.{HasUniqueIds, handle_all, handle_all-IsSound}
use messk.Incoming.Arrival.{on_wire, IsKeyText, handle_message-encrypt_in_session}
use messk.Incoming.History.{
  DirectHistoryRecord, DirectHistoryResponse, envelope, normalize_history_envelope, apply_envelope,
  apply_by_type, apply_direct_history_edit, unusable,
}
use messk.Incoming.History.Sync.{
  Synchronizer, apply_records, apply_direct_history_record, sync_pages, sync_direct_history,
}
use messk.Incoming.History.Cursor.{cursor_of, sync_pages-stops, sync_pages-reaches}
use messk.Incoming.History.Records.{HasKeys}
use messk.Incoming.History.Sound.{AllPagesHaveKeys, sync_direct_history-IsSound}
use messk.Incoming.History.Blocked.{IsEditOf, deleted_edit-blocks}

abbrev preview : Text → Text
preview t = t

abbrev empty_db : Database
empty_db = record { identity = some (2 ∷ []); messages = []; thread_stats = [] }

abbrev bob : Client
bob = record {
  public_key = 2 ∷ [];
  secret_key = 2 ∷ [];
  db = empty_db;
  store = bob_store;
  contacts = [];
  last_session_reset_notice_at = [];
  replies = [];
}

abbrev moment : Moment
moment = record {
  now = 20000;
  next_id = 1;
  random_uuid = codes "r";
  session_pair = key 8;
  ratchet_pair = key 10;
  nonce = replicate 24 7;
  can_send_immediately = true;
  authenticated = true;
}

abbrev row : OutgoingDirectMessage
row = record {
  id = codes "m";
  recipient_pub_key = 2 ∷ [];
  sender_pub_key = 1 ∷ [];
  payload = text_of first_sent.0;
  sync_data = none;
  created_at = 1;
  last_attempt_at = none;
  attempts = 0;
}

alice-IsKeyText : IsKeyText (1 ∷ [])
unfolding trim
alice-IsKeyText = (refl, refl)

bob-IsKeyText : IsKeyText (2 ∷ [])
unfolding trim
bob-IsKeyText = (refl, refl)

others : same (1 ∷ []) (2 ∷ []) ≡ false
unfolding same
others = refl

not_stored : find_by_msg_id (codes "m") [] ≡ none
unfolding find_by_msg_id
not_stored = refl

handle_message-encrypt_in_session_example :
    (handle_message toy preview moment (on_wire (direct_envelope row)) bob).db.messages
    ≡ [] ++ received_message 1 (codes "m") (1 ∷ []) (1 ∷ []) (codes "hello") 20000 delivered ∷ []
handle_message-encrypt_in_session_example =
    handle_message-encrypt_in_session toy toy-IsPlatform ToyPair toy-IsKeyExchange (key 1) (key 2)
      (some (key 5)) draws preview moment (codes "hello") row no_sessions first_sent.1 bob
      (refl, omega arith) (refl, omega arith) (refl, omega arith) (refl, omega arith)
      (refl, omega arith) holds (unknown _) (unknown _) is_sent refl refl refl refl refl refl
      alice-IsKeyText bob-IsKeyText others not_stored

empty-IsSynced : IsSynced preview empty_db
unfolding lookup stats_of
empty-IsSynced t h = refl

is_direct : IsDirect (on_wire (direct_envelope row))
unfolding same
is_direct = refl

handle_all-IsSound_example :
    HasUniqueIds
      (handle_all toy preview ((moment, on_wire (direct_envelope row)) ∷ []) bob).db.messages
    × IsSynced preview
        (handle_all toy preview ((moment, on_wire (direct_envelope row)) ∷ []) bob).db
handle_all-IsSound_example =
    handle_all-IsSound toy preview ((moment, on_wire (direct_envelope row)) ∷ []) bob
      ((omega arith, is_direct), tt) tt empty-IsSynced

-- A page with one record that cannot be used, and so is passed over.
abbrev entry : DirectHistoryRecord
entry = record {
  msg_id = codes "m";
  envelope_type = codes "message";
  sender_pub_key = 1 ∷ [];
  recipient_pub_key = some (2 ∷ []);
  ciphertext_payload = unusable;
  server_received_at = none;
  delivery_state = codes "sent";
}

abbrev page : DirectHistoryResponse
page = record { messages = (moment, entry) ∷ []; next_cursor = 7; limit = 1 }

abbrev fetch : ℕ → Option DirectHistoryResponse
fetch c = some page

abbrev synchronizer : Client → Synchronizer
synchronizer client = record { client = client; cursors = []; syncing = [] }

applied : apply_records toy preview page.messages bob ≡ (done true, bob)
unfolding apply_records apply_direct_history_record normalize_history_envelope
applied = refl

sync_pages-reaches_example :
    7 ≤ cursor_of (1 ∷ []) (sync_pages toy preview 5 (1 ∷ []) fetch 0 (synchronizer bob))
sync_pages-reaches_example =
    sync_pages-reaches toy preview (1 ∷ []) fetch 4 0 (synchronizer bob) page bob refl applied
      (omega arith)

pages-HasKeys : AllPagesHaveKeys fetch
pages-HasKeys c response e =
    subst (λ (o : Option DirectHistoryResponse). HasKeys (o or_else page).messages) e
      (omega arith, tt)

sync_direct_history-IsSound_example :
    HasUniqueIds
      (sync_direct_history toy preview true fetch (1 ∷ []) (synchronizer bob)).client.db.messages
    × IsSynced preview
        (sync_direct_history toy preview true fetch (1 ∷ []) (synchronizer bob)).client.db
sync_direct_history-IsSound_example =
    sync_direct_history-IsSound toy preview true fetch (1 ∷ []) (synchronizer bob) pages-HasKeys tt
      empty-IsSynced

-- A message that was deleted, and the edit of it in the history.
abbrev deleted : StoredMessage
deleted = record {
  id = 3;
  msg_id = codes "m";
  peer_public_key = 1 ∷ [];
  sender_public_key = 1 ∷ [];
  text = codes "[Message deleted]";
  timestamp = 1;
  status = delivered;
  reactions = [];
  edited_at = none;
  deleted_at = some 5;
  edited_by = none;
  deleted_by = some (1 ∷ []);
}

abbrev bob_deleted : Client
bob_deleted = record bob { db = record empty_db { messages = deleted ∷ [] } }

abbrev edit : DirectEnvelope
edit = record {
  type = codes "edit";
  recipient_pub_key = some (2 ∷ []);
  sender_pub_key = some (1 ∷ []);
  target_msg_id = some (codes "m");
  payload = some (codes "0");
  msg_id = some (codes "e");
  reaction = none;
}

abbrev edit_entry : DirectHistoryRecord
edit_entry = record entry { envelope_type = codes "edit"; ciphertext_payload = envelope edit }

abbrev edit_page : DirectHistoryResponse
edit_page = record { messages = (moment, edit_entry) ∷ []; next_cursor = 7; limit = 100 }

is_edit : IsEditOf edit (1 ∷ []) edit_entry bob_deleted
unfolding normalize_history_envelope trim same find_by_msg_id
is_edit = record {
  target = codes "m";
  message = deleted;
  normalized = refl;
  is_edit = refl;
  from = refl;
  sender_shown = refl;
  to = refl;
  mine_shown = refl;
  others = refl;
  named = refl;
  has_payload = refl;
  targets = refl;
  target_shown = refl;
  stored = refl;
  keyed = omega arith;
  not_edited = refl;
}

unread : (decrypt_for toy preview moment edit (1 ∷ []) (codes "0") none bob_deleted).0 ≡ null
unfolding decrypt_in_session lookup parse_json
unread = refl

deleted_edit-blocks_example :
    (sync_pages toy preview 5 (1 ∷ []) (λ _. some edit_page) 0 (synchronizer bob_deleted)).cursors
    ≡ []
deleted_edit-blocks_example =
    deleted_edit-blocks toy preview (1 ∷ []) (λ _. some edit_page) 5 0 (synchronizer bob_deleted)
      edit_page moment edit (1 ∷ []) edit_entry [] refl refl is_edit unread

-- A page with a record behind the edit.
abbrev two_page : DirectHistoryResponse
two_page = record edit_page {
  messages = (moment, entry) ∷ ((moment, edit_entry) ∷ ((moment, entry) ∷ []));
}

first_applied :
    apply_records toy preview ((moment, entry) ∷ []) bob_deleted ≡ (done true, bob_deleted)
unfolding apply_records apply_direct_history_record normalize_history_envelope
first_applied = refl

refused : (apply_direct_history_record toy preview moment edit_entry bob_deleted).0 ≢ done true
unfolding apply_direct_history_record normalize_history_envelope apply_envelope apply_by_type
    apply_direct_history_edit trim same find_by_msg_id decrypt_in_session lookup parse_json
refused e = absurd (cc)

sync_pages-stops_example :
    sync_pages toy preview 5 (1 ∷ []) (λ _. some two_page) 0 (synchronizer bob_deleted)
    ≡ record (synchronizer bob_deleted) {
      client = (apply_direct_history_record toy preview moment edit_entry bob_deleted).1;
    }
sync_pages-stops_example =
    sync_pages-stops toy preview (1 ∷ []) (λ _. some two_page) 4 0 (synchronizer bob_deleted)
      two_page ((moment, entry) ∷ []) ((moment, entry) ∷ []) moment edit_entry bob_deleted refl refl
      first_applied refused
