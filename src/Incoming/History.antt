-- ===== src/Incoming/History.antt =====
-- `syncDirectHistory` and the application of history records (messk/src/lib/socket.ts). The cached
-- cursors and their copies in localStorage are one map; the answers of the server and what each record
-- needs of the surroundings are arguments.
pub mod Cursor
pub mod Sync
pub mod Records
pub mod Sound
pub mod Blocked
use messk.Prelude.{
  ℕ, zero, suc, ◌==◌, Bool, true, false, ◌&&◌, ◌||◌, not, Option, none, some, List, [], ◌∷◌, Text,
  codes, same, nonempty, truthy, trim, ltb, leb, length, includes, filter, ◌or_else◌, if◌then◌else◌,
  is_some,
}
use messk.Prelude.Dict.{Dict, lookup, insert}
use messk.Json.{Json, get, is_truthy}
use messk.Json.Parse.{parse_json}
use messk.Payloads.{as_string}
use messk.Ratchet.Platform.{Platform}
use messk.Ratchet.Step.{Outcome, done, null, throws}
use messk.Sessions.{SessionStore, parse_envelope_x3dh}
use messk.Store.{
  StoredMessage, Status, sent, delivered, read, is_deleted, in_thread, add_message_and_sync,
  mark_message_edited, mark_message_deleted, apply_message_reaction, find_by_msg_id,
}
use messk.Incoming.{
  DirectEnvelope, Client, Moment, delivery_receipt, either_text, target_of, reply,
  upsert_direct_contact,
}
use messk.Incoming.Direct.{decrypt_for, handle_direct_pin_envelope}
use messk.Incoming.Message.{received_message}
use messk.Incoming.SelfSync.{with_id, raise_status}

-- `ciphertextPayload`: a text, an object, or something else.
pub data HistoryPayload : Type 0 where
  written : Text → HistoryPayload
  envelope : DirectEnvelope → HistoryPayload
  unusable : HistoryPayload

-- `server_received_at` is what `Date.parse` gives, `none` for NaN.
pub record DirectHistoryRecord : Type 0 where
  pub msg_id : Text
  pub envelope_type : Text
  pub sender_pub_key : Text
  pub recipient_pub_key : Option Text
  pub ciphertext_payload : HistoryPayload
  pub server_received_at : Option ℕ
  pub delivery_state : Text

-- A page; each record with its moment.
pub record DirectHistoryResponse : Type 0 where
  pub messages : List (Moment × DirectHistoryRecord)
  pub next_cursor : ℕ
  pub limit : ℕ

-- An envelope as JSON. A member that is not a string counts as missing.
abbrev pub envelope_of : Json → DirectEnvelope
envelope_of x = record {
  type = as_string (get x (codes "type")) or_else [];
  recipient_pub_key = as_string (get x (codes "recipient_pub_key"));
  sender_pub_key = as_string (get x (codes "sender_pub_key"));
  target_msg_id = as_string (get x (codes "target_msg_id"));
  payload = as_string (get x (codes "data"));
  msg_id = as_string (get x (codes "msg_id"));
  reaction = as_string (get x (codes "reaction"));
}

abbrev pub usable : Option Json → Option DirectEnvelope
usable none = none
usable (some x) = if is_truthy (some x) then some (envelope_of x) else none

abbrev pub normalized : DirectHistoryRecord → HistoryPayload → Option DirectEnvelope
normalized entry (written t) = usable (parse_json t)
normalized entry unusable = none
normalized entry (envelope env) = some (record env {
  type = if nonempty env.type then env.type else entry.envelope_type;
  msg_id = either_text env.msg_id (some entry.msg_id);
  sender_pub_key = either_text env.sender_pub_key (some entry.sender_pub_key);
  recipient_pub_key = either_text env.recipient_pub_key entry.recipient_pub_key;
})

-- `none` is null.
unfoldable pub normalize_history_envelope : DirectHistoryRecord → Option DirectEnvelope
normalize_history_envelope entry = normalized entry entry.ciphertext_payload

unfoldable pub history_status_for : DirectHistoryRecord → Bool → Status
history_status_for entry is_from_me =
    if not is_from_me
    then delivered
    else if same entry.delivery_state (codes "read")
    then read
    else if same entry.delivery_state (codes "delivered")
    then delivered
    else sent

-- `existing.editedAt`
abbrev pub has_edit : StoredMessage → Bool
has_edit m = is_deleted m.edited_at

module _ (p : Platform) (preview : Text → Text) (moment : Moment) (env : DirectEnvelope) where
  abbrev pub finish_history_edit :
      Text → Outcome Text × SessionStore → Client → Outcome Bool × Client
  finish_history_edit target (done plaintext, store) client = (
    done true,
    record client {
      store = store;
      db = mark_message_edited preview moment.now target plaintext env.sender_pub_key client.db;
    },
  )
  finish_history_edit target (null, store) client = (done false, record client { store = store })
  finish_history_edit target (throws, store) client = (throws, record client { store = store })

  abbrev pub edit_existing : Text → Text → Option StoredMessage → Client → Outcome Bool × Client
  edit_existing peer target none client = (done true, client)
  edit_existing peer target (some m) client =
      if has_edit m
      then (done true, client)
      else finish_history_edit target
          (decrypt_for p preview moment env peer (env.payload or_else []) none client) client

  unfoldable pub apply_direct_history_edit : Text → Bool → Client → Outcome Bool × Client
  apply_direct_history_edit peer is_from_me client =
      let target = target_of env or_else [] in
      if not (nonempty target) || not (truthy env.payload)
      then (done true, client)
      else if is_from_me
      then (done true, client)
      else edit_existing peer target (with_id (find_by_msg_id target client.db.messages)) client

  unfoldable pub apply_direct_history_delete : Text → Client → Client
  apply_direct_history_delete actor client =
      let target = target_of env or_else [] in
      if not (nonempty target) then client else record client {
        db = mark_message_deleted preview moment.now target (some actor) client.db;
      }

  unfoldable pub apply_direct_history_reaction : Text → Client → Client
  apply_direct_history_reaction actor client =
      let target = target_of env or_else [] in
      if not (nonempty target)
      then client
      else record client { db = apply_message_reaction preview target actor env.reaction client.db }

  -- `sendEnvelope` of the receipt; its exceptions are caught.
  abbrev recovered_receipt : Text → Text → Client → Client
  recovered_receipt sender msg_id client =
      if moment.can_send_immediately then reply (delivery_receipt sender msg_id) client else client

  -- `Number.isFinite(serverTimestamp) ? serverTimestamp : Date.now()`
  abbrev pub received_at : DirectHistoryRecord → ℕ
  received_at entry = entry.server_received_at or_else moment.now

  abbrev pub finish_history_message :
      DirectHistoryRecord
      → Text
      → Text
      → Text
      → Outcome Text × SessionStore
      → Client
      → Outcome Bool × Client
  finish_history_message entry peer sender msg_id (done plaintext, store) client = (
    done true,
    recovered_receipt sender msg_id (
        upsert_direct_contact peer (received_at entry) true (record client {
          store = store;
          db =
              add_message_and_sync preview
                (received_message moment.next_id msg_id peer sender plaintext (received_at entry)
                  (history_status_for entry false))
                client.db;
        })),
  )
  finish_history_message entry peer sender msg_id (null, store) client =
      (done false, record client { store = store })
  finish_history_message entry peer sender msg_id (throws, store) client =
      (throws, record client { store = store })

  abbrev pub apply_message :
      DirectHistoryRecord
      → Text
      → Text
      → Text
      → Bool
      → Option StoredMessage
      → Client
      → Outcome Bool × Client
  apply_message entry peer sender msg_id is_from_me (some m) client =
      (done true, raise_status preview (history_status_for entry is_from_me) m client)
  apply_message entry peer sender msg_id is_from_me none client =
      let payload = env.payload or_else [] in
      if is_from_me || not (truthy env.payload)
      then (done true, client)
      else finish_history_message entry peer sender msg_id
          (decrypt_for p preview moment env peer payload (parse_envelope_x3dh payload) client)
          client

  -- By type, past the guards.
  unfoldable pub apply_by_type :
      DirectHistoryRecord → Text → Text → Text → Bool → Client → Outcome Bool × Client
  apply_by_type entry peer sender msg_id is_from_me client =
      if same env.type (codes "edit")
      then apply_direct_history_edit peer is_from_me client
      else if same env.type (codes "delete")
      then (done true, apply_direct_history_delete sender client)
      else if same env.type (codes "reaction")
      then (done true, apply_direct_history_reaction sender client)
      else if same env.type (codes "pin") || same env.type (codes "unpin")
      then (done true, handle_direct_pin_envelope p preview moment env client)
      else if not (same env.type (codes "message")) && not (same env.type (codes "offline_message"))
      then (done true, client)
      else apply_message entry peer sender msg_id is_from_me
          (with_id (find_by_msg_id msg_id client.db.messages)) client

  unfoldable pub apply_envelope : DirectHistoryRecord → Client → Outcome Bool × Client
  apply_envelope entry client =
      let sender = trim (env.sender_pub_key or_else []) in
      let recipient = trim (env.recipient_pub_key or_else []) in
      let msg_id = either_text env.msg_id (some entry.msg_id) or_else [] in
      let is_from_me = same sender client.public_key in
      if not (nonempty sender) || not (nonempty recipient) || not (nonempty msg_id)
      then (done true, client)
      else if not (same recipient client.public_key) && not is_from_me
      then (done true, client)
      else if same sender recipient
      then (done true, client)
      else apply_by_type entry (if is_from_me then recipient else sender) sender msg_id is_from_me
          client
