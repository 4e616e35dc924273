-- ===== src/Incoming/Message.antt =====
-- The handler of `message` and `offline_message` in `ws.onmessage` (messk/src/lib/socket.ts).
use messk.Prelude.{
  ℕ, Bool, true, false, ◌&&◌, ◌||◌, not, Option, none, some, [], Text, same, nonempty, truthy, trim,
  ltb, ◌or_else◌, if◌then◌else◌,
}
use messk.Prelude.Int.{pos}
use messk.Prelude.Number.{Number}
use messk.Ratchet.Platform.{Platform}
use messk.Ratchet.Step.{Outcome, done, null, throws}
use messk.Sessions.{SessionStore, parse_envelope_x3dh}
use messk.Payloads.{SelfSyncPayload}
use messk.Store.{StoredMessage, Status, sent, delivered, add_message_and_sync, find_by_msg_id}
use messk.Incoming.{
  DirectEnvelope, Client, Moment, delivery_receipt, reply, acknowledge_offline_envelope,
  upsert_direct_contact, drop_session, send_self_sync_direct_message, has_arrived, change_row,
}
use messk.Incoming.Direct.{decrypt_for}

-- A message that has just been read.
abbrev pub received_message : ℕ → Text → Text → Text → Text → ℕ → Status → StoredMessage
received_message id msg_id peer sender text timestamp status = record {
  id = id;
  msg_id = msg_id;
  peer_public_key = peer;
  sender_public_key = sender;
  text = text;
  timestamp = timestamp;
  status = status;
  reactions = [];
  edited_at = none;
  deleted_at = none;
  edited_by = none;
  deleted_by = none;
}

-- `status === 'sent'`
abbrev pub is_sent : Status → Bool
is_sent sent = true
is_sent _ = false

module _ (p : Platform) (preview : Text → Text) (moment : Moment) (env : DirectEnvelope) where
  abbrev acknowledge : Client → Client
  acknowledge = acknowledge_offline_envelope moment env

  -- `env.msg_id || crypto.randomUUID()`
  abbrev pub message_id : Text
  message_id = if truthy env.msg_id then env.msg_id or_else [] else moment.random_uuid

  abbrev pub deliver : StoredMessage → Client → Client
  deliver m = change_row preview m.id (λ n. record n { status = delivered })

  -- A stored message becomes `delivered`, unless it has arrived already.
  abbrev pub deliver_existing : Option StoredMessage → Client → Client
  deliver_existing none client = client
  deliver_existing (some m) client =
      if ltb 0 m.id && not (has_arrived m.status) then deliver m client else client

  -- The own message, sent back by the server: only from `sent`.
  abbrev pub mirror : Option StoredMessage → Client → Client
  mirror none client = client
  mirror (some m) client = if ltb 0 m.id && is_sent m.status then deliver m client else client

  abbrev pub receipt : Text → Client → Client
  receipt sender client =
      if moment.authenticated && not (same sender client.public_key)
      then reply (delivery_receipt sender message_id) client
      else client

  abbrev pub copy : Text → Text → Client → Client
  copy sender plaintext client =
      if same sender client.public_key
      then client
      else send_self_sync_direct_message p moment
          (SelfSyncPayload.direct_message message_id sender sender plaintext
            (Number.int (pos moment.now)) delivered)
          client

  unfoldable pub store_message : Text → Text → Client → Client
  store_message sender plaintext client =
      upsert_direct_contact sender moment.now true (record client {
        db =
            add_message_and_sync preview
              (received_message moment.next_id message_id sender sender plaintext moment.now
                delivered)
              client.db;
      })

  abbrev pub finish_message : Text → Outcome Text × SessionStore → Client → Client
  finish_message sender (done plaintext, store) client = acknowledge (
      receipt sender
        (copy sender plaintext (store_message sender plaintext (record client { store = store }))))
  finish_message sender (null, store) client =
      acknowledge (drop_session moment sender (record client { store = store }))
  finish_message sender (throws, store) client = record client { store = store }

  -- A message from somebody else, with the row that is stored for it, if any.
  abbrev pub receive : Text → Option StoredMessage → Client → Client
  receive sender (some m) client = acknowledge (receipt sender (deliver_existing (some m) client))
  receive sender none client =
      let payload = env.payload or_else [] in
      finish_message sender
        (decrypt_for p preview moment env sender payload (parse_envelope_x3dh payload) client)
        client

  -- Past the guards the sender or the recipient is this client, and not both.
  unfoldable pub handle_message : Client → Client
  handle_message client =
      let me = trim client.public_key in
      let sender = trim (env.sender_pub_key or_else []) in
      let recipient = trim (env.recipient_pub_key or_else []) in
      let existing = find_by_msg_id message_id client.db.messages in
      if not (nonempty sender) || not (nonempty recipient)
      then client
      else if not (same recipient me) && not (same sender me)
      then client
      else if same sender recipient
      then acknowledge (deliver_existing existing client)
      else if same sender me && not (same recipient me)
      then acknowledge (mirror existing client)
      else receive sender existing client
