-- ===== src/Incoming/SelfSync.antt =====
-- The handler of `self_sync` in `ws.onmessage` (messk/src/lib/socket.ts): what another device of the
-- same user has done. Times are numbers of milliseconds; another number counts as 0.
use messk.Prelude.{
  ℕ, true, ◌||◌, not, Option, none, some, [], Text, codes, same, nonempty, truthy, ltb, ◌or_else◌,
  if◌then◌else◌,
}
use messk.Prelude.Int.{pos}
use messk.Prelude.Number.{Number}
use messk.Ratchet.Platform.{Platform}
use messk.Handshake.{decrypt_message}
use messk.Payloads.{
  SelfSyncPayload, direct_message, direct_edit, direct_delete, direct_reaction,
  parse_self_sync_payload,
}
use messk.Store.{
  StoredMessage, Status, pending, sent, delivered, read, failed, add_message_and_sync,
  find_by_msg_id, set_reaction,
}
use messk.Incoming.{
  DirectEnvelope, Client, Moment, acknowledge_offline_envelope, upsert_direct_contact, change_row,
}
use messk.Incoming.Message.{received_message}

abbrev pub milliseconds : Number → ℕ
milliseconds (Number.int (pos n)) = n
milliseconds _ = 0

-- `messageStatusRank`, plus one.
unfoldable pub message_status_rank : Status → ℕ
message_status_rank failed = 0
message_status_rank pending = 1
message_status_rank sent = 2
message_status_rank delivered = 3
message_status_rank read = 4

-- `existingMsg?.id`
abbrev pub with_id : Option StoredMessage → Option StoredMessage
with_id none = none
with_id (some m) = if ltb 0 m.id then some m else none

module _ (preview : Text → Text) where
  -- Only to a status of a higher rank.
  unfoldable pub raise_status : Status → StoredMessage → Client → Client
  raise_status status m client =
      if ltb (message_status_rank m.status) (message_status_rank status)
      then change_row preview m.id (λ n. record n { status = status }) client
      else client

module _ (p : Platform) (preview : Text → Text) (moment : Moment) (env : DirectEnvelope) where
  abbrev acknowledge : Client → Client
  acknowledge = acknowledge_offline_envelope moment env

  abbrev pub apply_payload : SelfSyncPayload → Option StoredMessage → Client → Client
  apply_payload (direct_message msg_id peer sender text timestamp status) (some m) client =
      acknowledge (raise_status preview status m client)
  apply_payload (direct_message msg_id peer sender text timestamp status) none client =
      acknowledge (
        upsert_direct_contact peer (milliseconds timestamp) true (record client {
          db =
              add_message_and_sync preview
                (received_message moment.next_id msg_id peer sender text (milliseconds timestamp)
                  status)
                client.db;
        }))
  apply_payload (direct_edit msg_id peer text edited_at) (some m) client = acknowledge (
      change_row preview m.id
        (λ n. record n {
          text = text;
          edited_at = some (milliseconds edited_at);
          deleted_at = none;
        })
        client)
  apply_payload (direct_delete msg_id peer deleted_at) (some m) client = acknowledge (
      change_row preview m.id
        (λ n. record n {
          text = codes "[Message deleted]";
          deleted_at = some (milliseconds deleted_at);
          edited_at = none;
          reactions = [];
        })
        client)
  apply_payload (direct_reaction msg_id peer actor reaction) (some m) client = acknowledge (
      change_row preview m.id
        (λ n. record n { reactions = set_reaction preview actor reaction m.reactions }) client)
  apply_payload _ none client = client

  abbrev pub payload_id : SelfSyncPayload → Text
  payload_id (direct_message msg_id _ _ _ _ _) = msg_id
  payload_id (direct_edit msg_id _ _ _) = msg_id
  payload_id (direct_delete msg_id _ _) = msg_id
  payload_id (direct_reaction msg_id _ _ _) = msg_id

  abbrev pub apply_parsed : Option SelfSyncPayload → Client → Client
  apply_parsed none client = client
  apply_parsed (some payload) client =
      apply_payload payload (with_id (find_by_msg_id (payload_id payload) client.db.messages))
        client

  abbrev pub read_copy : Option Text → Client → Client
  read_copy none client = client
  read_copy (some plaintext) client =
      if not (nonempty plaintext)
      then client
      else apply_parsed (parse_self_sync_payload plaintext) client

  unfoldable pub handle_self_sync : Client → Client
  handle_self_sync client =
      if not (truthy env.payload) || not (same (env.sender_pub_key or_else []) client.public_key)
      then client
      else read_copy
          (decrypt_message p (env.payload or_else []) client.secret_key client.public_key) client
