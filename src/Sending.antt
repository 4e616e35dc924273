-- ===== src/Sending.antt =====
-- What the client itself does with direct messages: `send` of messk/src/lib/socket.ts here, and
-- `handlePeerSessionReset` in Reset, on top of the sessions, the outbox and the message store. The flush that
-- `scheduleDirectBatchFlush` plans for later is a call of its own, `flush`. Toasts and the request
-- for the contact's profile are not modelled.
pub mod Reset
pub mod Queued
pub mod Chosen
pub mod Requeued
pub mod Interrupted
pub mod Actions
pub mod Covered
pub mod Tracked
pub mod Waiting
pub mod Kept
mod Tests
use messk.Prelude.{
  ℕ, zero, suc, Bool, true, false, ◌&&◌, ◌||◌, not, Option, none, some, List, [], ◌∷◌, Text, codes,
  same, nonempty, truthy, filter, ltb, is_some, ◌or_else◌, if◌then◌else◌,
}
use messk.Prelude.Dict.{Dict, lookup, insert}
use messk.Json.Plain.{text, count, object, members, write}
use messk.Ratchet.Platform.{Platform, Bytes}
use messk.Ratchet.Step.{Outcome, done, null, throws}
use messk.Handshake.{encrypt_message}
use messk.Sessions.{SessionStore, Draws, encrypt_in_session, delete_session}
use messk.Payloads.{SelfSyncPayload}
use messk.Payloads.Written.{stringify_self_sync}
use messk.Store.{
  Database, StoredMessage, pending, find_by_msg_id, add_message_and_sync, update_message_and_sync,
}
use messk.Outbox.{Outbox, Channel, OutgoingDirectMessage, flush_outgoing_direct_messages}
use messk.Outbox.Acknowledge.{is_unsent}
use messk.Prelude.Int.{pos}
use messk.Prelude.Number.{Number}
use messk.Incoming.{Contact, upserted}

-- The parts of the state that a message passes through. `repairs` lists the `session_repair`
-- envelopes that have been sent (recipient, data), the last first.
pub record Sender : Type 0 where
  pub box : Outbox
  pub store : SessionStore
  pub contacts : Dict Contact
  pub repairs : List (Text × Text)

-- The surroundings of one call. `draws` and `pre_keys` are what is drawn at random, and what
-- `getPreKeyBundle` answers, at each encryption of the call.
pub record Call : Type 0 where
  pub now : ℕ
  pub next_id : ℕ
  pub random_uuid : Text
  pub is_open : Bool
  pub authenticated : Bool
  -- After waiting for the authentication.
  pub authenticated_later : Bool
  pub draws : ℕ → Draws
  pub pre_keys : ℕ → Option Text
  pub nonce : Bytes
  -- Whether `sendEnvelope` succeeds for the repair.
  pub repair_sends : Bool

abbrev pub my_key : Channel → Text
my_key channel = channel.my_public_key or_else []

abbrev pub my_secret : Channel → Text
my_secret channel = channel.my_secret_key or_else []

abbrev pub with_store : SessionStore → Sender → Sender
with_store store sender = record sender { store = store }

module _ (p : Platform) (preview : Text → Text) (call : Call) where
  -- The row that is queued, and the message that is stored.
  abbrev pub queued_message : Text → Text → Text → Text → OutgoingDirectMessage
  queued_message recipient my_public_key payload sync_data = record {
    id = call.random_uuid;
    recipient_pub_key = recipient;
    sender_pub_key = my_public_key;
    payload = payload;
    sync_data = some sync_data;
    created_at = call.now;
    last_attempt_at = none;
    attempts = 0;
  }

  abbrev pub sent_message : Text → Text → Text → StoredMessage
  sent_message recipient my_public_key plaintext = record {
    id = call.next_id;
    msg_id = call.random_uuid;
    peer_public_key = recipient;
    sender_public_key = my_public_key;
    text = plaintext;
    timestamp = call.now;
    status = pending;
    reactions = [];
    edited_at = none;
    deleted_at = none;
    edited_by = none;
    deleted_by = none;
  }

  abbrev pub own_copy : Text → Text → Text → SelfSyncPayload
  own_copy recipient my_public_key plaintext =
      SelfSyncPayload.direct_message call.random_uuid recipient my_public_key plaintext
        (Number.int (pos call.now)) pending

  -- `addMessageAndSync` throws where the id is stored already.
  abbrev pub store_and_queue : Text → Text → Text → Text → Option Text → Sender → Bool × Sender
  store_and_queue recipient plaintext my_public_key payload none sender = (false, sender)
  store_and_queue recipient plaintext my_public_key payload (some sync_data) sender =
      if is_some (find_by_msg_id call.random_uuid sender.box.db.messages)
      then (false, sender)
      else (
        true,
        record sender {
          box = record sender.box {
            db =
                add_message_and_sync preview (sent_message recipient my_public_key plaintext)
                  sender.box.db;
            outgoing_direct_messages =
                insert call.random_uuid (queued_message recipient my_public_key payload sync_data)
                  sender.box.outgoing_direct_messages;
          };
          contacts =
              insert recipient (upserted recipient call.now true (lookup recipient sender.contacts))
                sender.contacts;
        },
      )

  abbrev pub send_encrypted :
      Text → Text → Text → Text → Outcome Text × SessionStore → Sender → Bool × Sender
  send_encrypted recipient plaintext my_secret_key my_public_key (done payload, store) sender =
      store_and_queue recipient plaintext my_public_key payload
        (encrypt_message p call.nonce
          (stringify_self_sync (own_copy recipient my_public_key plaintext)) my_secret_key
          my_public_key)
        (with_store store sender)
  send_encrypted recipient plaintext my_secret_key my_public_key (null, store) sender =
      (false, with_store store sender)
  send_encrypted recipient plaintext my_secret_key my_public_key (throws, store) sender =
      (false, with_store store sender)

  -- False is an exception.
  unfoldable pub send : Text → Text → Text → Text → Sender → Bool × Sender
  send recipient plaintext my_secret_key my_public_key sender =
      let authenticated = call.authenticated || call.is_open && call.authenticated_later in
      if call.is_open && not authenticated
      then (false, sender)
      else if not (call.is_open && authenticated)
          && not (is_some (lookup recipient sender.store.sessions))
      then (false, sender)
      else send_encrypted recipient plaintext my_secret_key my_public_key
          (encrypt_in_session p (call.draws 0) recipient plaintext my_secret_key (call.pre_keys 0)
            sender.store)
          sender
