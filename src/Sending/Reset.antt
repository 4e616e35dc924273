-- ===== src/Sending/Reset.antt =====
-- `handlePeerSessionReset` of messk/src/lib/socket.ts.
use messk.Prelude.{
  ℕ, suc, Bool, true, false, ◌&&◌, ◌||◌, not, none, List, [], ◌∷◌, Text, codes, same, truthy,
  filter, ltb, if◌then◌else◌,
}
use messk.Prelude.Dict.{Dict, insert}
use messk.Json.Plain.{text, count, object, members, write}
use messk.Ratchet.Platform.{Platform}
use messk.Ratchet.Step.{Outcome, done, null, throws}
use messk.Sessions.{SessionStore, encrypt_in_session, delete_session}
use messk.Store.{StoredMessage, pending, update_message_and_sync}
use messk.Outbox.{Channel, OutgoingDirectMessage, flush_outgoing_direct_messages}
use messk.Outbox.Acknowledge.{is_unsent}
use messk.Sending.{my_key, my_secret, with_store, Sender, Call}

-- `outgoingDirectMessages.where(…).filter(…).delete()`: of this sender to this recipient.
abbrev pub is_for : Text → Text → OutgoingDirectMessage → Bool
is_for peer my_public_key row =
    same row.recipient_pub_key peer && same row.sender_pub_key my_public_key

unfoldable pub delete_for : Text → Text → Dict OutgoingDirectMessage → Dict OutgoingDirectMessage
delete_for peer my_public_key [] = []
delete_for peer my_public_key ((id, row) ∷ rows) =
    let rest = delete_for peer my_public_key rows in
    if is_for peer my_public_key row then rest else (id, row) ∷ rest

-- A message of one's own to the peer that is pending or failed.
abbrev pub is_candidate : Text → Text → StoredMessage → Bool
is_candidate peer my_public_key m =
    same m.peer_public_key peer
    && same m.sender_public_key my_public_key
    && is_unsent (λ t. t) m.status

abbrev pub repair_text : ℕ → Text
repair_text now = write (
    object (
      members
        ((codes "kind", text (codes "session_repair")) ∷ ((codes "createdAt", count now) ∷ []))))

module _ (p : Platform) (preview : Text → Text) (channel : Channel) (call : Call)
    (peer : Text) where
  abbrev pub requeued_message : StoredMessage → Text → OutgoingDirectMessage
  requeued_message m payload = record {
    id = m.msg_id;
    recipient_pub_key = peer;
    sender_pub_key = my_key channel;
    payload = payload;
    sync_data = none;
    created_at = m.timestamp;
    last_attempt_at = none;
    attempts = 0;
  }

  abbrev pub requeue : StoredMessage → Outcome Text × SessionStore → Sender → Bool × Sender
  requeue m (done payload, store) sender = (
    true,
    record sender {
      store = store;
      box = record sender.box {
        outgoing_direct_messages =
            insert m.msg_id (requeued_message m payload) sender.box.outgoing_direct_messages;
        db =
            if ltb 0 m.id
            then update_message_and_sync preview m.id (λ m. record m { status = pending })
                sender.box.db
            else sender.box.db;
      };
    },
  )
  requeue m (null, store) sender = (false, with_store store sender)
  requeue m (throws, store) sender = (false, with_store store sender)

  -- The loop over the messages, the first of which is the encryption number `i` of the call.
  unfoldable pub resend_each : ℕ → List StoredMessage → Sender → Bool × Sender
  resend_each i [] sender = (true, sender)
  resend_each i (m ∷ ms) sender =
      let (goes_on, after) =
        requeue m
          (encrypt_in_session p (call.draws i) peer m.text (my_secret channel) (call.pre_keys i)
            sender.store)
          sender in
      let rest = resend_each (suc i) ms after in if goes_on then rest else (false, after)

  abbrev pub flush_if_ready :
      (Dict OutgoingDirectMessage → List OutgoingDirectMessage) → Bool × Sender → Bool × Sender
  flush_if_ready order (true, sender) =
      if channel.can_send_immediately
      then (
        true,
        record sender { box = flush_outgoing_direct_messages preview order channel sender.box },
      )
      else (true, sender)
  flush_if_ready order (false, sender) = (false, sender)

  abbrev pub candidates : Sender → List StoredMessage
  candidates sender = filter (is_candidate peer (my_key channel)) sender.box.db.messages

  -- `sendSessionRepairEnvelope`, and what follows it.
  abbrev pub repair_then_resend :
      (Dict OutgoingDirectMessage → List OutgoingDirectMessage)
      → Outcome Text × SessionStore
      → Sender
      → Bool × Sender
  repair_then_resend order (done payload, store) sender =
      if not call.repair_sends
      then (false, with_store store sender)
      else flush_if_ready order (
          resend_each 1 (candidates sender)
            (record sender { store = store; repairs = (peer, payload) ∷ sender.repairs }))
  repair_then_resend order (null, store) sender = (false, with_store store sender)
  repair_then_resend order (throws, store) sender = (false, with_store store sender)

  -- The session and the queue of the peer are gone before the repair is encrypted.
  abbrev pub cleared : Sender → Sender
  cleared sender = record sender {
    store = delete_session peer sender.store;
    box = record sender.box {
      outgoing_direct_messages =
          delete_for peer (my_key channel) sender.box.outgoing_direct_messages;
    };
  }

  -- False is an exception.
  unfoldable pub handle_peer_session_reset :
      (Dict OutgoingDirectMessage → List OutgoingDirectMessage) → Sender → Bool × Sender
  handle_peer_session_reset order sender =
      if not (truthy channel.my_public_key) || not (truthy channel.my_secret_key)
      then (true, sender)
      else repair_then_resend order
          (encrypt_in_session p (call.draws 0) peer (repair_text call.now) (my_secret channel)
            (call.pre_keys 0) (cleared sender).store)
          (cleared sender)
