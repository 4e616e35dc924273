-- ===== src/Incoming/Direct.antt =====
-- The handlers of direct envelopes in `ws.onmessage` and `handleDirectPinEnvelope`
-- (messk/src/lib/socket.ts), except `session_reset`.
use messk.Prelude.{
  ◌&&◌, ◌||◌, not, Option, none, some, [], Text, codes, same, nonempty, truthy, trim, ◌or_else◌,
  if◌then◌else◌,
}
use messk.Prelude.Dict.{lookup, insert}
use messk.Ratchet.Platform.{Platform}
use messk.Ratchet.Step.{Outcome, done, null, throws}
use messk.Sessions.{SessionStore, X3dhParams, parse_envelope_x3dh}
use messk.Sessions.Decrypt.{decrypt_in_session}
use messk.Store.{
  Status, update_message_by_msg_id, mark_message_edited, mark_message_deleted,
  apply_message_reaction,
}
use messk.Incoming.{
  DirectEnvelope, Contact, Client, Moment, target_of, acknowledge_offline_envelope, forget_session,
  send_session_reset_notice, drop_session,
}

module _ (p : Platform) (preview : Text → Text) (moment : Moment) (env : DirectEnvelope) where
  -- `decryptInSession` with the client's key; the store after it.
  abbrev pub decrypt_for : Text → Text → Option X3dhParams → Client → Outcome Text × SessionStore
  decrypt_for peer payload x3dh client =
      decrypt_in_session p moment.session_pair moment.ratchet_pair client.secret_key peer payload
        x3dh client.store

  abbrev pub with_store : SessionStore → Client → Client
  with_store store client = record client { store = store }

  abbrev acknowledge : Client → Client
  acknowledge = acknowledge_offline_envelope moment env

  abbrev pub finish_edit : Text → Text → Outcome Text × SessionStore → Client → Client
  finish_edit sender target (done plaintext, store) client = acknowledge (record client {
    store = store;
    db = mark_message_edited preview moment.now target plaintext (some sender) client.db;
  })
  finish_edit sender target (null, store) client =
      acknowledge (drop_session moment sender (with_store store client))
  finish_edit sender target (throws, store) client = with_store store client

  unfoldable pub handle_edit : Client → Client
  handle_edit client =
      let sender = env.sender_pub_key or_else [] in
      if not (truthy env.sender_pub_key)
        || not (truthy env.payload)
        || not (truthy env.msg_id)
        || not (truthy (target_of env))
      then client
      else finish_edit sender (target_of env or_else [])
          (decrypt_for sender (env.payload or_else []) none client) client

  unfoldable pub handle_delete : Client → Client
  handle_delete client =
      if not (truthy env.msg_id) || not (truthy (target_of env))
      then client
      else acknowledge (record client {
        db =
            mark_message_deleted preview moment.now (target_of env or_else []) env.sender_pub_key
              client.db;
      })

  unfoldable pub handle_reaction : Client → Client
  handle_reaction client =
      if not (truthy env.msg_id) || not (truthy (target_of env)) || not (truthy env.sender_pub_key)
      then client
      else acknowledge (record client {
        db =
            apply_message_reaction preview (target_of env or_else [])
              (env.sender_pub_key or_else []) env.reaction client.db;
      })

  -- `targetMsgId || null`, for a pin.
  abbrev pinned_message : Option Text
  pinned_message =
      if same env.type (codes "pin") && truthy (target_of env) then target_of env else none

  abbrev pub pin_contact : Text → Option Contact → Client → Client
  pin_contact peer none client = client
  pin_contact peer (some contact) client = record client {
    contacts = insert peer (record contact { pinned_msg_id = pinned_message }) client.contacts;
  }

  unfoldable pub handle_direct_pin_envelope : Client → Client
  handle_direct_pin_envelope client =
      let sender = trim (env.sender_pub_key or_else []) in
      let recipient = trim (env.recipient_pub_key or_else []) in
      let peer = if same sender client.public_key then recipient else sender in
      if not (nonempty sender) || not (nonempty recipient)
      then client
      else if not (nonempty peer) || same peer client.public_key
      then client
      else pin_contact peer (lookup peer client.contacts) client

  abbrev pub finish_repair : Text → Outcome Text × SessionStore → Client → Client
  finish_repair sender (done plaintext, store) client = acknowledge (with_store store client)
  finish_repair sender (null, store) client =
      acknowledge
        (send_session_reset_notice moment sender (forget_session sender (with_store store client)))
  finish_repair sender (throws, store) client = with_store store client

  -- Without the flush of the outbox that follows a repair.
  unfoldable pub handle_session_repair : Client → Client
  handle_session_repair client =
      let sender = env.sender_pub_key or_else [] in
      let payload = env.payload or_else [] in
      let forgotten = forget_session sender client in
      if not (truthy env.sender_pub_key)
        || not (same (env.recipient_pub_key or_else []) client.public_key)
        || not (truthy env.payload)
      then client
      else finish_repair sender (decrypt_for sender payload (parse_envelope_x3dh payload) forgotten)
          forgotten

  -- `updateMessageByMsgID`, on a receipt for this client.
  unfoldable pub handle_receipt : Status → Client → Client
  handle_receipt status client = if not (truthy env.msg_id) then client else record client {
    db =
        update_message_by_msg_id preview (env.msg_id or_else []) (λ m. record m { status = status })
          client.db;
  }
