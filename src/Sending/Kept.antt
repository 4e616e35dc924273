-- ===== src/Sending/Kept.antt =====
-- What `send` keeps of the outbox.
use messk.Prelude.{Bool, ◌&&◌, ◌||◌, not, Option, none, some, Text, is_some, if-property}
use messk.Prelude.Dict.{insert, lookup}
use messk.Ratchet.Platform.{Platform}
use messk.Ratchet.Step.{Outcome, done, null, throws}
use messk.Handshake.{encrypt_message}
use messk.Payloads.Written.{stringify_self_sync}
use messk.Sessions.{SessionStore, encrypt_in_session}
use messk.Store.{add_message_and_sync, find_by_msg_id}
use messk.Outbox.{Outbox}
use messk.Sending.{
  Sender, Call, sent_message, queued_message, own_copy, store_and_queue, send_encrypted, with_store,
  send,
}

module _ (p : Platform) (preview : Text → Text) (call : Call) (recipient plaintext me : Text) where
  -- The outbox with the message stored and queued.
  abbrev pub with_message : Text → Text → Outbox → Outbox
  with_message payload sync_data box = record box {
    db = add_message_and_sync preview (sent_message p preview call recipient me plaintext) box.db;
    outgoing_direct_messages =
        insert call.random_uuid (queued_message p preview call recipient me payload sync_data)
          box.outgoing_direct_messages;
  }

  module _ (R : Outbox → Type 0) (s : Sender)
      (stored : (payload sync_data : Text) → R (with_message payload sync_data s.box))
      (h : R s.box) where
    stored-Kept :
        (payload : Text) (o : Option Text) (store : SessionStore)
        → R
            (store_and_queue p preview call recipient plaintext me payload o
              (with_store store s)).1.box
    stored-Kept payload none store = h
    stored-Kept payload (some sync_data) store =
        if-property {A = Bool × Sender} (λ r. R r.1.box)
          (is_some (find_by_msg_id call.random_uuid s.box.db.messages)) _ _ (λ _. h)
          (λ _. stored payload sync_data)

    encrypted-Kept :
        (secret : Text) (r : Outcome Text × SessionStore)
        → R (send_encrypted p preview call recipient plaintext secret me r s).1.box
    encrypted-Kept secret (done payload, store) =
        stored-Kept payload
          (encrypt_message p call.nonce
            (stringify_self_sync (own_copy p preview call recipient me plaintext)) secret me)
          store
    encrypted-Kept secret (null, store) = h
    encrypted-Kept secret (throws, store) = h

    pub send-Kept : (secret : Text) → R (send p preview call recipient plaintext secret me s).1.box
    unfolding send
    send-Kept secret =
        let Q = λ (r : Bool × Sender). R r.1.box in
        let authenticated = call.authenticated || call.is_open && call.authenticated_later in
        if-property Q (call.is_open && not authenticated) _ _ (λ _. h)
          (λ _.
            if-property Q
              (not (call.is_open && authenticated)
                && not (is_some (lookup recipient s.store.sessions)))
              _ _ (λ _. h)
              (λ _. encrypted-Kept secret (
                encrypt_in_session p (call.draws 0) recipient plaintext secret (call.pre_keys 0)
                  s.store)))
