-- ===== src/Sending/Queued.antt =====
-- What `send` stores and queues.
use messk.Prelude.{
  Option-cases, inl, inr, ◌≡◌, refl, Bool, true, false, ◌&&◌, ◌||◌, not, Option, none, some, [],
  ◌∷◌, ◌++◌, Text, is_some, if-property,
}
use messk.Prelude.Dict.{lookup, lookup-insert_self}
use messk.Ratchet.Platform.{Platform}
use messk.Ratchet.Step.{Outcome, done, null, throws}
use messk.Handshake.{encrypt_message}
use messk.Payloads.Written.{stringify_self_sync}
use messk.Sessions.{SessionStore, encrypt_in_session}
use messk.Store.{StoredMessage, pending, find_by_msg_id}
use messk.Prelude.Int.{pos}
use messk.Prelude.Number.{Number}
use messk.Payloads.{SelfSyncPayload}
use messk.Outbox.{OutgoingDirectMessage}
use messk.Incoming.Once.{add-messages}
use messk.Sending.{
  Sender, Call, queued_message, sent_message, own_copy, store_and_queue, send_encrypted, with_store,
  send,
}

-- The message of a text that has just been sent.
pub record IsSentText (call : Call) (recipient me plaintext : Text) (m : StoredMessage)
    : Type 0 where
  pub msg_id : m.msg_id ≡ call.random_uuid
  pub peer_public_key : m.peer_public_key ≡ recipient
  pub sender_public_key : m.sender_public_key ≡ me
  pub text : m.text ≡ plaintext
  pub timestamp : m.timestamp ≡ call.now
  pub status : m.status ≡ pending
  pub deleted_at : m.deleted_at ≡ none

-- The queued row of a message that has just been sent, not attempted yet: `payload` for the recipient,
-- and the copy for the own devices, encrypted to oneself.
pub record IsQueuedText (p : Platform) (call : Call) (recipient me secret plaintext payload : Text)
    (row : OutgoingDirectMessage) : Type 0 where
  pub id : row.id ≡ call.random_uuid
  pub recipient_pub_key : row.recipient_pub_key ≡ recipient
  pub sender_pub_key : row.sender_pub_key ≡ me
  pub data_of : row.payload ≡ payload
  pub sync_data :
      row.sync_data
      ≡ encrypt_message p call.nonce
          (stringify_self_sync (
            SelfSyncPayload.direct_message call.random_uuid recipient me plaintext
              (Number.int (pos call.now))
              pending))
          secret
          me
  pub created_at : row.created_at ≡ call.now
  pub last_attempt_at : row.last_attempt_at ≡ none
  pub attempts : row.attempts ≡ 0

module _ (p : Platform) (preview : Text → Text) (call : Call)
    (recipient plaintext my_secret_key my_public_key : Text) where
  -- What a send has done to the queue and the messages: an exception leaves them alone.
  abbrev pub Sends : Sender → Bool × Sender → Outcome Text × SessionStore → Type 0
  Sends sender (true, after) r =
      (payload : Text) × (m : StoredMessage) × (row : OutgoingDirectMessage) × (r.0 ≡ done payload)
      × (after.store ≡ r.1)
      × (after.box.db.messages ≡ sender.box.db.messages ++ m ∷ [])
      × IsSentText call recipient my_public_key plaintext m
      × (lookup call.random_uuid after.box.outgoing_direct_messages ≡ some row)
      × IsQueuedText p call recipient my_public_key my_secret_key plaintext payload row
  Sends sender (false, after) r = (after.box ≡ sender.box) × (after.contacts ≡ sender.contacts)

  stored-Sends :
      (payload : Text) (o : Option Text) (store : SessionStore) (sender : Sender)
      → o
        ≡ encrypt_message p call.nonce
            (stringify_self_sync (own_copy p preview call recipient my_public_key plaintext))
            my_secret_key
            my_public_key
      → Sends sender
          (store_and_queue p preview call recipient plaintext my_public_key payload o
            (with_store store sender))
          (done payload, store)
  stored-Sends payload none store sender copied = (refl, refl)
  stored-Sends payload (some sync_data) store sender copied =
      elim (Option-cases (find_by_msg_id call.random_uuid sender.box.db.messages)) [
        | inr (m, known) ↦ rw known (refl, refl)
        | inl new ↦ rw new (
          payload,
          sent_message p preview call recipient my_public_key plaintext,
          queued_message p preview call recipient my_public_key payload sync_data,
          refl,
          refl,
          add-messages preview (sent_message p preview call recipient my_public_key plaintext)
              sender.box.db new,
          record {
            msg_id = refl;
            peer_public_key = refl;
            sender_public_key = refl;
            text = refl;
            timestamp = refl;
            status = refl;
            deleted_at = refl;
          },
          lookup-insert_self call.random_uuid
              (queued_message p preview call recipient my_public_key payload sync_data)
              sender.box.outgoing_direct_messages,
          record {
            id = refl;
            recipient_pub_key = refl;
            sender_pub_key = refl;
            data_of = refl;
            sync_data = copied;
            created_at = refl;
            last_attempt_at = refl;
            attempts = refl;
          },
        )
      ]

  encrypted-Sends :
      (r : Outcome Text × SessionStore) (sender : Sender)
      → Sends sender
          (send_encrypted p preview call recipient plaintext my_secret_key my_public_key r sender)
          r
  encrypted-Sends (done payload, store) sender =
      stored-Sends payload
        (encrypt_message p call.nonce
          (stringify_self_sync (own_copy p preview call recipient my_public_key plaintext))
          my_secret_key my_public_key)
        store sender refl
  encrypted-Sends (null, store) sender = (refl, refl)
  encrypted-Sends (throws, store) sender = (refl, refl)

  -- A send that returns has stored the text as one more message, the last one, from the user to the
  -- recipient, pending, and queued under the same id, for the same recipient and with no attempt yet,
  -- what `encryptInSession` makes of the text, together with the copy for the user's own devices; the
  -- session after that encryption is the stored one. A send that throws has stored and queued nothing.
  pub send-Sends :
      (sender : Sender)
      → Sends sender (send p preview call recipient plaintext my_secret_key my_public_key sender) (
          encrypt_in_session p
            (call.draws 0)
            recipient
            plaintext
            my_secret_key
            (call.pre_keys 0)
            sender.store)
  unfolding send
  send-Sends sender =
      let r =
        encrypt_in_session p (call.draws 0) recipient plaintext my_secret_key (call.pre_keys 0)
          sender.store in
      let authenticated = call.authenticated || call.is_open && call.authenticated_later in
      if-property {A = Bool × Sender} (λ x. Sends sender x r) (call.is_open && not authenticated) _
        _ (λ _. (refl, refl))
        (λ _.
          if-property {A = Bool × Sender} (λ x. Sends sender x r)
            (not (call.is_open && authenticated)
              && not (is_some (lookup recipient sender.store.sessions)))
            _ _ (λ _. (refl, refl)) (λ _. encrypted-Sends r sender))
