-- ===== src/Sending/Actions.antt =====
-- Any sequence of what the client does with its own direct messages.
use messk.Prelude.{
  ℕ, suc, ◌<◌, ◌≡◌, refl, ap, Bool, true, false, ◌||◌, not, none, some, List, [], ◌∷◌, Text, truthy,
  ltb, if-property,
}
use messk.Prelude.Dict.{Dict}
use messk.Ratchet.Platform.{Platform}
use messk.Ratchet.Step.{Outcome, done, null, throws}
use messk.Sessions.{SessionStore, encrypt_in_session, delete_session}
use messk.Store.{Database, StoredMessage, pending, find_by_msg_id}
use messk.Store.Synced.{IsSynced}
use messk.Outbox.{Outbox, Channel, OutgoingDirectMessage, flush_outgoing_direct_messages}
use messk.Outbox.Acknowledge.{handle_server_ack, retry_direct_message}
use messk.Outbox.Kept.{flush-Kept, ack-Kept, retried-Kept}
use messk.Outbox.Ack.{retry-Kept}
use messk.Sending.Kept.{send-Kept}
use messk.Incoming.Invariant.{IsKept}
use messk.Incoming.Once.{HasUniqueIds, IsSound, IsSound-IsKept}
use messk.Incoming.SelfSync.{with_id}
use messk.Sending.{Sender, Call, my_secret, sent_message, send}
use messk.Sending.Reset.{
  requeue, resend_each, flush_if_ready, candidates, repair_then_resend, repair_text, cleared,
  handle_peer_session_reset,
}

module _ (p : Platform) (preview : Text → Text) where
  -- Actions, one after the other. The id that `send` draws is new.
  pub data Runs : Sender → Sender → Type 0 where
    rest : {s : Sender} → Runs s s
    sends :
        {s after : Sender} (call : Call) (recipient plaintext my_secret_key my_public_key : Text)
        → 0 < call.next_id
        → find_by_msg_id call.random_uuid s.box.db.messages ≡ none
        → Runs (send p preview call recipient plaintext my_secret_key my_public_key s).1 after
        → Runs s after
    flushes :
        {s after : Sender} (order : Dict OutgoingDirectMessage → List OutgoingDirectMessage)
        (channel : Channel)
        → Runs (record s { box = flush_outgoing_direct_messages preview order channel s.box }) after
        → Runs s after
    acknowledged :
        {s after : Sender} (encrypted : StoredMessage → Text) (channel : Channel) (msg_id : Text)
        → Runs (record s { box = handle_server_ack preview encrypted channel msg_id s.box }) after
        → Runs s after
    retries :
        {s after : Sender} (order : Dict OutgoingDirectMessage → List OutgoingDirectMessage)
        (channel : Channel) (msg_id : Text) (box : Outbox)
        → retry_direct_message preview order channel msg_id s.box ≡ some box
        → Runs (record s { box = box }) after
        → Runs s after
    resets :
        {s after : Sender} (channel : Channel) (call : Call) (peer : Text)
        (order : Dict OutgoingDirectMessage → List OutgoingDirectMessage)
        → Runs (handle_peer_session_reset p preview channel call peer order s).1 after
        → Runs s after

  module _ (P : Database → Type 0) (kept : IsKept preview P) where
    module _ (channel : Channel) (call : Call) (peer : Text)
        (order : Dict OutgoingDirectMessage → List OutgoingDirectMessage) where
      requeue-Kept :
          (m : StoredMessage) (r : Outcome Text × SessionStore) (s : Sender)
          → P s.box.db
          → P (requeue p preview channel call peer m r s).1.box.db
      requeue-Kept m (done payload, store) s h =
          if-property P (ltb 0 m.id) _ s.box.db
            (λ _.
              kept.change m.id (λ n. record n { status = pending }) s.box.db (λ n. refl) (λ n. refl)
                (λ n. refl) h)
            (λ _. h)
      requeue-Kept m (null, store) s h = h
      requeue-Kept m (throws, store) s h = h

      resend-Kept :
          (i : ℕ) (ms : List StoredMessage) (s : Sender)
          → P s.box.db
          → P (resend_each p preview channel call peer i ms s).1.box.db
      unfolding resend_each
      resend-Kept i [] s h = h
      resend-Kept i (m ∷ ms) s h =
          let r =
            requeue p preview channel call peer m
              (encrypt_in_session p (call.draws i) peer m.text (my_secret channel) (call.pre_keys i)
                s.store)
              s in
          let k =
            requeue-Kept m
              (encrypt_in_session p (call.draws i) peer m.text (my_secret channel) (call.pre_keys i)
                s.store)
              s h in
          if-property (λ (x : Bool × Sender). P x.1.box.db) r.0 _ (false, r.1)
            (λ _. resend-Kept (suc i) ms r.1 k) (λ _. k)

      flushed-Kept :
          (r : Bool × Sender)
          → P r.1.box.db
          → P (flush_if_ready p preview channel call peer order r).1.box.db
      flushed-Kept (true, s) h =
          if-property (λ (x : Bool × Sender). P x.1.box.db) channel.can_send_immediately _ (true, s)
            (λ _. flush-Kept preview P kept channel order s.box h) (λ _. h)
      flushed-Kept (false, s) h = h

      repaired-Kept :
          (r : Outcome Text × SessionStore) (s : Sender)
          → P s.box.db
          → P (repair_then_resend p preview channel call peer order r s).1.box.db
      repaired-Kept (done payload, store) s h =
          let before = record s { store = store; repairs = (peer, payload) ∷ s.repairs } in
          let ms = candidates p preview channel call peer s in
          if-property (λ (x : Bool × Sender). P x.1.box.db) (not call.repair_sends) _ _ (λ _. h)
            (λ _.
              flushed-Kept (resend_each p preview channel call peer 1 ms before)
                (resend-Kept 1 ms before h))
      repaired-Kept (null, store) s h = h
      repaired-Kept (throws, store) s h = h

      reset-Kept :
          (s : Sender)
          → P s.box.db
          → P (handle_peer_session_reset p preview channel call peer order s).1.box.db
      unfolding handle_peer_session_reset
      reset-Kept s h =
          if-property (λ (x : Bool × Sender). P x.1.box.db)
            (not (truthy channel.my_public_key) || not (truthy channel.my_secret_key)) _ _ (λ _. h)
            (λ _.
              repaired-Kept
                (encrypt_in_session p (call.draws 0) peer (repair_text call.now) (my_secret channel)
                  (call.pre_keys 0) (delete_session peer s.store))
                (cleared p preview channel call peer s) h)

    pub Runs-Kept : {s after : Sender} → Runs s after → P s.box.db → P after.box.db
    Runs-Kept rest h = h
    Runs-Kept (sends {s} call recipient plaintext secret me key fresh r) h = Runs-Kept r (
        send-Kept p preview call recipient plaintext me (λ (b : Outbox). P b.db) s
          (λ payload sync_data.
            kept.add (sent_message p preview call recipient me plaintext) s.box.db key
              (ap with_id fresh) h)
          h secret)
    Runs-Kept (flushes {s} order channel r) h =
        Runs-Kept r (flush-Kept preview P kept channel order s.box h)
    Runs-Kept (acknowledged {s} encrypted channel msg_id r) h =
        Runs-Kept r (ack-Kept preview P kept channel encrypted msg_id s.box h)
    Runs-Kept (retries {s} order channel msg_id box e r) h = Runs-Kept r (
        retry-Kept preview order channel (λ (b : Outbox). P b.db) msg_id s.box box
          (λ row found. retried-Kept preview P kept channel order msg_id row s.box h) e)
    Runs-Kept (resets {s} channel call peer order r) h =
        Runs-Kept r (reset-Kept channel call peer order s h)

  -- However sends, flushes, acknowledgements, retries and session resets follow each other, those that
  -- throw included, each row of the message table keeps an id of its own and the statistics of each
  -- thread are those of its messages; provided that this was so at first, and that new messages get a
  -- positive key and an id that is not stored.
  pub Runs-IsSound :
      {s after : Sender}
      → Runs s after
      → HasUniqueIds s.box.db.messages
      → IsSynced preview s.box.db
      → HasUniqueIds after.box.db.messages × IsSynced preview after.box.db
  Runs-IsSound r u h = Runs-Kept (IsSound preview) (IsSound-IsKept preview) r (u, h)
