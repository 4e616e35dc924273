-- ===== src/Outbox/Kept.antt =====
-- What the message store keeps, the outbox keeps.
use messk.Prelude.{
  ℕ, ◌++◌, codes, ◌≡◌, refl, ◌||◌, ◌&&◌, not, Bool, false, Option, none, some, List, [], Text,
  truthy, ltb, is_some, ◌or_else◌, if-property,
}
use messk.Prelude.Dict.{Dict, lookup, insert, remove}
use messk.Store.{
  Database, StoredMessage, Status, failed, pending, sent, find_by_msg_id, update_message_and_sync,
}
use messk.Outbox.{
  Outbox, Channel, OutgoingDirectMessage, Envelope, self_sync, flush_outgoing_direct_messages,
  send_envelope, update_status,
}
use messk.Outbox.Acknowledge.{handle_server_ack, acknowledge, is_unsent, retried, reset_row}
use messk.Outbox.Flushing.{flush-Flushed, Anything, no_condition}
use messk.Incoming.Invariant.{IsKept, status-Kept}

module _ (preview : Text → Text) (P : Database → Type 0) (kept : IsKept preview P)
    (channel : Channel) where
  send-db : (e : Envelope) (box : Outbox) → (send_envelope preview channel e box).1.db ≡ box.db
  send-db e box =
      if-property (λ (r : Bool × Outbox). r.1.db ≡ box.db) (channel.sends e) _ (false, box)
        (λ _. refl) (λ _. refl)

  sent-Kept :
      (e : Envelope) (box : Outbox) → P box.db → P (send_envelope preview channel e box).1.db
  sent-Kept e box h = rw (send-db e box) h

  status_row-Kept :
      (id : ℕ) (status : Status) (box : Outbox)
      → P box.db
      → P (update_message_and_sync preview id (λ m. record m { status = status }) box.db)
  status_row-Kept id status box h =
      kept.change id (λ m. record m { status = status }) box.db (λ m. refl) (λ m. refl) (λ m. refl)
        h

  pub flush-Kept :
      (order : Dict OutgoingDirectMessage → List OutgoingDirectMessage) (box : Outbox)
      → P box.db
      → P (flush_outgoing_direct_messages preview order channel box).db
  flush-Kept order box h =
      flush-Flushed preview channel Anything (λ after. P after.db)
        (record {
          flag = λ b after k. k;
          wired = λ m e after c due of k. k;
          revived = λ m local after c e k. status_row-Kept local.id pending after k;
          unsent = λ m after c k. status-Kept preview P kept m.id failed after.db k;
          marked = λ m now after c k. k;
        })
        order box (no_condition (order box.outgoing_direct_messages)) h

  acknowledge-Kept :
      (encrypted : StoredMessage → Text) (queued : Bool) (o : Option StoredMessage) (box : Outbox)
      → P box.db
      → P (acknowledge preview encrypted channel queued o box).db
  acknowledge-Kept encrypted queued none box h = h
  acknowledge-Kept encrypted queued (some m) box h =
      let after = record box {
        db = update_message_and_sync preview m.id (λ n. record n { status = sent }) box.db;
      } in
      let k = status_row-Kept m.id sent box h in
      let copy =
        self_sync (m.msg_id ++ codes ":self") (channel.my_public_key or_else []) (encrypted m) in
      let copied =
        if-property (λ (b : Outbox). P b.db)
          (not channel.can_send_immediately
            || not (truthy channel.my_public_key)
            || not (truthy channel.my_secret_key))
          after _ (λ _. k) (λ _. sent-Kept copy after k) in
      if-property (λ (b : Outbox). P b.db) (ltb 0 m.id && is_unsent preview m.status) _ box
        (λ _. if-property (λ (b : Outbox). P b.db) queued _ after (λ _. copied) (λ _. k)) (λ _. h)

  pub ack-Kept :
      (encrypted : StoredMessage → Text) (msg_id : Text) (box : Outbox)
      → P box.db
      → P (handle_server_ack preview encrypted channel msg_id box).db
  unfolding handle_server_ack
  ack-Kept encrypted msg_id box h =
      acknowledge-Kept encrypted (is_some (lookup msg_id box.outgoing_direct_messages))
        (find_by_msg_id msg_id box.db.messages)
        (record box {
          outgoing_direct_messages = remove msg_id box.outgoing_direct_messages;
          outgoing_group_events = remove msg_id box.outgoing_group_events;
        })
        h

  pub retried-Kept :
      (order : Dict OutgoingDirectMessage → List OutgoingDirectMessage) (msg_id : Text)
      (row : OutgoingDirectMessage) (box : Outbox)
      → P box.db
      → P (retried preview order channel msg_id row box).db
  retried-Kept order msg_id row box h =
      let reset = update_status preview pending msg_id (record box {
        outgoing_direct_messages =
            insert msg_id (reset_row preview row) box.outgoing_direct_messages;
      }) in
      let k = status-Kept preview P kept msg_id pending box.db h in
      if-property (λ (b : Outbox). P b.db) channel.can_send_immediately _ reset
        (λ _. flush-Kept order reset k) (λ _. k)
