-- ===== src/Sending/Tracked.antt =====
-- No message is forgotten: what is pending is queued.
use messk.Prelude.{
  ℕ, ◌≡◌, refl, ap, ◌∙◌, Bool, true, false, Option, none, some, List, Text, ltb, is_some, All,
  if-property, arith,
}
use messk.Prelude.Dict.{Dict, insert, lookup-insert, lookup-insert_self}
use messk.Store.{
  Database, StoredMessage, Status, pending, failed, find_by_id, find_by_msg_id, update_row,
  update_message_and_sync, update_message_by_msg_id, update_existing,
}
use messk.Outbox.{
  Outbox, Channel, OutgoingDirectMessage, Envelope, flush_outgoing_direct_messages, send_envelope,
  update_status,
}
use messk.Outbox.Acknowledge.{retried, reset_row}
use messk.Outbox.Queue.{SameQueue, mark-SameQueue}
use messk.Outbox.Flushing.{flush-Flushed}
use messk.Incoming.Once.{HasUniqueIds, update_row-HasUniqueIds, sync_existing-messages}
use messk.Sending.Covered.{
  is_pending, is_in, IsCovered, HasUniqueKeys, update_row-HasUniqueKeys, cover-more,
  settle-IsCovered, revive-IsCovered,
}

pub record IsTracked (messages : List StoredMessage) (queue : Dict OutgoingDirectMessage)
    : Type 0 where
  pub keys : HasUniqueKeys messages
  pub ids : HasUniqueIds messages
  pub covered : All (IsCovered queue) messages

abbrev IsTrackedBox : Outbox → Type 0
IsTrackedBox box = IsTracked box.db.messages box.outgoing_direct_messages

-- The query returns rows of the table, each under its id.
abbrev pub IsQuery : (Dict OutgoingDirectMessage → List OutgoingDirectMessage) → Type 0
IsQuery order =
    (table : Dict OutgoingDirectMessage) → All (λ row. is_in table row.id ≡ true) (order table)

more-queued :
    (messages : List StoredMessage) (q q' : Dict OutgoingDirectMessage)
    → ((id : Text) → is_in q id ≡ true → is_in q' id ≡ true)
    → IsTracked messages q
    → IsTracked messages q'
more-queued messages q q' more h = record {
  keys = h.keys;
  ids = h.ids;
  covered = cover-more q q' messages more h.covered;
}

module _ (preview : Text → Text) where
  pub status_row-IsTracked :
      (id : ℕ) (status : Status) (db : Database) (q q' : Dict OutgoingDirectMessage)
      → IsTracked db.messages q
      → All (IsCovered q') (update_row id (λ m. record m { status = status }) db.messages)
      → IsTracked
          (update_message_and_sync preview id (λ m. record m { status = status }) db).messages
          q'
  unfolding update_message_and_sync
  status_row-IsTracked id status db q q' h c =
      let changes = λ (m : StoredMessage). record m { status = status } in
      rw
        (sync_existing-messages preview (find_by_id id db.messages)
          (record db { messages = update_row id changes db.messages }))
        (record {
          keys = update_row-HasUniqueKeys id changes db.messages (λ m. refl) h.keys;
          ids = update_row-HasUniqueIds id changes db.messages (λ m. refl) (λ m. refl) h.ids;
          covered = c;
        })

  settle-IsTracked :
      (msg_id : Text) (status : Status) (box : Outbox)
      → is_pending status ≡ false
      → IsTrackedBox box
      → IsTrackedBox (update_status preview status msg_id box)
  unfolding update_message_by_msg_id
  settle-IsTracked msg_id status box e h = go (find_by_msg_id msg_id box.db.messages)
    where
      q : Dict OutgoingDirectMessage
      q = box.outgoing_direct_messages

      go :
          (o : Option StoredMessage)
          → IsTracked
              (update_existing preview o (λ m. record m { status = status }) box.db).messages
              q
      go none = h
      go (some m) =
          if-property (λ (d : Database). IsTracked d.messages q) (ltb 0 m.id) _ box.db
            (λ _.
              status_row-IsTracked m.id status box.db q q h
                (settle-IsCovered q m.id status box.db.messages e h.covered))
            (λ _. h)

  revived-IsTracked :
      (t : Text) (m : StoredMessage) (box : Outbox)
      → find_by_msg_id t box.db.messages ≡ some m
      → is_in box.outgoing_direct_messages t ≡ true
      → IsTrackedBox box
      → IsTracked
          (update_message_and_sync preview m.id
            (λ n. record n { status = pending })
            box.db).messages
          box.outgoing_direct_messages
  revived-IsTracked t m box e queued h =
      let q = box.outgoing_direct_messages in
      status_row-IsTracked m.id pending box.db q q h
        (revive-IsCovered q t m box.db.messages h.keys e queued h.covered)

  revived :
      (t : Text) (o : Option StoredMessage) (box : Outbox)
      → find_by_msg_id t box.db.messages ≡ o
      → is_in box.outgoing_direct_messages t ≡ true
      → IsTrackedBox box
      → IsTracked
          (update_existing preview o (λ m. record m { status = pending }) box.db).messages
          box.outgoing_direct_messages
  revived t none box e queued h = h
  revived t (some m) box e queued h =
      if-property (λ (d : Database). IsTracked d.messages box.outgoing_direct_messages) (ltb 0 m.id)
        _ box.db (λ _. revived-IsTracked t m box e queued h) (λ _. h)

  module _ (channel : Channel) where
    pub sent-IsTracked :
        (e : Envelope) (box : Outbox)
        → IsTrackedBox box
        → IsTrackedBox (send_envelope preview channel e box).1
    sent-IsTracked e box h =
        if-property {A = Bool × Outbox} (λ r. IsTrackedBox r.1) (channel.sends e) _ (false, box)
          (λ _. h) (λ _. h)

    pub flush-IsTracked :
        (order : Dict OutgoingDirectMessage → List OutgoingDirectMessage) (box : Outbox)
        → IsQuery order
        → IsTrackedBox box
        → IsTrackedBox (flush_outgoing_direct_messages preview order channel box)
    unfolding update_message_by_msg_id
    flush-IsTracked order box query h =
        let start = box.outgoing_direct_messages in
        (flush-Flushed preview channel (λ m. is_in start m.id ≡ true)
          (λ after. IsTrackedBox after × SameQueue box after)
          (record {
            flag = λ b after k. k;
            wired = λ m e after c due of k. k;
            revived = λ m local after c e (k, q).
                (revived-IsTracked m.id local after e (q m.id ∙ c) k, q);
            unsent = λ m after c (k, q). (settle-IsTracked m.id failed after refl k, q);
            marked = λ m now after c (k, q). (
              more-queued after.db.messages after.outgoing_direct_messages _
                  (λ id queued. mark-SameQueue now m after id ∙ queued) k,
              λ id. mark-SameQueue now m after id ∙ q id,
            );
          })
          order box (query start) (h, λ id. refl)).0

    pub retried-IsTracked :
        (order : Dict OutgoingDirectMessage → List OutgoingDirectMessage) (t : Text)
        (row : OutgoingDirectMessage) (box : Outbox)
        → IsQuery order
        → IsTrackedBox box
        → IsTrackedBox (retried preview order channel t row box)
    unfolding update_message_by_msg_id
    retried-IsTracked order t row box query h =
        let q = box.outgoing_direct_messages in
        let q' = insert t (reset_row preview row) q in
        let reset = record box { outgoing_direct_messages = q' } in
        let more =
          more-queued box.db.messages q q'
            (λ id queued. ground (arith, lookup-insert id t (reset_row preview row) q)) h in
        let k =
          revived t (find_by_msg_id t box.db.messages) reset refl
            (ap is_some (lookup-insert_self t (reset_row preview row) q)) more in
        if-property IsTrackedBox channel.can_send_immediately _
          (update_status preview pending t reset)
          (λ _. flush-IsTracked order (update_status preview pending t reset) query k) (λ _. k)
