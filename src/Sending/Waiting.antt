-- ===== src/Sending/Waiting.antt =====
-- Sends, flushes, acknowledgements and retries in any order: pending messages stay queued.
use messk.Prelude.{
  ◌<◌, ◌≡◌, refl, ap, Bool, true, false, ◌&&◌, ◌||◌, not, Option, none, some, List, [], ◌∷◌, ◌++◌,
  Text, codes, same, same_iff, truthy, ltb, is_some, All, Bool-cases, inl, inr, ◌or_else◌,
  if-property, arith,
}
use messk.Prelude.Dict.{Dict, lookup, insert, remove, lookup-insert, lookup-insert_self}
use messk.Ratchet.Platform.{Platform}
use messk.Store.{StoredMessage, Status, sent, find_by_id, find_by_msg_id, update_message_and_sync}
use messk.Outbox.{Outbox, Channel, OutgoingDirectMessage, self_sync, flush_outgoing_direct_messages}
use messk.Outbox.Acknowledge.{handle_server_ack, acknowledge, is_unsent, retry_direct_message}
use messk.Outbox.Ack.{retry-Kept}
use messk.Sending.Kept.{with_message, send-Kept}
use messk.Incoming.Once.{HasUniqueIds, append-HasUniqueIds, add-messages}
use messk.Sending.{Sender, Call, sent_message, queued_message, send}
use messk.Sending.Covered.{
  is_pending, is_in, IsCovered, append-HasUniqueKeys, cover-more, acked-IsCovered,
  settled-IsCovered, forget-IsCovered,
}
use messk.Sending.Tracked.{
  IsTracked, IsQuery, status_row-IsTracked, sent-IsTracked, flush-IsTracked, retried-IsTracked,
}

abbrev IsTrackedBox : Outbox → Type 0
IsTrackedBox box = IsTracked box.db.messages box.outgoing_direct_messages

append-IsCovered :
    (q : Dict OutgoingDirectMessage) (m : StoredMessage) (ms : List StoredMessage)
    → All (IsCovered q) ms
    → is_in q m.msg_id ≡ true
    → All (IsCovered q) (ms ++ m ∷ [])
append-IsCovered q m [] c queued = ((λ _. queued), tt)
append-IsCovered q m (n ∷ ms) (c, cs) queued = (c, append-IsCovered q m ms cs queued)

covered-queued :
    (q : Dict OutgoingDirectMessage) (t : Text) (m : StoredMessage) (ms : List StoredMessage)
    → All (IsCovered q) ms
    → find_by_msg_id t ms ≡ some m
    → is_pending m.status ≡ true
    → is_in q t ≡ true
unfolding find_by_msg_id
covered-queued q t m [] c e waits = absurd (cc)
covered-queued q t m (n ∷ ms) (c, cs) e waits = elim (Bool-cases (same n.msg_id t)) [
  | inl named ↦ ground (arith, c, same_iff n.msg_id t)
  | inr other ↦ covered-queued q t m ms cs (ground arith) waits
]

found-key :
    (t : Text) (m : StoredMessage) (ms : List StoredMessage)
    → HasUniqueIds ms
    → find_by_msg_id t ms ≡ some m
    → ltb 0 m.id ≡ true
unfolding find_by_msg_id
found-key t m [] u e = absurd (cc)
found-key t m (n ∷ ms) (low, fresh, u) e = ground (arith, found-key t m ms u)

-- A message that `handleServerAck` leaves alone is not pending.
settled_status :
    (preview : Text → Text) (status : Status) (b : Bool)
    → b ≡ true
    → (b && is_unsent preview status) ≡ false
    → is_pending status ≡ false
settled_status preview status b e h = ground arith

module _ (preview : Text → Text) (encrypted : StoredMessage → Text) (channel : Channel) where
  acknowledge-IsTracked :
      (t : Text) (queued : Bool) (o : Option StoredMessage) (q : Dict OutgoingDirectMessage)
      (box : Outbox)
      → find_by_msg_id t box.db.messages ≡ o
      → IsTracked box.db.messages q
      → box.outgoing_direct_messages ≡ remove t q
      → IsTrackedBox (acknowledge preview encrypted channel queued o box)
  acknowledge-IsTracked t queued none q box e h removed = rw removed (record {
    keys = h.keys;
    ids = h.ids;
    covered = forget-IsCovered q t box.db.messages e h.covered;
  })
  acknowledge-IsTracked t queued (some m) q box e h removed =
      let after = record box {
        db = update_message_and_sync preview m.id (λ n. record n { status = sent }) box.db;
      } in
      let settled : IsTrackedBox after = rw removed (
        status_row-IsTracked preview m.id sent box.db q (remove t q) h
          (acked-IsCovered q t m sent box.db.messages h.keys h.ids e refl h.covered)) in
      let copy =
        self_sync (m.msg_id ++ codes ":self") (channel.my_public_key or_else []) (encrypted m) in
      let copied =
        if-property IsTrackedBox
          (not channel.can_send_immediately
            || not (truthy channel.my_public_key)
            || not (truthy channel.my_secret_key))
          after _ (λ _. settled) (λ _. sent-IsTracked preview channel copy after settled) in
      if-property IsTrackedBox (ltb 0 m.id && is_unsent preview m.status) _ box
        (λ _. if-property IsTrackedBox queued _ after (λ _. copied) (λ _. settled))
        (λ no. rw removed (record {
          keys = h.keys;
          ids = h.ids;
          covered =
              settled-IsCovered q t m box.db.messages h.ids e
                (settled_status preview m.status (ltb 0 m.id)
                  (found-key t m box.db.messages h.ids e) no)
                h.covered;
        }))

  ack-IsTracked :
      (t : Text) (box : Outbox)
      → IsTrackedBox box
      → IsTrackedBox (handle_server_ack preview encrypted channel t box)
  unfolding handle_server_ack
  ack-IsTracked t box h =
      acknowledge-IsTracked t (is_some (lookup t box.outgoing_direct_messages))
        (find_by_msg_id t box.db.messages) box.outgoing_direct_messages
        (record box {
          outgoing_direct_messages = remove t box.outgoing_direct_messages;
          outgoing_group_events = remove t box.outgoing_group_events;
        })
        refl h refl

module _ (p : Platform) (preview : Text → Text) where
  module _ (call : Call) (recipient plaintext me : Text) (key : 0 < call.next_id) where
    stored-IsTracked :
        (payload sync_data : Text) (box : Outbox)
        → find_by_id call.next_id box.db.messages ≡ none
        → find_by_msg_id call.random_uuid box.db.messages ≡ none
        → IsTrackedBox box
        → IsTrackedBox (with_message p preview call recipient plaintext me payload sync_data box)
    stored-IsTracked payload sync_data box new_key new_id h =
        let m = sent_message p preview call recipient me plaintext in
        let q = box.outgoing_direct_messages in
        let row = queued_message p preview call recipient me payload sync_data in
        rw (add-messages preview m box.db new_id) (record {
          keys = append-HasUniqueKeys m box.db.messages new_key h.keys;
          ids = append-HasUniqueIds m box.db.messages key new_id h.ids;
          covered =
              append-IsCovered (insert call.random_uuid row q) m box.db.messages
                (cover-more q (insert call.random_uuid row q) box.db.messages
                  (λ id queued. ground (arith, lookup-insert id call.random_uuid row q)) h.covered)
                (ap is_some (lookup-insert_self call.random_uuid row q));
        })

  -- What is done with messages while no session is reset. The key and the id of a new message are new,
  -- and a query for the queued rows returns rows of the table.
  pub data Delivers : Sender → Sender → Type 0 where
    idle : {s : Sender} → Delivers s s
    sending :
        {s after : Sender} (call : Call) (recipient plaintext secret me : Text)
        → 0 < call.next_id
        → find_by_id call.next_id s.box.db.messages ≡ none
        → find_by_msg_id call.random_uuid s.box.db.messages ≡ none
        → Delivers (send p preview call recipient plaintext secret me s).1 after
        → Delivers s after
    flushing :
        {s after : Sender} (order : Dict OutgoingDirectMessage → List OutgoingDirectMessage)
        (channel : Channel)
        → IsQuery order
        → Delivers
            (record s { box = flush_outgoing_direct_messages preview order channel s.box })
            after
        → Delivers s after
    acknowledging :
        {s after : Sender} (encrypted : StoredMessage → Text) (channel : Channel) (msg_id : Text)
        → Delivers
            (record s { box = handle_server_ack preview encrypted channel msg_id s.box })
            after
        → Delivers s after
    retrying :
        {s after : Sender} (order : Dict OutgoingDirectMessage → List OutgoingDirectMessage)
        (channel : Channel) (msg_id : Text) (box : Outbox)
        → IsQuery order
        → retry_direct_message preview order channel msg_id s.box ≡ some box
        → Delivers (record s { box = box }) after
        → Delivers s after

  Delivers-IsTracked :
      {s after : Sender} → Delivers s after → IsTrackedBox s.box → IsTrackedBox after.box
  Delivers-IsTracked idle h = h
  Delivers-IsTracked (sending {s} call recipient plaintext secret me key new_key new_id r) h =
      Delivers-IsTracked r (
        send-Kept p preview call recipient plaintext me IsTrackedBox s
          (λ payload sync_data.
            stored-IsTracked call recipient plaintext me key payload sync_data s.box new_key new_id
              h)
          h secret)
  Delivers-IsTracked (flushing {s} order channel query r) h =
      Delivers-IsTracked r (flush-IsTracked preview channel order s.box query h)
  Delivers-IsTracked (acknowledging {s} encrypted channel msg_id r) h =
      Delivers-IsTracked r (ack-IsTracked preview encrypted channel msg_id s.box h)
  Delivers-IsTracked (retrying {s} order channel msg_id box query e r) h = Delivers-IsTracked r (
      retry-Kept preview order channel IsTrackedBox msg_id s.box box
        (λ row found. retried-IsTracked preview channel order msg_id row s.box query h) e)

  -- No message is forgotten: however sends, flushes, acknowledgements and retries follow each other, those
  -- that throw included, a message that is pending is queued, so that a flush finds it. At first this was
  -- so, keys were positive, and no two messages had one key or one id; a new message gets a new key and
  -- id, and the query for queued rows returns rows of the table.
  pub Delivers-waits :
      {s after : Sender} (t : Text) (m : StoredMessage)
      → Delivers s after
      → IsTrackedBox s.box
      → find_by_msg_id t after.box.db.messages ≡ some m
      → is_pending m.status ≡ true
      → is_in after.box.outgoing_direct_messages t ≡ true
  Delivers-waits {after = after} t m r h found waits =
      covered-queued after.box.outgoing_direct_messages t m after.box.db.messages
        (Delivers-IsTracked r h).covered found waits
