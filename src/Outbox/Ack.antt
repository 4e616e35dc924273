-- ===== src/Outbox/Ack.antt =====
-- Acknowledgements and manual retries.
use messk.Prelude.{
  subst, ◌or_else◌, ◌≡◌, ◌↔◌, refl, ap, ◌∙◌, sym, Bool, true, false, ◌&&◌, not, Option, none, some,
  List, Text, same, same_iff, is_some, ltb, if◌then◌else◌, if-property, arith, Option-cases, inl,
  inr,
}
use messk.Prelude.Dict.{Dict, lookup, insert, remove, lookup-insert, lookup-remove}
use messk.Store.{StoredMessage, pending, sent, find_by_msg_id, update_message_and_sync}
use messk.Outbox.{Outbox, Channel, OutgoingDirectMessage, update_status}
use messk.Outbox.Acknowledge.{
  handle_server_ack, acknowledge, is_unsent, send_self_sync_copy, retry_direct_message, retried,
  retry_row, reset_row,
}
use messk.Outbox.Queue.{SameQueue, flush-SameQueue}

none-some : {A : Type 0} {a : A} → ¬ (none ≡ some a)
none-some e = absurd (cc)

not_if :
    {A : Type 0} (b : Bool) (o : Option A) → is_some (if b then none else o) ≡ (not b && is_some o)
not_if true o = refl
not_if false o = refl

module _ (preview : Text → Text) (encrypted : StoredMessage → Text) (channel : Channel) where
  copy-queue :
      (m : StoredMessage) (box : Outbox)
      → (send_self_sync_copy preview encrypted channel m box).outgoing_direct_messages
        ≡ box.outgoing_direct_messages
  copy-queue m box = ground arith

  acknowledge-queue :
      (queued : Bool) (o : Option StoredMessage) (box : Outbox)
      → (acknowledge preview encrypted channel queued o box).outgoing_direct_messages
        ≡ box.outgoing_direct_messages
  acknowledge-queue queued none box = refl
  acknowledge-queue queued (some m) box =
      let same = λ (b : Outbox). b.outgoing_direct_messages ≡ box.outgoing_direct_messages in
      let after = record box {
        db = update_message_and_sync preview m.id (λ n. record n { status = sent }) box.db;
      } in
      if-property same (ltb 0 m.id && is_unsent preview m.status) _ box
        (λ _. if-property same queued _ after (λ _. copy-queue m after) (λ _. refl)) (λ _. refl)

  -- After an acknowledgement exactly the messages are queued that were queued before and have another
  -- id.
  pub handle_server_ack-lookup :
      (msg_id id : Text) (box : Outbox)
      → is_some (
          lookup id
            (handle_server_ack preview encrypted channel msg_id box).outgoing_direct_messages)
        ≡ (not (same msg_id id) && is_some (lookup id box.outgoing_direct_messages))
  unfolding handle_server_ack
  handle_server_ack-lookup msg_id id box =
      let removed = record box {
        outgoing_direct_messages = remove msg_id box.outgoing_direct_messages;
        outgoing_group_events = remove msg_id box.outgoing_group_events;
      } in
      ap (λ q. is_some (lookup id q))
        (acknowledge-queue (is_some (lookup msg_id box.outgoing_direct_messages))
          (find_by_msg_id msg_id box.db.messages) removed)
      ∙ ap is_some (lookup-remove id msg_id box.outgoing_direct_messages)
      ∙ not_if (same msg_id id) _

module _ (preview : Text → Text) (order : Dict OutgoingDirectMessage → List OutgoingDirectMessage)
    (channel : Channel) where
  retried-SameQueue :
      (msg_id : Text) (box : Outbox) (row : OutgoingDirectMessage)
      → lookup msg_id box.outgoing_direct_messages ≡ some row
      → SameQueue box (retried preview order channel msg_id row box)
  retried-SameQueue msg_id box row e =
      let ready = update_status preview pending msg_id (record box {
        outgoing_direct_messages =
            insert msg_id (reset_row preview row) box.outgoing_direct_messages;
      }) in
      let same_keys : SameQueue box ready = (λ id. ground (
        arith,
        same_iff msg_id id,
        lookup-insert id msg_id (reset_row preview row) box.outgoing_direct_messages,
      )) in
      if-property (SameQueue box) channel.can_send_immediately _ ready
        (λ _. λ id. flush-SameQueue preview channel order ready id ∙ same_keys id) (λ _. same_keys)

  -- A retry is refused exactly when the message is no longer queued.
  pub retry-eq-none_iff :
      (msg_id : Text) (box : Outbox)
      → (retry_direct_message preview order channel msg_id box ≡ none)
        ↔ (lookup msg_id box.outgoing_direct_messages ≡ none)
  unfolding retry_direct_message
  retry-eq-none_iff msg_id box = elim (Option-cases (lookup msg_id box.outgoing_direct_messages)) [
    | inl missing ↦ rw missing (λ _. refl, λ _. refl)
    | inr (row, found) ↦ rw found (λ e. absurd (cc), λ e. absurd (cc))
  ]

  -- A retry that is not refused ends as `retried` says for the row.
  pub retry-Kept :
      (R : Outbox → Type 0) (msg_id : Text) (box after : Outbox)
      → ((row : OutgoingDirectMessage)
          → lookup msg_id box.outgoing_direct_messages ≡ some row
          → R (retried preview order channel msg_id row box))
      → retry_direct_message preview order channel msg_id box ≡ some after
      → R after
  unfolding retry_direct_message
  retry-Kept R msg_id box after all e =
      elim (Option-cases (lookup msg_id box.outgoing_direct_messages)) [
        | inl missing ↦
            absurd
              (none-some (ap (λ o. retry_row preview order channel msg_id o box) (sym missing) ∙ e))
        | inr (row, found) ↦
            subst (λ (o : Option Outbox). R (o or_else after))
              (ap (λ o. retry_row preview order channel msg_id o box) (sym found) ∙ e)
              (all row found)
      ]

  -- A retry that is not refused leaves the same messages queued.
  pub retry_direct_message-SameQueue :
      (msg_id : Text) (box after : Outbox)
      → retry_direct_message preview order channel msg_id box ≡ some after
      → SameQueue box after
  retry_direct_message-SameQueue msg_id box after =
      retry-Kept (SameQueue box) msg_id box after (λ row. retried-SameQueue msg_id box row)
