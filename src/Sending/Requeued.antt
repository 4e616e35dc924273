-- ===== src/Sending/Requeued.antt =====
-- What a session reset of the peer does to the queue (`handlePeerSessionReset`).
use messk.Prelude.{
  ℕ, suc, ◌≡◌, refl, Bool, true, false, ◌||◌, List, [], ◌∷◌, Text, same, is_some, truthy,
  if-property, arith, ◌⊎◌, ◌↔◌, inl, inr, Any, filter, Bool-cases,
}
use messk.Prelude.Dict.{Dict, lookup, lookup-insert}
use messk.Ratchet.Platform.{Platform}
use messk.Ratchet.Step.{Outcome, done, null, throws}
use messk.Sessions.{SessionStore, encrypt_in_session, delete_session}
use messk.Store.{StoredMessage}
use messk.Outbox.{Channel, OutgoingDirectMessage}
use messk.Outbox.Queue.{flush-SameQueue}
use messk.Sending.{Sender, Call, my_key, my_secret}
use messk.Sending.Reset.{
  is_candidate, delete_for, requeue, requeued_message, resend_each, flush_if_ready, candidates,
  repair_then_resend, repair_text, cleared, handle_peer_session_reset,
}
use messk.Sending.Chosen.{is_among, IsUnsentTo, IsOther, is_among_iff, is_kept_iff}

-- Whether a message is queued.
abbrev pub is_queued : Text → Sender → Bool
is_queued id sender = is_some (lookup id sender.box.outgoing_direct_messages)

module _ (p : Platform) (preview : Text → Text) (channel : Channel) (call : Call)
    (peer : Text) where
  requeue-queue :
      (m : StoredMessage) (r : Outcome Text × SessionStore) (sender : Sender) (id : Text)
      → (requeue p preview channel call peer m r sender).0 ≡ true
      → is_queued id (requeue p preview channel call peer m r sender).1
        ≡ (same m.msg_id id || is_queued id sender)
  requeue-queue m (done payload, store) sender id e = ground (
    arith,
    lookup-insert id m.msg_id (requeued_message p preview channel call peer m payload)
        sender.box.outgoing_direct_messages,
  )
  requeue-queue m (null, store) sender id e = absurd (cc)
  requeue-queue m (throws, store) sender id e = absurd (cc)

  resend-queue :
      (i : ℕ) (ms : List StoredMessage) (sender : Sender) (id : Text)
      → (resend_each p preview channel call peer i ms sender).0 ≡ true
      → is_queued id (resend_each p preview channel call peer i ms sender).1
        ≡ (is_among id ms || is_queued id sender)
  unfolding resend_each
  resend-queue i [] sender id e = refl
  resend-queue i (m ∷ ms) sender id e =
      let r =
        encrypt_in_session p (call.draws i) peer m.text (my_secret channel) (call.pre_keys i)
          sender.store in
      ground (
        arith,
        requeue-queue m r sender id,
        resend-queue (suc i) ms (requeue p preview channel call peer m r sender).1 id,
      )

  flush-queue :
      (order : Dict OutgoingDirectMessage → List OutgoingDirectMessage) (r : Bool × Sender)
      (id : Text)
      → ((flush_if_ready p preview channel call peer order r).0 ≡ r.0)
        × (is_queued id (flush_if_ready p preview channel call peer order r).1 ≡ is_queued id r.1)
  flush-queue order (true, sender) id =
      if-property {A = Bool × Sender} (λ r. (r.0 ≡ true) × (is_queued id r.1 ≡ is_queued id sender))
        channel.can_send_immediately _ _
        (λ _. (refl, flush-SameQueue preview channel order sender.box id)) (λ _. (refl, refl))
  flush-queue order (false, sender) id = (refl, refl)

  repair-queue :
      (order : Dict OutgoingDirectMessage → List OutgoingDirectMessage)
      (r : Outcome Text × SessionStore) (sender : Sender) (id : Text)
      → (repair_then_resend p preview channel call peer order r sender).0 ≡ true
      → is_queued id (repair_then_resend p preview channel call peer order r sender).1
        ≡ (is_among id (candidates p preview channel call peer sender) || is_queued id sender)
  repair-queue order (done payload, store) sender id e =
      let ms = candidates p preview channel call peer sender in
      let before = record sender { store = store; repairs = (peer, payload) ∷ sender.repairs } in
      let (flag, queue) =
        flush-queue order (resend_each p preview channel call peer 1 ms before) id in
      ground (arith, flag, queue, resend-queue 1 ms before id)
  repair-queue order (null, store) sender id e = absurd (cc)
  repair-queue order (throws, store) sender id e = absurd (cc)

  reset-queue :
      (order : Dict OutgoingDirectMessage → List OutgoingDirectMessage) (sender : Sender)
      (id : Text)
      → truthy channel.my_public_key ≡ true
      → truthy channel.my_secret_key ≡ true
      → (handle_peer_session_reset p preview channel call peer order sender).0 ≡ true
      → is_queued id (handle_peer_session_reset p preview channel call peer order sender).1 ≡ (
          is_among id (candidates p preview channel call peer sender)
          || is_some
              (lookup id (delete_for peer (my_key channel) sender.box.outgoing_direct_messages)))
  unfolding handle_peer_session_reset
  reset-queue order sender id mine secret =
      rw (mine, secret)
        (repair-queue order
          (encrypt_in_session p (call.draws 0) peer (repair_text call.now) (my_secret channel)
            (call.pre_keys 0) (delete_session peer sender.store))
          (cleared p preview channel call peer sender) id)

  -- After a session reset that a client with both its keys handles to its end, an id is queued exactly
  -- where a row with it was queued to another recipient or by another sender, or where a stored message with it,
  -- of the client's own to this peer, was pending or failed, queued before or not.
  pub handle_peer_session_reset-queue :
      (order : Dict OutgoingDirectMessage → List OutgoingDirectMessage) (sender : Sender)
      (id : Text)
      → truthy channel.my_public_key ≡ true
      → truthy channel.my_secret_key ≡ true
      → (handle_peer_session_reset p preview channel call peer order sender).0 ≡ true
      → (is_queued id (handle_peer_session_reset p preview channel call peer order sender).1 ≡ true)
        ↔ (Any (IsUnsentTo id peer (my_key channel)) sender.box.db.messages
            ⊎ Any (IsOther id peer (my_key channel)) sender.box.outgoing_direct_messages)
  handle_peer_session_reset-queue order sender id mine secret e =
      let me = my_key channel in
      let ms = sender.box.db.messages in
      let rows = sender.box.outgoing_direct_messages in
      let among = is_among_iff id peer me ms in
      let kept = is_kept_iff id peer me rows in
      rw (reset-queue order sender id mine secret e) (
        λ queued. elim (Bool-cases (is_among id (filter (is_candidate peer me) ms))) [
          | inl unsent ↦ inl (among.0 unsent)
          | inr others ↦ inr (kept.0 (ground arith))
        ],
        λ reasons. elim reasons [
          | inl unsent ↦ (let unsent = among.1 unsent in ground arith)
          | inr other ↦ (let other = kept.1 other in ground arith)
        ],
      )
