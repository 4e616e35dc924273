-- ===== src/Outbox/Flushing.antt =====
-- What is kept by a flush, step by step.
use messk.Prelude.{
  ℕ, ◌≡◌, refl, Bool, true, false, ◌&&◌, ◌||◌, not, Option, none, some, List, [], ◌∷◌, Text, truthy,
  ltb, ◌or_else◌, ◌⊎◌, inl, inr, All, if-property, arith,
}
use messk.Prelude.Dict.{Dict}
use messk.Store.{StoredMessage, pending, failed, find_by_msg_id, update_message_and_sync}
use messk.Outbox.{
  Outbox, Channel, OutgoingDirectMessage, Envelope, attempt, flush_each,
  flush_outgoing_direct_messages, revive, is_failed, send_envelope, then_self_sync, finish, is_due,
  direct_envelope, self_sync_envelope, update_status, mark_direct_attempt,
}

module _ (preview : Text → Text) (channel : Channel) (C : OutgoingDirectMessage → Type 0)
    (Q : Outbox → Type 0) where
  abbrev pub IsDue : OutgoingDirectMessage → Type 0
  IsDue m = is_due preview channel (channel.my_public_key or_else []) m ≡ true

  -- Each thing that a flush does keeps `Q`, given `C` of the rows that it goes through.
  pub record IsFlushed : Type 0 where
    pub flag : (b : Bool) (box : Outbox) → Q box → Q (record box { flushing_direct_outbox = b })
    pub wired :
        (m : OutgoingDirectMessage) (e : Envelope) (box : Outbox)
        → C m
        → IsDue m
        → (e ≡ direct_envelope m) ⊎ (e ≡ self_sync_envelope m (channel.my_public_key or_else []))
        → Q box
        → Q (record box { wire = e ∷ box.wire })
    pub revived :
        (m : OutgoingDirectMessage) (local : StoredMessage) (box : Outbox)
        → C m
        → find_by_msg_id m.id box.db.messages ≡ some local
        → Q box
        → Q (record box {
          db = update_message_and_sync preview local.id (λ n. record n { status = pending }) box.db;
        })
    pub unsent :
        (m : OutgoingDirectMessage) (box : Outbox)
        → C m
        → Q box
        → Q (update_status preview failed m.id box)
    pub marked :
        (m : OutgoingDirectMessage) (now : ℕ) (box : Outbox)
        → C m
        → Q box
        → Q (record box {
          outgoing_direct_messages = mark_direct_attempt now m box.outgoing_direct_messages;
        })

module _ (preview : Text → Text) (channel : Channel) (C : OutgoingDirectMessage → Type 0)
    (Q : Outbox → Type 0) (laws : IsFlushed preview channel C Q) where
  abbrev me : Text
  me = channel.my_public_key or_else []

  module _ (m : OutgoingDirectMessage) (c : C m) (due : IsDue preview channel C Q m) where
    sent-Flushed :
        (e : Envelope) (box : Outbox)
        → (e ≡ direct_envelope m) ⊎ (e ≡ self_sync_envelope m me)
        → Q box
        → Q (send_envelope preview channel e box).1
    sent-Flushed e box of h =
        if-property {A = Bool × Outbox} (λ r. Q r.1) (channel.sends e) _ (false, box)
          (λ _. laws.wired m e box c due of h) (λ _. h)

    revive-Flushed :
        (o : Option StoredMessage) (box : Outbox)
        → find_by_msg_id m.id box.db.messages ≡ o
        → Q box
        → Q (revive preview o box)
    revive-Flushed none box e h = h
    revive-Flushed (some local) box e h =
        if-property Q (ltb 0 local.id && is_failed preview local.status) _ box
          (λ _. laws.revived m local box c e h) (λ _. h)

    self_sync-Flushed : (r : Bool × Outbox) → Q r.1 → Q (then_self_sync preview channel me m r).1
    self_sync-Flushed (false, box) h = h
    self_sync-Flushed (true, box) h =
        if-property {A = Bool × Outbox} (λ r. Q r.1)
          (not (channel.ready m.id) || not (truthy m.sync_data)) (true, box) _ (λ _. h)
          (λ _. sent-Flushed (self_sync_envelope m me) box (inr refl) h)

    finish-Flushed : (r : Bool × Outbox) → Q r.1 → Q (finish preview channel m r).1
    finish-Flushed (false, box) h = laws.unsent m box c h
    finish-Flushed (true, box) h = laws.marked m (channel.stamp_at m.id) box c h

    attempt-Flushed : (box : Outbox) → Q box → Q (attempt preview channel me m box).1
    unfolding attempt
    attempt-Flushed box h =
        let local = find_by_msg_id m.id box.db.messages in
        let first = send_envelope preview channel (direct_envelope m) (revive preview local box) in
        finish-Flushed (then_self_sync preview channel me m first) (
          self_sync-Flushed first (
            sent-Flushed (direct_envelope m) (revive preview local box) (inl refl)
              (revive-Flushed local box refl h)))

  flush_each-Flushed :
      (rows : List OutgoingDirectMessage) (box : Outbox)
      → All C rows
      → Q box
      → Q (flush_each preview channel me rows box)
  unfolding flush_each
  flush_each-Flushed [] box cs h = h
  flush_each-Flushed (m ∷ rows) box (c, cs) h =
      let r = attempt preview channel me m box in
      if-property Q (not (is_due preview channel me m)) _ _ (λ _. flush_each-Flushed rows box cs h)
        (λ due.
          let k = attempt-Flushed m c (ground arith) box h in
          if-property Q r.0 _ r.1 (λ _. flush_each-Flushed rows r.1 cs k) (λ _. k))

  pub flush-Flushed :
      (order : Dict OutgoingDirectMessage → List OutgoingDirectMessage) (box : Outbox)
      → All C (order box.outgoing_direct_messages)
      → Q box
      → Q (flush_outgoing_direct_messages preview order channel box)
  unfolding flush_outgoing_direct_messages
  flush-Flushed order box cs h =
      let start = record box { flushing_direct_outbox = true } in
      let rows = order box.outgoing_direct_messages in
      if-property Q
        (box.flushing_direct_outbox
          || not channel.can_send_immediately
          || not (truthy channel.my_public_key))
        box _ (λ _. h)
        (λ _.
          laws.flag false (flush_each preview channel me rows start)
            (flush_each-Flushed rows start cs (laws.flag true box h)))

abbrev pub Anything : OutgoingDirectMessage → Type 0
Anything m = Unit

pub no_condition : (rows : List OutgoingDirectMessage) → All Anything rows
no_condition [] = tt
no_condition (m ∷ rows) = (tt, no_condition rows)
