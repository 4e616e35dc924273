-- ===== src/Outbox/Sent.antt =====
-- What a flush hands to the socket.
use messk.Prelude.{
  ℕ, zero, suc, ◌-◌, ◌*◌, ◌^◌, ◌≤◌, min, false, Option, none, some, inl, inr, same_iff, arith, ◌≡◌,
  refl, ap, true, List, [], ◌∷◌, ◌++◌, Text, inl, inr, ◌⊎◌, All, Any, ◌or_else◌,
}
use messk.Prelude.Dict.{Dict}
use messk.Outbox.{
  Outbox, Channel, OutgoingDirectMessage, Envelope, flush_outgoing_direct_messages, is_due, waits,
  get_direct_retry_delay, direct_envelope, self_sync_envelope,
}
use messk.Outbox.Flushing.{flush-Flushed}

-- The wire has grown by envelopes of this kind only.
abbrev pub Grows : (Envelope → Type 0) → Outbox → Outbox → Type 0
Grows P box after = (new : List Envelope) × (after.wire ≡ new ++ box.wire) × All P new

module _ (preview : Text → Text) (channel : Channel) where
  -- The row of a message of one's own that has not been attempted, or whose last attempt is at least
  -- min(30 s, 3 s · 2^(attempts - 1)) ago.
  abbrev pub IsRetryable : Text → OutgoingDirectMessage → Type 0
  IsRetryable my_public_key m =
      (m.sender_pub_key ≡ my_public_key)
      × ((m.last_attempt_at ≡ none)
          ⊎ ((at : ℕ) × (m.last_attempt_at ≡ some at)
              × ((at ≡ 0)
                  ⊎ (min 30000 (3000 * 2 ^ (m.attempts - 1)) ≤ channel.attempt_at m.id - at))))

  -- The envelope of such a message of the list, or its self-sync copy.
  abbrev pub FromQueue : Text → List OutgoingDirectMessage → Envelope → Type 0
  FromQueue my_public_key messages e =
      Any
        (λ m.
          IsRetryable my_public_key m
          × ((e ≡ direct_envelope m) ⊎ (e ≡ self_sync_envelope m my_public_key)))
        messages

  due_attempt :
      (last : Option ℕ) (now delay : ℕ)
      → waits last now delay ≡ false
      → (last ≡ none) ⊎ ((at : ℕ) × (last ≡ some at) × ((at ≡ 0) ⊎ (delay ≤ now - at)))
  due_attempt none now delay e = inl refl
  due_attempt (some zero) now delay e = inr (zero, refl, inl refl)
  due_attempt (some (suc at)) now delay e = inr (suc at, refl, inr (ground arith))

  is_due-IsRetryable :
      (my_public_key : Text) (m : OutgoingDirectMessage)
      → is_due preview channel my_public_key m ≡ true
      → IsRetryable my_public_key m
  unfolding get_direct_retry_delay
  is_due-IsRetryable my_public_key m due = (
    ground (arith, same_iff m.sender_pub_key my_public_key),
    due_attempt m.last_attempt_at (channel.attempt_at m.id) (get_direct_retry_delay m.attempts)
        (ground arith),
  )

  -- Where the row of an envelope is known to be due, the envelope is of a kind.
  abbrev Known : (Envelope → Type 0) → OutgoingDirectMessage → Type 0
  Known P m =
      is_due preview channel (channel.my_public_key or_else []) m ≡ true
      → (e : Envelope)
      → (e ≡ direct_envelope m) ⊎ (e ≡ self_sync_envelope m (channel.my_public_key or_else []))
      → P e

  All-Known :
      (P : Envelope → Type 0) (rows : List OutgoingDirectMessage)
      → ((e : Envelope) → FromQueue (channel.my_public_key or_else []) rows e → P e)
      → All (Known P) rows
  All-Known P [] lift = tt
  All-Known P (m ∷ rows) lift = (
    (λ due e of. lift e (inl (is_due-IsRetryable _ m due, of))),
    All-Known P rows (λ e later. lift e (inr later)),
  )

  -- What a flush adds to the wire are envelopes of queued messages, or their self-sync copies; each of
  -- these messages is the user's own, and was not attempted before (an attempt at time 0 counts as none),
  -- or its last attempt is at least as long ago as the retry delay: 3 seconds, doubled with each further attempt, and 30 seconds at most.
  pub flush-FromQueue :
      (order : Dict OutgoingDirectMessage → List OutgoingDirectMessage) (box : Outbox)
      → Grows
          (FromQueue (channel.my_public_key or_else []) (order box.outgoing_direct_messages))
          box
          (flush_outgoing_direct_messages preview order channel box)
  flush-FromQueue order box =
      let P = FromQueue (channel.my_public_key or_else []) (order box.outgoing_direct_messages) in
      flush-Flushed preview channel (Known P) (Grows P box)
        (record {
          flag = λ b after g. g;
          wired = λ m e after known due of (new, grown, all).
              (e ∷ new, ap (e ∷◌) grown, (known due e of, all));
          revived = λ m local after known e g. g;
          unsent = λ m after known g. g;
          marked = λ m now after known g. g;
        })
        order box (All-Known P (order box.outgoing_direct_messages) (λ e h. h)) ([], refl, tt)
