-- ===== src/Ratchet/Turn/Skipping.antt =====
-- What the end of the old receiving chain leaves in a session.
use messk.Prelude.{
  ℕ, ◌-◌, ◌≡◌, ◌≢◌, refl, Bool, true, false, not, ◌||◌, ltb, Option, none, some, [], Text, truthy,
  same, same_refl, if◌then◌else◌, if-property, ◌or_else◌, arith, Bool-cases, inl, inr,
}
use messk.Prelude.Dict.{Dict, lookup}
use messk.Ratchet.Platform.{Platform, Bytes, KeyPair, Session, RatchetMessage}
use messk.Ratchet.Step.{Outcome, done, >>?-some}
use messk.Ratchet.Keys.{skipped_key_id, skip_message_keys, store_skipped, skip_from, counter}
use messk.Ratchet.Chain.{skipped_key_id_inj, skip_loop-keeps}
use messk.Ratchet.Receive.{is_new_key, follow_ratchet, dh_ratchet, skip_until}
use messk.Ratchet.Turn.{InReach}

-- The parts of a session that a step of the ratchet reads, and the stored keys of another chain.
abbrev pub Kept : Text → Session → Session → Type 0
Kept key session draft =
    (draft.root_key ≡ session.root_key)
    × (draft.send_ratchet_priv_key ≡ session.send_ratchet_priv_key)
    × (draft.send_chain_index ≡ session.send_chain_index)
    × ((j : ℕ)
        → lookup (skipped_key_id key j) draft.skipped_keys
          ≡ lookup (skipped_key_id key j) session.skipped_keys)

Kept-refl : (key : Text) (session : Session) → Kept key session session
Kept-refl key session = (refl, refl, refl, λ j. refl)

is_new_key-distinct :
    (key : Text) (o : Option Text)
    → is_new_key key o ≡ true
    → truthy o ≡ true
    → (o or_else []) ≢ key
is_new_key-distinct key none e t q = absurd (cc)
is_new_key-distinct key (some k) e t q =
    let s : same key k ≡ true = rw q (same_refl key) in absurd (ground arith)

module _ (p : Platform) (key : Text) where
  store_skipped-Kept :
      (until : ℕ) (session : Session) (o : Option (Bytes × Dict Text))
      → (session.recv_ratchet_pub_key or_else []) ≢ key
      → skip_from p until session ≡ o
      → Kept key session (store_skipped p until session o).1
  store_skipped-Kept until session none other e = Kept-refl key session
  store_skipped-Kept until session (some (c, keys)) other e =
      let (k, decoded, rest) =
        >>?-some (p.decode_base64 (session.recv_chain_key or_else [])) _ (c, keys) e in
      (
        refl,
        refl,
        refl,
        λ j.
            skip_loop-keeps p _ _ _ k session.skipped_keys c keys (skipped_key_id key j) rest
              (λ i low high q. other (skipped_key_id_inj _ key i j q).0),
      )

  pub skip_message_keys-Kept :
      (until : ℕ) (session : Session)
      → is_new_key key session.recv_ratchet_pub_key ≡ true
      → Kept key session (skip_message_keys p until session).1
  unfolding skip_message_keys
  skip_message_keys-Kept until session new =
      let P = λ (r : Outcome Bool × Session). Kept key session r.1 in
      let go = store_skipped p until session (skip_from p until session) in
      let in_reach =
        if ltb 50 (until - session.recv_chain_index) then (done false, session) else go in
      if-property P
        (not (truthy session.recv_chain_key) || not (truthy session.recv_ratchet_pub_key))
        (done false, session)
        (if ltb until session.recv_chain_index then (done true, session) else in_reach)
        (λ _. Kept-refl key session)
        (λ ready.
          if-property P (ltb until session.recv_chain_index) (done true, session) in_reach
            (λ _. Kept-refl key session)
            (λ _.
              if-property P (ltb 50 (until - session.recv_chain_index)) (done false, session) go
                (λ _. Kept-refl key session)
                (λ _.
                  store_skipped-Kept until session _
                    (is_new_key-distinct key session.recv_ratchet_pub_key new (ground arith))
                    refl)))

module _ (p : Platform) (msg : RatchetMessage) (pair : KeyPair) (session : Session) where
  skip_until-done :
      (skip_message_keys p (counter msg.header.pn) session).0 ≡ done true
      → skip_until p msg (counter msg.header.pn) session
        ≡ (done tt, (skip_message_keys p (counter msg.header.pn) session).1)
  unfolding skip_until
  skip_until-done e = simp e

  -- On a new key in reach, the ratchet turns in a draft that kept what it needs.
  pub follow_ratchet-turns :
      is_new_key msg.header.ratchet_pub_key session.recv_ratchet_pub_key ≡ true
      → InReach p (counter msg.header.pn) session
      → (draft : Session) × Kept msg.header.ratchet_pub_key session draft
        × (follow_ratchet p msg pair session ≡ dh_ratchet p msg pair draft)
  unfolding follow_ratchet
  follow_ratchet-turns new (inl none_yet) =
      (session, Kept-refl msg.header.ratchet_pub_key session, simp (new, none_yet))
  follow_ratchet-turns new (inr reached) = elim (Bool-cases (truthy session.recv_chain_key)) [
    | inl ready ↦ (
      (skip_message_keys p (counter msg.header.pn) session).1,
      skip_message_keys-Kept p msg.header.ratchet_pub_key (counter msg.header.pn) session new,
      simp (new, ready, skip_until-done reached),
    )
    | inr none_yet ↦ (session, Kept-refl msg.header.ratchet_pub_key session, simp (new, none_yet))
  ]
