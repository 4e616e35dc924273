-- ===== src/Ratchet/Memory.antt =====
-- How many keys of skipped messages `decrypt` stores.
use messk.Prelude.{
  ℕ, ◌+◌, ◌≤◌, ap, not, [], Text, truthy, length, ◌or_else◌, if-property, arith, inl, inr,
}
use messk.Prelude.Dict.{lookup, length-remove}
use messk.Ratchet.Platform.{Platform, Bytes, KeyPair, Session, RatchetMessage}
use messk.Ratchet.Step.{Outcome, done, null, throws, continue, or_throw, ◌>>?◌}
use messk.Ratchet.Keys.{kdf_root, kdf_chain, validate_message, skip_message_keys, counter}
use messk.Ratchet.Skip.{skip_message_keys-Bounded}
use messk.Ratchet.Receive.{
  decrypt, decrypt_skipped, decrypt_draft, spend_skipped, commit, message_key_id, follow_ratchet,
  dh_ratchet, skip_until, open_next, is_new_key, next_send_chain, start_receive_chain,
  advance_receive, text_or_null, open_message,
}
use messk.Ratchet.Send.{start_send_chain, mix_root}

-- At most `n` more keys are stored.
abbrev pub Grows {ℓ} : {A : Type ℓ} → ℕ → Session → Outcome A × Session → Type 0
Grows n session r = length r.1.skipped_keys ≤ length session.skipped_keys + n

Grows-continue :
    {A B : Type 0} (n m : ℕ) (session : Session) (o : Outcome A) (draft : Session)
    (f : A → Session → Outcome B × Session)
    → Grows n session (o, draft)
    → ((a : A) → Grows m draft (f a draft))
    → Grows (n + m) session (continue o f draft)
Grows-continue n m session (done a) draft f g h = omega (arith, h a)
Grows-continue n m session null draft f g h = omega arith
Grows-continue n m session throws draft f g h = omega arith

module _ (p : Platform) where
  skip-Grows :
      (until : ℕ) (session : Session) → Grows 50 session (skip_message_keys p until session)
  skip-Grows until session = elim (skip_message_keys-Bounded p until session) [
    | inl same_session ↦
        (let e = ap (λ (s : Session). length s.skipped_keys) same_session in omega arith)
    | inr (low, high, index, stored) ↦ omega arith
  ]

module _ (p : Platform) (msg : RatchetMessage) where
  skip_until-Grows :
      (until : ℕ) (session : Session) → Grows 50 session (skip_until p msg until session)
  unfolding skip_until
  skip_until-Grows until session =
      Grows-continue 50 0 session (skip_message_keys p until session).0
        (skip_message_keys p until session).1 _ (skip-Grows p until session) (λ _. omega arith)

  next_send_chain-Grows :
      (pair : KeyPair) (root_key : Bytes) (session : Session)
      → Grows 0 session (next_send_chain p msg pair root_key session)
  next_send_chain-Grows pair root_key session =
      Grows-continue 0 0 session
        (or_throw (
          p.decode_base64 msg.header.ratchet_pub_key >>? λ peer.
          p.box_before peer pair.secret_key >>? λ dh_output. kdf_root p root_key dh_output))
        session (λ keys s. (done tt, start_send_chain p pair keys s)) (omega arith)
        (λ _. omega arith)

  dh_ratchet-Grows :
      (pair : KeyPair) (session : Session) → Grows 0 session (dh_ratchet p msg pair session)
  unfolding dh_ratchet
  dh_ratchet-Grows pair session =
      Grows-continue 0 0 session
        (or_throw (
          p.decode_base64 session.send_ratchet_priv_key >>? λ secret.
          mix_root p session.root_key secret msg.header.ratchet_pub_key))
        session (λ keys s. next_send_chain p msg pair keys.0 (start_receive_chain p msg keys s))
        (omega arith)
        (λ keys. next_send_chain-Grows pair keys.0 (start_receive_chain p msg keys session))

  follow_ratchet-Grows :
      (pair : KeyPair) (session : Session) → Grows 50 session (follow_ratchet p msg pair session)
  unfolding follow_ratchet
  follow_ratchet-Grows pair session =
      let P = Grows 50 session in
      let skipped = skip_until p msg (counter msg.header.pn) session in
      if-property P (is_new_key msg.header.ratchet_pub_key session.recv_ratchet_pub_key) _
        (done tt, session)
        (λ _.
          if-property P (truthy session.recv_chain_key)
            (continue skipped.0 (λ _ s. dh_ratchet p msg pair s) skipped.1)
            (dh_ratchet p msg pair session)
            (λ _.
              Grows-continue 50 0 session skipped.0 skipped.1 _
                (skip_until-Grows (counter msg.header.pn) session)
                (λ _. dh_ratchet-Grows pair skipped.1))
            (λ _. omega (arith, dh_ratchet-Grows pair session)))
        (λ _. omega arith)

  open_next-Grows : (session : Session) → Grows 0 session (open_next p msg session)
  unfolding open_next
  open_next-Grows session =
      if-property (Grows 0 session) (not (truthy session.recv_chain_key)) (null, session) _
        (λ _. omega arith)
        (λ _.
          Grows-continue 0 0 session
            (or_throw
              (p.decode_base64 (session.recv_chain_key or_else []) >>? λ key. kdf_chain p key))
            session
            (λ keys s. (text_or_null (open_message p msg keys.1), advance_receive p msg keys.0 s))
            (omega arith) (λ _. omega arith))

  decrypt_draft-Grows :
      (pair : KeyPair) (session : Session) → Grows 100 session (decrypt_draft p msg pair session)
  unfolding decrypt_draft
  decrypt_draft-Grows pair session =
      let followed = follow_ratchet p msg pair session in
      let skipped = λ (s : Session). skip_until p msg (counter msg.header.n) s in
      let both = continue followed.0 (λ _ s. skipped s) followed.1 in
      Grows-continue 100 0 session both.0 both.1 (λ _ s. open_next p msg s)
        (Grows-continue 50 50 session followed.0 followed.1 (λ _ s. skipped s)
          (follow_ratchet-Grows pair session)
          (λ _. skip_until-Grows (counter msg.header.n) followed.1))
        (λ _. open_next-Grows both.1)

  commit-Grows :
      (n : ℕ) (session : Session) (r : Outcome Text × Session)
      → Grows n session r
      → Grows n session (commit session r)
  commit-Grows n session (done t, draft) g = g
  commit-Grows n session (null, draft) g = omega arith
  commit-Grows n session (throws, draft) g = omega arith

  spend_skipped-Grows :
      (session : Session) (o : Outcome Text) → Grows 0 session (spend_skipped msg o session)
  spend_skipped-Grows session (done t) =
      omega (arith, length-remove (message_key_id msg) session.skipped_keys)
  spend_skipped-Grows session null = omega arith
  spend_skipped-Grows session throws = omega arith

  -- Whatever message arrives, `decrypt` stores at most 100 keys more than there were: 50 for each of
  -- the two chains that it can move forward.
  pub decrypt-Grows :
      (pair : KeyPair) (session : Session) → Grows 100 session (decrypt p msg pair session)
  unfolding decrypt decrypt_skipped
  decrypt-Grows pair session =
      let P = Grows 100 session in
      if-property P (not (validate_message msg)) (null, session) _ (λ _. omega arith)
        (λ _.
          if-property P (truthy (lookup (message_key_id msg) session.skipped_keys)) _ _
            (λ _. omega (arith, spend_skipped-Grows session _))
            (λ _. commit-Grows 100 session _ (decrypt_draft-Grows pair session)))
