-- ===== src/Ratchet/Turn/Dialogue.antt =====
-- Dialogues: the two parties take turns, each message on a new chain of its sender.
use messk.Prelude.{
  ℕ, ◌-◌, ◌≤◌, ◌≡◌, refl, sym, ap, ◌∙◌, true, false, not, ◌||◌, ltb, Bool, List, [], ◌∷◌, Option,
  none, some, Text, nonempty, truthy, if◌then◌else◌, arith, inl, inr,
}
use messk.Prelude.Dict.{Dict}
use messk.Ratchet.Platform.{Platform, IsPlatform, Bytes, KeyPair, Session, RatchetMessage}
use messk.Ratchet.Step.{Outcome, done}
use messk.Ratchet.Keys.{skip_message_keys, store_skipped, skip_from}
use messk.Ratchet.Skip.{skip_message_keys-ahead}
use messk.Ratchet.Send.{encrypt, advance_send}
use messk.Ratchet.Receive.{decrypt}
use messk.Ratchet.Delivery.{Ahead, encrypt-Sent}
use messk.Ratchet.Turn.{IsKeyExchange, IsUnseen, InReach, Turn}
use messk.Ratchet.Turn.Reply.{decrypt-Turn, turned-counters}

-- Within reach of a chain, skipping succeeds.
pub Ahead-InReach :
    (p : Platform) (h : IsPlatform p) (sender receiver : Session) (d : ℕ)
    → Ahead p sender receiver d
    → d ≤ 50
    → InReach p sender.send_chain_index receiver
Ahead-InReach p h sender receiver d a reach = inr (
    rw a.index (
      ap (λ (r : Outcome Bool × Session). r.0)
        (skip_message_keys-ahead p h receiver a.expected sender.send_ratchet_pub_key d a.sent
          a.recv_key a.expected_long a.peer a.named a.chain reach).2))

module _ (p : Platform) (until : ℕ) (session session' : Session) where
  skip_branches :
      (b b' b'' : Bool) (o : Option (Bytes × Dict Text))
      → (if b
          then (done false, session)
          else if b'
          then (done true, session)
          else if b''
          then (done false, session)
          else store_skipped p until session o).0
        ≡ (if b
            then (done false, session')
            else if b'
            then (done true, session')
            else if b''
            then (done false, session')
            else store_skipped p until session' o).0
  skip_branches true b' b'' o = refl
  skip_branches false true b'' o = refl
  skip_branches false false true o = refl
  skip_branches false false false none = refl
  skip_branches false false false (some (c, keys)) = refl

module _ (p : Platform) (next : Bytes) (until : ℕ) (session : Session) where
  skip-advance_send :
      (skip_message_keys p until session).0
      ≡ (skip_message_keys p until (advance_send p next session)).0
  unfolding skip_message_keys
  skip-advance_send =
      skip_branches p until session (advance_send p next session)
        (not (truthy session.recv_chain_key) || not (truthy session.recv_ratchet_pub_key))
        (ltb until session.recv_chain_index) (ltb 50 (until - session.recv_chain_index))
        (skip_from p until session)

  -- Sending does not change what can be received.
  advance_send-InReach : InReach p until session → InReach p until (advance_send p next session)
  advance_send-InReach (inl none_yet) = inl none_yet
  advance_send-InReach (inr reached) = inr (sym skip-advance_send ∙ reached)

-- The sender stands across a turn from the receiver, and neither has missed more than 50 messages
-- of a chain.
pub record Ready (p : Platform) (Generated : KeyPair → Type 0) (sender receiver : Session)
    : Type 0 where
  pub turn : Turn p Generated sender receiver
  pub there : InReach p sender.previous_send_chain_length receiver
  pub back : InReach p receiver.send_chain_index sender
  pub few : sender.send_chain_index ≤ 50

module _ (p : Platform) (h : IsPlatform p) (Generated : KeyPair → Type 0)
    (x : IsKeyExchange p Generated) where
  -- A round: a message is sent and read, and then the receiver may speak.
  round :
      (pair reply : KeyPair) (nonce : Bytes) (plaintext : Text) (sender receiver : Session)
      (msg : RatchetMessage)
      → Ready p Generated sender receiver
      → Generated reply
      → IsUnseen (p.encode_base64 reply.public_key) sender
      → (encrypt p pair nonce plaintext sender).0 ≡ done msg
      → nonempty plaintext ≡ true
      → ((decrypt p msg reply receiver).0 ≡ done plaintext)
        × Ready p Generated
            (decrypt p msg reply receiver).1
            (encrypt p pair nonce plaintext sender).1
  round pair reply nonce plaintext sender receiver msg r gen unseen e written =
      let (reads, ahead, turn) =
        decrypt-Turn p h Generated x pair reply nonce plaintext sender receiver msg r.turn gen
          unseen r.there r.few e written in
      let (start, announced) =
        turned-counters p h Generated x pair reply nonce plaintext sender receiver msg r.turn gen
          r.there r.few e written in
      let sent =
        encrypt-Sent p h pair nonce plaintext sender r.turn.sent msg r.turn.send_key
          r.turn.sent_long e in
      (
        reads,
        record {
          turn = turn;
          there =
              rw (announced, sent.4)
                (advance_send-InReach p sent.0 receiver.send_chain_index sender r.back);
          back = Ahead-InReach p h _ _ 0 ahead (omega arith);
          few = omega (arith, start);
        },
      )

-- What was said in turn, with what the others read.
pub data Dialogue (p : Platform) (Generated : KeyPair → Type 0)
    : List (Text × Outcome Text) → Session → Session → Type 0 where
  silence : {sender receiver : Session} → Dialogue p Generated [] sender receiver
  say :
      {sender receiver : Session} {rest : List (Text × Outcome Text)} (pair reply : KeyPair)
      (nonce : Bytes) (plaintext : Text) (msg : RatchetMessage)
      → Generated reply
      → IsUnseen (p.encode_base64 reply.public_key) sender
      → (encrypt p pair nonce plaintext sender).0 ≡ done msg
      → nonempty plaintext ≡ true
      → Dialogue p Generated rest
          (decrypt p msg reply receiver).1
          (encrypt p pair nonce plaintext sender).1
      → Dialogue p Generated ((plaintext, (decrypt p msg reply receiver).0) ∷ rest) sender receiver

abbrev pub AllRead : List (Text × Outcome Text) → Type 0
AllRead [] = Unit
AllRead ((said, heard) ∷ rest) = (heard ≡ done said) × AllRead rest

-- In a dialogue of any length, in which the parties take turns, each sends texts that are not empty
-- and draws key pairs that the other has not met, every message is read as it was said, provided
-- that the first sender stands across a turn from the receiver with at most 50 messages missed of
-- each chain.
pub Dialogue-AllRead :
    (p : Platform) (h : IsPlatform p) (Generated : KeyPair → Type 0) (x : IsKeyExchange p Generated)
    (said : List (Text × Outcome Text)) (sender receiver : Session)
    → Ready p Generated sender receiver
    → Dialogue p Generated said sender receiver
    → AllRead said
Dialogue-AllRead p h Generated x _ sender receiver r silence = tt
Dialogue-AllRead p h Generated x _ sender receiver r
      (say pair reply nonce plaintext msg gen unseen e written d) =
    let (reads, ready) =
      round p h Generated x pair reply nonce plaintext sender receiver msg r gen unseen e written in
    (reads, Dialogue-AllRead p h Generated x _ _ _ ready d)
