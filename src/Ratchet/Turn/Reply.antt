-- ===== src/Ratchet/Turn/Reply.antt =====
-- The sessions after it, and the reply.
use messk.Prelude.{◌≤◌, ◌≡◌, refl, ap, ◌∙◌, true, Text, nonempty, arith}
use messk.Ratchet.Platform.{Platform, IsPlatform, Bytes, KeyPair, Session, RatchetMessage}
use messk.Ratchet.Step.{done}
use messk.Ratchet.Send.{encrypt}
use messk.Ratchet.Receive.{decrypt}
use messk.Ratchet.Delivery.{Ahead}
use messk.Ratchet.Delivery.Order.{chain_after-none}
use messk.Ratchet.Turn.{IsKeyExchange, IsUnseen, InReach, Turn}
use messk.Ratchet.Turn.Arrival.{Arrival, arrival}

module _ (p : Platform) (h : IsPlatform p) (Generated : KeyPair → Type 0)
    (x : IsKeyExchange p Generated) (pair reply : KeyPair) (nonce : Bytes) (plaintext : Text)
    (sender receiver : Session) (msg : RatchetMessage) where
  -- After it the two are in step on the sender's chain.
  Arrival-Ahead :
      (t : Turn p Generated sender receiver)
      → Arrival p h Generated x pair reply nonce plaintext sender receiver msg t
      → Ahead p (encrypt p pair nonce plaintext sender).1 (decrypt p msg reply receiver).1 0
  Arrival-Ahead t r =
      rw (r.reads, r.sends)
        (record {
          sent = r.next;
          expected = r.next;
          send_key = refl;
          recv_key = refl;
          sent_long = r.next_long;
          expected_long = r.next_long;
          chain = chain_after-none p r.next;
          index = omega arith;
          peer = r.peer;
          named = r.named;
          fresh = λ j later. r.older j (omega arith);
        })

  -- The receiver's new chain comes from the root key that the sender holds.
  Arrival-Turn :
      (t : Turn p Generated sender receiver)
      → Arrival p h Generated x pair reply nonce plaintext sender receiver msg t
      → Generated reply
      → IsUnseen (p.encode_base64 reply.public_key) sender
      → Turn p Generated (decrypt p msg reply receiver).1 (encrypt p pair nonce plaintext sender).1
  Arrival-Turn t r gen unseen =
      rw (r.reads, r.sends)
        (record {
          mine = reply;
          theirs = t.mine;
          generated = gen;
          root = t.next_root;
          dh = r.dh;
          next_root = r.next_root;
          chain = r.chain;
          sent = r.chain;
          recv_root = t.send_root;
          recv_secret = t.send_secret;
          send_pub = refl;
          send_secret = refl;
          exchange = r.exchange;
          mixed = r.mixed;
          chain_long = omega (arith, r.long);
          sent_long = omega (arith, r.long);
          send_root = refl;
          send_key = refl;
          progress = chain_after-none p r.chain;
          unseen = unseen;
        })

  -- The new chain starts at 0, and announces how many messages the old one had.
  pub turned-counters :
      Turn p Generated sender receiver
      → Generated reply
      → InReach p sender.previous_send_chain_length receiver
      → sender.send_chain_index ≤ 50
      → (encrypt p pair nonce plaintext sender).0 ≡ done msg
      → nonempty plaintext ≡ true
      → ((decrypt p msg reply receiver).1.send_chain_index ≡ 0)
        × ((decrypt p msg reply receiver).1.previous_send_chain_length ≡ receiver.send_chain_index)
  turned-counters t gen in_reach reach e written =
      let r =
        arrival p h Generated x pair reply nonce plaintext sender receiver msg t gen in_reach reach
          e written in
      (
        ap (λ q. q.1.send_chain_index) r.reads,
        ap (λ q. q.1.previous_send_chain_length) r.reads ∙ r.kept.2,
      )

  -- The sender has derived its chain from a key that the receiver has not met. If the rest of the
  -- receiver's old chain is in reach, and the sender has sent at most 50 messages on the new one,
  -- then the next message decrypts to its text, if that is not empty. Afterwards the two are in step
  -- on the sender's chain, and with a generated key pair that the sender has not met the receiver has
  -- derived its own new chain, which stands to the sender as the sender's did to the receiver.
  pub decrypt-Turn :
      Turn p Generated sender receiver
      → Generated reply
      → IsUnseen (p.encode_base64 reply.public_key) sender
      → InReach p sender.previous_send_chain_length receiver
      → sender.send_chain_index ≤ 50
      → (encrypt p pair nonce plaintext sender).0 ≡ done msg
      → nonempty plaintext ≡ true
      → ((decrypt p msg reply receiver).0 ≡ done plaintext)
        × Ahead p (encrypt p pair nonce plaintext sender).1 (decrypt p msg reply receiver).1 0
        × Turn p Generated
            (decrypt p msg reply receiver).1
            (encrypt p pair nonce plaintext sender).1
  decrypt-Turn t gen unseen in_reach reach e written =
      let r =
        arrival p h Generated x pair reply nonce plaintext sender receiver msg t gen in_reach reach
          e written in
      (ap (λ q. q.0) r.reads, Arrival-Ahead t r, Arrival-Turn t r gen unseen)
