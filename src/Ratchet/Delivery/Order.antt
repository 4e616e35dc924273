-- ===== src/Ratchet/Delivery/Order.antt =====
-- Delivery in order, ahead of order, and late.
use messk.Prelude.{
  ℕ, suc, ◌+◌, ◌≤◌, ◌<◌, ◌≡◌, refl, ap, ◌∙◌, sym, Option, none, some, Text, nonempty, length,
  ◌or_else◌, arith, true, same_refl, if◌then◌else◌, subst,
}
use messk.Prelude.Dict.{Dict, lookup}
use messk.Ratchet.Platform.{
  Platform, IsPlatform, Bytes, KeyPair, Session, RatchetMessage, sent_header,
}
use messk.Ratchet.Step.{done, >>?-some}
use messk.Ratchet.Keys.{kdf_chain, skip_loop, skipped_key_id}
use messk.Ratchet.Chain.{chain_after, chain_after-next, skipped_key_id_inj, skip_loop-keeps}
use messk.Ratchet.Open.{decrypt-seal, seal-valid, same_header}
use messk.Ratchet.Send.{encrypt}
use messk.Ratchet.Receive.{decrypt}
use messk.Ratchet.Delivery.{Ahead, Sent, encrypt-Sent, decrypt-ahead}

pub kdf_chain-long :
    (p : Platform) (h : IsPlatform p) (c next key : Bytes)
    → kdf_chain p c ≡ some (next, key)
    → (0 < length next) × (0 < length key)
unfolding kdf_chain
kdf_chain-long p h c next key e =
    let (k, signed, e1) = >>?-some (p.sign c _) _ (next, key) e in
    let (n, signed', e2) = >>?-some (p.sign c _) _ (next, key) e1 in
    let l = h.sign_length c _ k signed in
    let l' = h.sign_length c _ n signed' in
    let q : n ≡ next = ap (λ (o : Option (Bytes × Bytes)). (o or_else (n, k)).0) e2 in
    let q' : k ≡ key = ap (λ (o : Option (Bytes × Bytes)). (o or_else (n, k)).1) e2 in
    (rw (← q) (omega arith), rw (← q') (omega arith))

pub chain_after-none : (p : Platform) (k : Bytes) → chain_after p k 0 ≡ some k
unfolding chain_after
chain_after-none p k = refl

pub same_header_refl : (k : Text) (n pn : ℕ) → same_header k n pn k n pn ≡ true
same_header_refl k n pn = ground (arith, same_refl k)

module _ (p : Platform) (h : IsPlatform p) (pair : KeyPair) (nonce : Bytes) (plaintext : Text)
    (sender receiver : Session) (msg : RatchetMessage) (d : ℕ) where
  -- A message that is sent puts the sender one further ahead of a receiver on the same chain.
  pub encrypt-Ahead :
      Ahead p sender receiver d
      → (encrypt p pair nonce plaintext sender).0 ≡ done msg
      → Ahead p (encrypt p pair nonce plaintext sender).1 receiver (d + 1)
  encrypt-Ahead a e =
      let (next, key, derived, sealed, after) =
        encrypt-Sent p h pair nonce plaintext sender a.sent msg a.send_key a.sent_long e in
      let later = (chain_after-next p a.expected d a.sent next key a.chain derived).0 in
      subst (λ s. Ahead p s receiver (d + 1)) (sym after)
        (record {
          sent = next;
          expected = a.expected;
          send_key = refl;
          recv_key = a.recv_key;
          sent_long = (kdf_chain-long p h a.sent next key derived).0;
          expected_long = a.expected_long;
          chain = (let one_more : d + 1 ≡ suc d = omega arith in rw one_more later);
          index = omega (arith, a.index);
          peer = a.peer;
          named = a.named;
          fresh = a.fresh;
        })

  -- What the receiver then does with the message.
  pub delivered :
      (a : Ahead p sender receiver d)
      → d ≤ 50
      → (sent : Sent p h pair nonce plaintext sender a.sent msg) → nonempty plaintext ≡ true
      → (reply : KeyPair)
      → (keys : Dict Text) × (skip_loop p sender.send_ratchet_pub_key d receiver.recv_chain_index
            a.expected receiver.skipped_keys
          ≡ some (a.sent, keys))
        × (decrypt p msg reply receiver ≡ (
          done plaintext,
          record receiver {
            recv_chain_key = some (p.encode_base64 sent.0);
            recv_chain_index = receiver.recv_chain_index + d + 1;
            skipped_keys = keys;
          },
        ))
  delivered a reach (next, key, derived, sealed, after) written reply =
      let pub_key = sender.send_ratchet_pub_key in
      let pn = sender.previous_send_chain_length in
      let (header, cipher) =
        seal-valid p h nonce key pub_key sender.send_chain_index pn plaintext msg sealed in
      let opens =
        decrypt-seal p h nonce key pub_key sender.send_chain_index pn plaintext msg pub_key
          sender.send_chain_index pn sealed in
      decrypt-ahead p h reply msg receiver a.expected a.sent next key d pn pub_key plaintext
        a.recv_key a.expected_long a.sent_long a.peer a.named a.chain reach derived
        (header ∙ ap (λ n. sent_header pub_key n pn) a.index) cipher
        (a.fresh (receiver.recv_chain_index + d) (omega arith))
        (rw (← a.index) (
          opens
          ∙ ap (λ b. if b then some plaintext else none)
              (same_header_refl pub_key sender.send_chain_index pn)))
        written

  -- The receiver's stored keys after it are of earlier messages.
  pub fresh-skip_loop :
      (a : Ahead p sender receiver d)
      → (keys : Dict Text)
      → skip_loop p sender.send_ratchet_pub_key d receiver.recv_chain_index a.expected
          receiver.skipped_keys
        ≡ some (a.sent, keys)
      → (j : ℕ) → receiver.recv_chain_index + d ≤ j
      → lookup (skipped_key_id sender.send_ratchet_pub_key j) keys ≡ none
  fresh-skip_loop a keys loop j later =
      skip_loop-keeps p sender.send_ratchet_pub_key d receiver.recv_chain_index a.expected
        receiver.skipped_keys a.sent keys _ loop
        (λ i low high e. let same_number = (skipped_key_id_inj _ _ i j e).1 in absurd (omega arith))
      ∙ a.fresh j (omega arith)

  -- If the sender is at most 50 messages ahead on the receiver's chain, then a message that it
  -- encrypts decrypts to its text, if that is not empty; and afterwards the two are in step on
  -- the chain.
  pub decrypt-encrypt :
      Ahead p sender receiver d
      → d ≤ 50
      → (encrypt p pair nonce plaintext sender).0 ≡ done msg
      → nonempty plaintext ≡ true
      → (reply : KeyPair)
      → ((decrypt p msg reply receiver).0 ≡ done plaintext)
        × Ahead p (encrypt p pair nonce plaintext sender).1 (decrypt p msg reply receiver).1 0
  decrypt-encrypt a reach e written reply =
      let sent = encrypt-Sent p h pair nonce plaintext sender a.sent msg a.send_key a.sent_long e in
      let (keys, loop, q) = delivered a reach sent written reply in
      let long = (kdf_chain-long p h a.sent sent.0 sent.1 sent.2).0 in
      (
        ap (λ r. r.0) q,
        rw (q, sent.4)
            (record {
              sent = sent.0;
              expected = sent.0;
              send_key = refl;
              recv_key = refl;
              sent_long = long;
              expected_long = long;
              chain = chain_after-none p sent.0;
              index = omega (arith, a.index);
              peer = a.peer;
              named = a.named;
              fresh = λ j later. fresh-skip_loop a keys loop j (omega arith);
            }),
      )
