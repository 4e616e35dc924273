-- ===== src/Ratchet/Delivery/Late.antt =====
-- A message that arrives after a later one is read with the key that was stored for it.
use messk.Prelude.{
  ℕ, ◌+◌, ◌≤◌, ◌<◌, ◌≡◌, refl, ap, ◌∙◌, sym, Option, none, some, [], Text, nonempty, length,
  ◌or_else◌, arith, true, if◌then◌else◌,
}
use messk.Prelude.Dict.{lookup, remove, lookup-remove_self}
use messk.Ratchet.Platform.{Platform, IsPlatform, Bytes, KeyPair, Session, RatchetMessage}
use messk.Ratchet.Step.{done}
use messk.Ratchet.Keys.{skipped_key_id, validate_message}
use messk.Ratchet.Chain.{chain_after-next, skip_loop-stores}
use messk.Ratchet.Open.{decrypt-seal, seal-valid}
use messk.Ratchet.Send.{encrypt}
use messk.Ratchet.Receive.{decrypt, decrypt_skipped, message_key_id, open_message}
use messk.Ratchet.Delivery.{Ahead, encrypt-Sent, valid_header}
use messk.Ratchet.Delivery.Order.{encrypt-Ahead, delivered, kdf_chain-long, same_header_refl}

module _ (p : Platform) (h : IsPlatform p) (reply : KeyPair) (msg : RatchetMessage)
    (receiver : Session) where
  decrypt-stored :
      (key : Bytes) (t : Text)
      → validate_message msg ≡ true
      → lookup (message_key_id msg) receiver.skipped_keys ≡ some (p.encode_base64 key)
      → 0 < length key
      → open_message p msg key ≡ some t
      → nonempty t ≡ true
      → decrypt p msg reply receiver ≡ (
        done t,
        record receiver { skipped_keys = remove (message_key_id msg) receiver.skipped_keys },
      )
  unfolding decrypt decrypt_skipped
  decrypt-stored key t valid stored long opens written =
      simp (valid, stored, h.base64_nonempty key long, h.base64 key, opens, written)

expected_unique :
    (p : Platform) (h : IsPlatform p) (sender sender' receiver : Session) (d d' : ℕ)
    (a : Ahead p sender receiver d) (a' : Ahead p sender' receiver d')
    → a.expected ≡ a'.expected
expected_unique p h sender sender' receiver d d' a a' =
    let decoded = λ (o : Option Text). p.decode_base64 (o or_else []) or_else [] in
    ap (λ o. o or_else []) (sym (h.base64 a.expected))
    ∙ sym (ap decoded a.recv_key)
    ∙ ap decoded a'.recv_key
    ∙ ap (λ o. o or_else []) (h.base64 a'.expected)

module _ (p : Platform) (h : IsPlatform p) (pair : KeyPair) (nonce nonce' : Bytes)
    (first second : Text) (sender receiver : Session) (m m' : RatchetMessage) (d : ℕ) where
  -- Of two messages sent in a row, by a sender less than 50 ahead, the second may arrive first:
  -- both decrypt to their texts, if these are not empty, and no key for the first one is kept
  -- after it.
  pub decrypt-out_of_order :
      Ahead p sender receiver d
      → d + 1 ≤ 50
      → (encrypt p pair nonce first sender).0 ≡ done m
      → (encrypt p pair nonce' second (encrypt p pair nonce first sender).1).0 ≡ done m'
      → nonempty first ≡ true
      → nonempty second ≡ true
      → (reply reply' : KeyPair)
      → ((decrypt p m' reply receiver).0 ≡ done second)
        × ((decrypt p m reply' (decrypt p m' reply receiver).1).0 ≡ done first)
        × (lookup
              (message_key_id m)
              (decrypt p m reply' (decrypt p m' reply receiver).1).1.skipped_keys
            ≡ none)
  decrypt-out_of_order a reach e e' written written' reply reply' =
      let sender' = (encrypt p pair nonce first sender).1 in
      let pub_key = sender.send_ratchet_pub_key in
      let pn = sender.previous_send_chain_length in
      let sent = encrypt-Sent p h pair nonce first sender a.sent m a.send_key a.sent_long e in
      let a' = encrypt-Ahead p h pair nonce first sender receiver m d a e in
      let sent' =
        encrypt-Sent p h pair nonce' second sender' a'.sent m' a'.send_key a'.sent_long e' in
      let (keys, loop, q) =
        delivered p h pair nonce' second sender' receiver m' (d + 1) a' reach sent' written'
          reply in
      let same_pub_key : sender'.send_ratchet_pub_key ≡ pub_key =
        ap (λ s. s.send_ratchet_pub_key) sent.4 in
      let expected = expected_unique p h sender' sender receiver (d + 1) d a' a in
      let derived = (chain_after-next p a.expected d a.sent sent.0 sent.1 a.chain sent.2).1 in
      let stored =
        skip_loop-stores p sender'.send_ratchet_pub_key (d + 1) receiver.recv_chain_index
          a'.expected receiver.skipped_keys a'.sent keys d sent.1 loop (omega arith)
          (rw expected derived) in
      let (header, cipher) =
        seal-valid p h nonce sent.1 pub_key sender.send_chain_index pn first m sent.3 in
      let id : message_key_id m
          ≡ skipped_key_id sender'.send_ratchet_pub_key (receiver.recv_chain_index + d) =
        rw (header, same_pub_key, a.index) refl in
      let opens =
        decrypt-seal p h nonce sent.1 pub_key sender.send_chain_index pn first m pub_key
          sender.send_chain_index pn sent.3
        ∙ ap (λ b. if b then some first else none)
            (same_header_refl pub_key sender.send_chain_index pn) in
      let late =
        decrypt-stored p h reply' m (decrypt p m' reply receiver).1 sent.1 first
          (valid_header m sender.send_chain_index pn pub_key header a.named cipher)
          (rw (q, id) stored) (kdf_chain-long p h a.sent sent.0 sent.1 sent.2).1 (rw header opens)
          written in
      (
        ap (λ r. r.0) q,
        ap (λ r. r.0) late,
        ap (λ r. lookup (message_key_id m) r.1.skipped_keys) late
            ∙ lookup-remove_self (message_key_id m) _,
      )
