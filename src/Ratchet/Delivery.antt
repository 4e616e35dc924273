-- ===== src/Ratchet/Delivery.antt =====
-- Two sessions on one chain: what one sends and the other reads, in order or out of order.
pub mod Order
pub mod Late
use messk.Prelude.{
  ℕ, suc, ◌+◌, ◌≤◌, ◌<◌, ◌≡◌, refl, ap, ◌∙◌, sym, Option, none, some, [], Text, truthy, nonempty,
  length, not, if◌then◌else◌, ◌or_else◌, arith, Bool, true, false, Option-cases, inl, inr, ◌⊎◌,
  same_refl, same,
}
use messk.Prelude.Dict.{Dict, lookup, remove}
use messk.Ratchet.Platform.{
  Platform, IsPlatform, Bytes, KeyPair, Session, RatchetMessage, sent_header,
}
use messk.Ratchet.Step.{
  Outcome, done, null, throws, Step, continue, or_throw, or_throw-done, throws-done, ◌>>?◌,
  >>?-some,
}
use messk.Ratchet.Keys.{
  kdf_chain, skip_message_keys, skip_loop, skipped_key_id, validate_message, counter,
}
use messk.Ratchet.Chain.{chain_after, chain_after-next, message_key_after, skipped_key_id_inj}
use messk.Ratchet.Skip.{skip_message_keys-ahead}
use messk.Prelude.Number.{is_integer, at_least}
use messk.Ratchet.Seal.{seal, decrypt_with_message_key}
use messk.Ratchet.Open.{decrypt-seal, seal-valid}
use messk.Ratchet.Send.{encrypt, encrypt_on_chain, ensure_send_chain, advance_send, seal_next}
use messk.Ratchet.Receive.{
  is_new_key, commit, open_message, advance_receive, decrypt, decrypt_draft, follow_ratchet,
  skip_until, open_next, message_key_id,
}

-- The sender is `ahead` messages further on the chain than the receiver, who has no key stored for
-- a message that it still expects.
pub record Ahead (p : Platform) (sender receiver : Session) (ahead : ℕ) : Type 0 where
  pub sent : Bytes
  pub expected : Bytes
  pub send_key : sender.send_chain_key ≡ some (p.encode_base64 sent)
  pub recv_key : receiver.recv_chain_key ≡ some (p.encode_base64 expected)
  pub sent_long : 0 < length sent
  pub expected_long : 0 < length expected
  pub chain : chain_after p expected ahead ≡ some sent
  pub index : sender.send_chain_index ≡ receiver.recv_chain_index + ahead
  pub peer : receiver.recv_ratchet_pub_key ≡ some sender.send_ratchet_pub_key
  pub named : nonempty sender.send_ratchet_pub_key ≡ true
  pub fresh :
      (j : ℕ)
      → receiver.recv_chain_index ≤ j
      → lookup (skipped_key_id sender.send_ratchet_pub_key j) receiver.skipped_keys ≡ none

module _ (p : Platform) (h : IsPlatform p) (pair : KeyPair) (nonce : Bytes) (plaintext : Text)
    (sender : Session) where
  -- A message that has been sent: its key, its seal, and the sender's next state.
  abbrev pub Sent : Bytes → RatchetMessage → Type 0
  Sent sent msg =
      (next : Bytes) × (key : Bytes) × (kdf_chain p sent ≡ some (next, key))
      × (seal p nonce key sender.send_ratchet_pub_key sender.send_chain_index
            sender.previous_send_chain_length plaintext
          ≡ some msg)
      × ((encrypt p pair nonce plaintext sender).1 ≡ advance_send p next sender)

  on_chain :
      (sent : Bytes)
      → sender.send_chain_key ≡ some (p.encode_base64 sent)
      → 0 < length sent
      → encrypt p pair nonce plaintext sender
        ≡ seal_next p nonce plaintext sender (kdf_chain p sent)
  unfolding encrypt encrypt_on_chain ensure_send_chain
  on_chain sent key long =
      let ready : truthy sender.send_chain_key ≡ true = rw key (h.base64_nonempty sent long) in
      let decoded : p.decode_base64 (sender.send_chain_key or_else []) ≡ some sent =
        rw key (h.base64 sent) in
      simp (ready, decoded)

  pub encrypt-Sent :
      (sent : Bytes) (msg : RatchetMessage)
      → sender.send_chain_key ≡ some (p.encode_base64 sent)
      → 0 < length sent
      → (encrypt p pair nonce plaintext sender).0 ≡ done msg
      → Sent sent msg
  encrypt-Sent sent msg key long e =
      let q = on_chain sent key long in
      elim (Option-cases (kdf_chain p sent)) [
        | inl failed ↦ absurd (
            throws-done (
              sym (ap (λ o. (seal_next p nonce plaintext sender o).0) failed)
              ∙ sym (ap (λ r. r.0) q)
              ∙ e))
        | inr ((next, k), derived) ↦
            let q' = q ∙ ap (seal_next p nonce plaintext sender) derived in
            (next, k, derived, or_throw-done _ msg (sym (ap (λ r. r.0) q') ∙ e), ap (λ r. r.1) q')
      ]

module _ (p : Platform) (h : IsPlatform p) (msg : RatchetMessage) (session : Session) where
  open_next-opens :
      (c next key : Bytes) (plaintext : Text)
      → session.recv_chain_key ≡ some (p.encode_base64 c)
      → 0 < length c
      → kdf_chain p c ≡ some (next, key)
      → open_message p msg key ≡ some plaintext
      → nonempty plaintext ≡ true
      → open_next p msg session ≡ (done plaintext, advance_receive p msg next session)
  unfolding open_next
  open_next-opens c next key plaintext recv_key long derived opens nonempty_text =
      let ready : truthy session.recv_chain_key ≡ true = rw recv_key (h.base64_nonempty c long) in
      let decoded : p.decode_base64 (session.recv_chain_key or_else []) ≡ some c =
        rw recv_key (h.base64 c) in
      simp (ready, decoded, derived, opens, nonempty_text)

pub valid_header :
    (msg : RatchetMessage) (n pn : ℕ) (pub_key : Text)
    → msg.header ≡ sent_header pub_key n pn
    → nonempty pub_key ≡ true
    → nonempty msg.ciphertext ≡ true
    → validate_message msg ≡ true
unfolding validate_message is_integer at_least
valid_header msg n pn pub_key header named cipher = rw (header, named, cipher) (ground arith)

module _ (p : Platform) (pair : KeyPair) (msg : RatchetMessage) (receiver : Session) where
  pub decrypt-fresh :
      validate_message msg ≡ true
      → lookup (message_key_id msg) receiver.skipped_keys ≡ none
      → decrypt p msg pair receiver ≡ commit receiver (decrypt_draft p msg pair receiver)
  unfolding decrypt
  decrypt-fresh valid not_stored = simp (valid, not_stored)

  decrypt_draft-same_chain :
      (draft : Session)
      → is_new_key msg.header.ratchet_pub_key receiver.recv_ratchet_pub_key ≡ false
      → skip_message_keys p (counter msg.header.n) receiver ≡ (done true, draft)
      → decrypt_draft p msg pair receiver ≡ open_next p msg draft
  unfolding decrypt_draft follow_ratchet skip_until
  decrypt_draft-same_chain draft same_key skips = simp (same_key, skips)

module _ (p : Platform) (h : IsPlatform p) (pair : KeyPair) (msg : RatchetMessage)
    (receiver : Session) where
  -- The path through `decrypt` for a message `n` ahead on the receiver's chain.
  pub decrypt-ahead :
      (k c next key : Bytes) (n pn : ℕ) (pub_key plaintext : Text)
      → receiver.recv_chain_key ≡ some (p.encode_base64 k)
      → 0 < length k
      → 0 < length c
      → receiver.recv_ratchet_pub_key ≡ some pub_key
      → nonempty pub_key ≡ true
      → chain_after p k n ≡ some c
      → n ≤ 50
      → kdf_chain p c ≡ some (next, key)
      → msg.header ≡ sent_header pub_key (receiver.recv_chain_index + n) pn
      → nonempty msg.ciphertext ≡ true
      → lookup (skipped_key_id pub_key (receiver.recv_chain_index + n)) receiver.skipped_keys ≡ none
      → decrypt_with_message_key p msg.ciphertext key pub_key (receiver.recv_chain_index + n) pn
        ≡ some plaintext
      → nonempty plaintext ≡ true
      → (keys : Dict Text) × (skip_loop p pub_key n receiver.recv_chain_index k
            receiver.skipped_keys
          ≡ some (c, keys))
        × (decrypt p msg pair receiver ≡ (
          done plaintext,
          record receiver {
            recv_chain_key = some (p.encode_base64 next);
            recv_chain_index = receiver.recv_chain_index + n + 1;
            skipped_keys = keys;
          },
        ))
  decrypt-ahead k c next key n pn pub_key plaintext recv_key long c_long peer named chain reach
        derived header cipher fresh opens nonempty_text =
      let (keys, loop, skips) =
        skip_message_keys-ahead p h receiver k pub_key n c recv_key long peer named chain reach in
      let same_key : is_new_key msg.header.ratchet_pub_key receiver.recv_ratchet_pub_key ≡ false =
        rw (header, peer, same_refl pub_key) refl in
      let until : counter msg.header.n ≡ receiver.recv_chain_index + n = rw header refl in
      (
        keys,
        loop,
        decrypt-fresh p pair msg receiver
              (valid_header msg (receiver.recv_chain_index + n) pn pub_key header named cipher)
              (rw header fresh)
            ∙ ap (commit receiver) (
                decrypt_draft-same_chain p pair msg receiver _ same_key
                  (ap (λ i. skip_message_keys p i receiver) until ∙ skips)
                ∙ open_next-opens p h msg _ c next key plaintext refl c_long derived
                    (rw header opens) nonempty_text),
      )
