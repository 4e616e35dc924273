-- ===== src/Ratchet/Turn/Arrival.antt =====
-- The first message that arrives on a new chain.
use messk.Prelude.{
  ℕ, ◌+◌, ◌<◌, some, length, ◌≤◌, ◌≡◌, refl, sym, ap, ◌∙◌, true, false, none, Text, nonempty,
  same_refl, arith, subst,
}
use messk.Prelude.Dict.{Dict, lookup}
use messk.Ratchet.Platform.{
  Platform, IsPlatform, Bytes, KeyPair, Session, RatchetMessage, sent_header, Header,
}
use messk.Ratchet.Step.{Outcome, done, null, throws}
use messk.Ratchet.Keys.{kdf_root, skipped_key_id, validate_message}
use messk.Ratchet.Open.{seal-valid}
use messk.Ratchet.Send.{encrypt, advance_send, start_send_chain}
use messk.Ratchet.Receive.{
  decrypt, decrypt_draft, follow_ratchet, commit, message_key_id, is_new_key, start_receive_chain,
}
use messk.Ratchet.Delivery.{Ahead, encrypt-Sent, valid_header, decrypt-fresh}
use messk.Ratchet.Delivery.Order.{delivered, kdf_chain-long, fresh-skip_loop}
use messk.Ratchet.Turn.{IsKeyExchange, InReach, Turn}
use messk.Ratchet.Turn.Exchange.{kdf_root-keys, dh_ratchet-chains}
use messk.Ratchet.Turn.Skipping.{Kept, follow_ratchet-turns}

commit-done :
    (s s' : Session) (r : Outcome Text × Session) (t : Text) (after : Session)
    → commit s r ≡ (done t, after)
    → commit s' r ≡ (done t, after)
commit-done s s' (done u, draft) t after e = e
commit-done s s' (null, draft) t after e = absurd (cc (ap (λ (q : Outcome Text × Session). q.0) e))
commit-done s s' (throws, draft) t after e =
    absurd (cc (ap (λ (q : Outcome Text × Session). q.0) e))

module _ (p : Platform) (msg : RatchetMessage) (pair : KeyPair) (session turned : Session) where
  -- After the step, the draft goes on as on the new chain.
  decrypt_draft-turned :
      follow_ratchet p msg pair session ≡ (done tt, turned)
      → is_new_key msg.header.ratchet_pub_key turned.recv_ratchet_pub_key ≡ false
      → decrypt_draft p msg pair session ≡ decrypt_draft p msg pair turned
  unfolding decrypt_draft follow_ratchet
  decrypt_draft-turned turns known = simp (turns, known)

  decrypt-turned :
      follow_ratchet p msg pair session ≡ (done tt, turned)
      → is_new_key msg.header.ratchet_pub_key turned.recv_ratchet_pub_key ≡ false
      → validate_message msg ≡ true
      → lookup (message_key_id msg) session.skipped_keys ≡ none
      → lookup (message_key_id msg) turned.skipped_keys ≡ none
      → (t : Text) (after : Session) → decrypt p msg pair turned ≡ (done t, after)
      → decrypt p msg pair session ≡ (done t, after)
  decrypt-turned turns known valid fresh fresh' t after e =
      decrypt-fresh p pair msg session valid fresh
      ∙ ap (commit session) (decrypt_draft-turned turns known)
      ∙ commit-done turned session _ t after
          (sym (decrypt-fresh p pair msg turned valid fresh') ∙ e)

module _ (p : Platform) (h : IsPlatform p) (Generated : KeyPair → Type 0)
    (x : IsKeyExchange p Generated) (pair reply : KeyPair) (nonce : Bytes) (plaintext : Text)
    (sender receiver : Session) (msg : RatchetMessage) where
  -- The draft after the step of the ratchet is on the sender's chain.
  turned-Ahead :
      (t : Turn p Generated sender receiver)
      → msg.header
        ≡ sent_header sender.send_ratchet_pub_key sender.send_chain_index
            sender.previous_send_chain_length
      → (draft : Session) → Kept msg.header.ratchet_pub_key receiver draft
      → (keys : Bytes × Bytes)
      → Ahead p sender
          (start_send_chain p reply keys (start_receive_chain p msg (t.next_root, t.chain) draft))
          sender.send_chain_index
  turned-Ahead t header draft (kept_root, kept_secret, kept_index, kept_keys) keys = record {
    sent = t.sent;
    expected = t.chain;
    send_key = t.send_key;
    recv_key = refl;
    sent_long = t.sent_long;
    expected_long = t.chain_long;
    chain = t.progress;
    index = omega arith;
    peer = rw header refl;
    named = rw t.send_pub (h.base64_nonempty t.mine.public_key (x.long t.mine t.generated));
    fresh = λ j _.
        subst (λ key. lookup (skipped_key_id key j) draft.skipped_keys ≡ none)
          (ap (λ (q : Header). q.ratchet_pub_key) header) (kept_keys j ∙ rw header (t.unseen.1 j));
  }

  -- What `decrypt` has done with the first message that it reads of the sender's chain.
  pub record Arrival (t : Turn p Generated sender receiver) : Type 0 where
    pub draft : Session
    pub kept : Kept msg.header.ratchet_pub_key receiver draft
    pub dh : Bytes
    pub next_root : Bytes
    pub chain : Bytes
    pub exchange : p.box_before reply.public_key t.mine.secret_key ≡ some dh
    pub mixed : kdf_root p t.next_root dh ≡ some (next_root, chain)
    pub long : length chain ≡ 32
    pub next : Bytes
    pub next_long : 0 < length next
    pub stored : Dict Text
    pub older :
        (j : ℕ)
        → sender.send_chain_index ≤ j
        → lookup (skipped_key_id sender.send_ratchet_pub_key j) stored ≡ none
    pub named : nonempty sender.send_ratchet_pub_key ≡ true
    pub peer : some msg.header.ratchet_pub_key ≡ some sender.send_ratchet_pub_key
    pub sends : (encrypt p pair nonce plaintext sender).1 ≡ advance_send p next sender
    pub reads : decrypt p msg reply receiver ≡ (
      done plaintext,
      record (start_send_chain p reply
          (next_root, chain)
          (start_receive_chain p msg (t.next_root, t.chain) draft)) {
            recv_chain_key = some (p.encode_base64 next);
            recv_chain_index = 0 + sender.send_chain_index + 1;
            skipped_keys = stored;
          },
    )

  pub arrival :
      (t : Turn p Generated sender receiver)
      → Generated reply
      → InReach p sender.previous_send_chain_length receiver
      → sender.send_chain_index ≤ 50
      → (encrypt p pair nonce plaintext sender).0 ≡ done msg
      → nonempty plaintext ≡ true
      → Arrival t
  arrival t gen in_reach reach e written =
      let sealed =
        encrypt-Sent p h pair nonce plaintext sender t.sent msg t.send_key t.sent_long e in
      let (header, cipher) =
        seal-valid p h nonce sealed.1 sender.send_ratchet_pub_key sender.send_chain_index
          sender.previous_send_chain_length plaintext msg sealed.3 in
      let (draft, kept, follows) =
        follow_ratchet-turns p msg reply receiver (rw header t.unseen.0) (rw header in_reach) in
      let (dh, exchange, back) = x.shared reply t.mine gen t.generated in
      let (next_root, chain, mixed, chain_32) = kdf_root-keys p Generated x t.next_root dh in
      let turned =
        start_send_chain p reply (next_root, chain)
          (start_receive_chain p msg (t.next_root, t.chain) draft) in
      let turns : follow_ratchet p msg reply receiver ≡ (done tt, turned) =
        follows
        ∙ dh_ratchet-chains p h msg reply t.mine t.theirs draft t.root t.dh dh
            (t.next_root, t.chain) (next_root, chain) (kept.0 ∙ t.recv_root)
            (kept.1 ∙ t.recv_secret) (rw header t.send_pub) t.exchange t.mixed back mixed in
      let ahead = turned-Ahead t header draft kept (next_root, chain) in
      let sent =
        encrypt-Sent p h pair nonce plaintext sender ahead.sent msg ahead.send_key ahead.sent_long
          e in
      let (keys, loop, q) =
        delivered p h pair nonce plaintext sender turned msg sender.send_chain_index ahead reach
          sent written reply in
      let id : message_key_id msg
          ≡ skipped_key_id sender.send_ratchet_pub_key sender.send_chain_index =
        rw header refl in
      let q' =
        decrypt-turned p msg reply receiver turned turns
          (ground (arith, same_refl msg.header.ratchet_pub_key))
          (valid_header msg _ _ _ header ahead.named cipher)
          (rw id (t.unseen.1 sender.send_chain_index))
          (rw id (ahead.fresh sender.send_chain_index (omega arith))) _ _ q in
      record {
        draft = draft;
        kept = kept;
        dh = dh;
        next_root = next_root;
        chain = chain;
        exchange = exchange;
        mixed = mixed;
        long = chain_32;
        next = sent.0;
        next_long = (kdf_chain-long p h ahead.sent sent.0 sent.1 sent.2).0;
        stored = keys;
        older = λ j later.
            fresh-skip_loop p h pair nonce plaintext sender turned msg sender.send_chain_index ahead
              keys loop j (omega arith);
        named = ahead.named;
        peer = ahead.peer;
        sends = sent.4;
        reads = q';
      }
