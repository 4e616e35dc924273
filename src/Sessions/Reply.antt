-- ===== src/Sessions/Reply.antt =====
-- The first answer: its sender's chain comes from the handshake's root key.
use messk.Prelude.{◌≡◌, refl, true, some, none, Text, truthy, inl, arith, ◌or_else◌, []}
use messk.Ratchet.Platform.{Platform, IsPlatform, Bytes, KeyPair, Session}
use messk.Ratchet.Send.{encrypt, ensure_send_chain, start_send_chain, mix_root}
use messk.Ratchet.Delivery.{Ahead}
use messk.Ratchet.Delivery.Order.{chain_after-none}
use messk.Ratchet.Turn.{IsKeyExchange, IsUnseen}
use messk.Ratchet.Turn.Exchange.{kdf_root-keys}
use messk.Ratchet.Turn.Dialogue.{Ready, Ahead-InReach}
use messk.Sessions.Contact.{Introduced}

module _ (p : Platform) (h : IsPlatform p) (Generated : KeyPair → Type 0)
    (x : IsKeyExchange p Generated) (pair chain : KeyPair) (mine theirs : Session) where
  ensures :
      (keys : Bytes × Bytes) (nonce : Bytes) (t : Text)
      → theirs.send_chain_key ≡ none
      → truthy theirs.recv_ratchet_pub_key ≡ true
      → mix_root p theirs.root_key chain.secret_key (theirs.recv_ratchet_pub_key or_else [])
        ≡ some keys
      → truthy (some (p.encode_base64 keys.1)) ≡ true
      → encrypt p chain nonce t theirs
        ≡ encrypt p chain nonce t (start_send_chain p chain keys theirs)
  unfolding encrypt ensure_send_chain
  ensures keys nonce t silent peer mixes shown = simp (silent, peer, mixes, shown)

  -- A new sending chain does not matter to what is received.
  still_Ahead :
      (keys : Bytes × Bytes)
      → Ahead p mine theirs 0
      → Ahead p mine (start_send_chain p chain keys theirs) 0
  still_Ahead keys a = record {
    sent = a.sent;
    expected = a.expected;
    send_key = a.send_key;
    recv_key = a.recv_key;
    sent_long = a.sent_long;
    expected_long = a.expected_long;
    chain = a.chain;
    index = a.index;
    peer = a.peer;
    named = a.named;
    fresh = a.fresh;
  }

  -- After the first contact the receiver can answer: with a generated key pair that the other has
  -- not met, the answer is encrypted as by a session which is ready for a dialogue with the sender's.
  pub Introduced-Ready :
      Introduced p pair mine theirs
      → Ahead p mine theirs 0
      → Generated pair
      → Generated chain
      → IsUnseen (p.encode_base64 chain.public_key) mine
      → (speaking : Session) × ((nonce : Bytes) (t : Text)
          → encrypt p chain nonce t theirs ≡ encrypt p chain nonce t speaking)
        × Ready p Generated speaking mine
  unfolding mix_root
  Introduced-Ready i a gp gc unseen =
      let (dh, there, back) = x.shared pair chain gp gc in
      let (next, sent, mixed, long) = kdf_root-keys p Generated x i.secret dh in
      let mixes : mix_root p theirs.root_key chain.secret_key
            (theirs.recv_ratchet_pub_key or_else [])
          ≡ some (next, sent) =
        simp (i.theirs_root, i.theirs_peer, h.base64, there, mixed) in
      let peer : truthy theirs.recv_ratchet_pub_key ≡ true =
        rw i.theirs_peer (h.base64_nonempty pair.public_key (x.long pair gp)) in
      (
        start_send_chain p chain (next, sent) theirs,
        (λ nonce t.
            ensures (next, sent) nonce t i.unspoken peer mixes
              (h.base64_nonempty sent (omega (arith, long)))),
        record {
          turn = record {
            mine = chain;
            theirs = pair;
            generated = gc;
            root = i.secret;
            dh = dh;
            next_root = next;
            chain = sent;
            sent = sent;
            recv_root = i.mine_root;
            recv_secret = i.mine_secret;
            send_pub = refl;
            send_secret = refl;
            exchange = back;
            mixed = mixed;
            chain_long = omega (arith, long);
            sent_long = omega (arith, long);
            send_root = refl;
            send_key = refl;
            progress = chain_after-none p sent;
            unseen = unseen;
          };
          there = inl (rw i.unheard refl);
          back = Ahead-InReach p h mine _ 0 (still_Ahead (next, sent) a) (omega arith);
          few = omega arith;
        },
      )
