-- ===== src/Sessions/Contact.antt =====
-- The first message to somebody, from the sender's store to the receiver's.
use messk.Prelude.{
  ◌<◌, ◌≡◌, refl, sym, ap, ◌∙◌, true, Option, none, some, [], Text, nonempty, length, arith,
}
use messk.Prelude.Dict.{lookup}
use messk.Ratchet.Platform.{
  Platform, IsPlatform, Bytes, KeyPair, Session, RatchetMessage, sent_header,
}
use messk.Ratchet.Step.{Outcome, done, null, throws}
use messk.Ratchet.Send.{encrypt}
use messk.Ratchet.Receive.{decrypt}
use messk.Ratchet.Open.{seal-valid}
use messk.Ratchet.Delivery.{Ahead, encrypt-Sent}
use messk.Ratchet.Delivery.Order.{decrypt-encrypt, delivered, chain_after-none}
use messk.Ratchet.Turn.{IsKeyExchange}
use messk.Handshake.{x3dh_respond}
use messk.Handshake.Agreement.{
  public_text, secret_text, public_texts, secret_texts, AllGenerated, x3dh-agree,
}
use messk.Sessions.{
  Draws, SessionStore, encrypt_in_session, initiator_session, responder_session, store_sent,
  put_session, delete_prekey, used_prekey, prekey_secret, prekey_id, stringify_message,
  parse_envelope_x3dh,
}
use messk.Sessions.Decrypt.{decrypt_in_session}
use messk.Sessions.Fresh.{lookup-put_session, store_read-done, fresh_session}

-- The store holds the secret key of the one-time key.
abbrev pub Holds : Platform → Option KeyPair → SessionStore → Type 0
Holds p pre_key store =
    prekey_secret (used_prekey (public_texts p pre_key) store) ≡ secret_texts p pre_key

abbrev text_of : Outcome Text × SessionStore → Text
text_of (done t, s) = t
text_of (null, s) = []
text_of (throws, s) = []

-- A text that is sent is the text of a message that the ratchet made, and the session is stored.
pub store_sent-done :
    (store after : SessionStore) (x3dh : Option (Text × Option Text))
    (r : Outcome RatchetMessage × Session) (t : Text)
    → store_sent store x3dh r ≡ (done t, after)
    → (msg : RatchetMessage) × (r.0 ≡ done msg)
      × (t ≡ stringify_message msg x3dh)
      × (after ≡ put_session r.1 store)
store_sent-done store after x3dh (done msg, s) t e =
    (msg, refl, ap text_of (sym e), ap (λ q. q.1) (sym e))
store_sent-done store after x3dh (null, s) t e = absurd (cc)
store_sent-done store after x3dh (throws, s) t e = absurd (cc)

-- Two sessions with one root key, where the sender has heard nothing and the receiver said nothing.
pub record Introduced (p : Platform) (pair : KeyPair) (mine theirs : Session) : Type 0 where
  pub secret : Bytes
  pub mine_root : mine.root_key ≡ p.encode_base64 secret
  pub theirs_root : theirs.root_key ≡ p.encode_base64 secret
  pub mine_secret : mine.send_ratchet_priv_key ≡ p.encode_base64 pair.secret_key
  pub theirs_peer : theirs.recv_ratchet_pub_key ≡ some (p.encode_base64 pair.public_key)
  pub unspoken : theirs.send_chain_key ≡ none
  pub unheard : mine.recv_chain_key ≡ none
  pub unsent : theirs.send_chain_index ≡ 0

module _ (p : Platform) (h : IsPlatform p) (secret : Bytes) (long : length secret ≡ 32)
    (pair : KeyPair) (known : 0 < length pair.public_key) (ratchet : KeyPair) (alice bob : Text)
    (pre_key_pub : Option Text) where
  -- The first sessions of the two are in step.
  pub started-Ahead :
      Ahead p
        (initiator_session p bob pre_key_pub pair secret)
        (responder_session p alice (p.encode_base64 pair.public_key) ratchet secret)
        0
  unfolding lookup
  started-Ahead = record {
    sent = secret;
    expected = secret;
    send_key = refl;
    recv_key = refl;
    sent_long = omega (arith, long);
    expected_long = omega (arith, long);
    chain = chain_after-none p secret;
    index = refl;
    peer = refl;
    named = h.base64_nonempty pair.public_key known;
    fresh = λ j later. refl;
  }

  abbrev mine_first : Session
  mine_first = initiator_session p bob pre_key_pub pair secret

  abbrev theirs_first : Session
  theirs_first = responder_session p alice (p.encode_base64 pair.public_key) ratchet secret

  -- The first message on them is read.
  pub first_read :
      (chain reply : KeyPair) (nonce : Bytes) (plaintext : Text) (msg : RatchetMessage)
      → (encrypt p chain nonce plaintext mine_first).0 ≡ done msg
      → nonempty plaintext ≡ true
      → (msg.header ≡ sent_header (p.encode_base64 pair.public_key) 0 0)
        × ((decrypt p msg reply theirs_first).0 ≡ done plaintext)
        × ((encrypt p chain nonce plaintext mine_first).1.peer_public_key ≡ bob)
        × ((decrypt p msg reply theirs_first).1.peer_public_key ≡ alice)
        × Ahead p
            (encrypt p chain nonce plaintext mine_first).1
            (decrypt p msg reply theirs_first).1
            0
        × Introduced p pair
            (encrypt p chain nonce plaintext mine_first).1
            (decrypt p msg reply theirs_first).1
  first_read chain reply nonce plaintext msg encrypts written =
      let a = started-Ahead in
      let out =
        encrypt-Sent p h chain nonce plaintext mine_first a.sent msg a.send_key a.sent_long
          encrypts in
      let (keys, loop, reads) =
        delivered p h chain nonce plaintext mine_first theirs_first msg 0 a (omega arith) out
          written reply in
      (
        (seal-valid p h nonce out.1 _ _ _ plaintext msg out.3).0,
        ap (λ r. r.0) reads,
        ap (λ s. s.peer_public_key) out.4,
        ap (λ r. r.1.peer_public_key) reads,
        (decrypt-encrypt p h chain nonce plaintext mine_first theirs_first msg 0 a (omega arith)
            encrypts written reply).1,
        rw (reads, out.4)
            (record {
              secret = secret;
              mine_root = refl;
              theirs_root = refl;
              mine_secret = refl;
              theirs_peer = refl;
              unspoken = refl;
              unheard = refl;
              unsent = refl;
            }),
      )

module _ (p : Platform) (h : IsPlatform p) (Generated : KeyPair → Type 0)
    (x : IsKeyExchange p Generated) (alice bob : KeyPair) (pre_key : Option KeyPair) (draws : Draws)
    (ratchet reply : KeyPair) (plaintext sent : Text)
    (alice_store bob_store after : SessionStore) where
  abbrev pub received : Outcome Text × SessionStore
  received =
      decrypt_in_session p ratchet reply (secret_text p bob) (public_text p alice) sent
        (parse_envelope_x3dh sent) bob_store

  -- Between generated key pairs, where neither has a session with the other and the receiver holds
  -- the one-time key that the server gave to the sender, if any, a text that is not empty is read as
  -- it was sent. Afterwards each has a session with the other, these are in step, and the receiver
  -- has deleted the one-time key.
  pub decrypt_in_session-encrypt_in_session :
      Generated alice
      → Generated bob
      → Generated draws.ephemeral
      → Generated draws.ratchet
      → AllGenerated Generated pre_key
      → Holds p pre_key bob_store
      → lookup (public_text p bob) alice_store.sessions ≡ none
      → lookup (public_text p alice) bob_store.sessions ≡ none
      → encrypt_in_session p draws
          (public_text p bob)
          plaintext
          (secret_text p alice)
          (public_texts p pre_key)
          alice_store
        ≡ (done sent, after)
      → nonempty plaintext ≡ true
      → (received.0 ≡ done plaintext)
        × (received.1.prekeys
            ≡ delete_prekey
                (prekey_id (used_prekey (public_texts p pre_key) bob_store))
                bob_store.prekeys)
        × (mine : Session) × (theirs : Session) × (lookup (public_text p bob) after.sessions
            ≡ some mine)
        × (lookup (public_text p alice) received.1.sessions ≡ some theirs)
        × Ahead p mine theirs 0
        × Introduced p draws.ratchet mine theirs
  unfolding encrypt_in_session decrypt_in_session
  decrypt_in_session-encrypt_in_session ga gb ge gr gk holds no_mine no_theirs e written =
      let (secret, long, initiates, responds) =
        x3dh-agree p h Generated x alice bob draws.ephemeral pre_key ga gb ge gk in
      let a0 =
        initiator_session p (public_text p bob) (public_texts p pre_key) draws.ratchet secret in
      let b0 =
        responder_session p (public_text p alice) (p.encode_base64 draws.ratchet.public_key) ratchet
          secret in
      let x3dh = some (public_text p draws.ephemeral, public_texts p pre_key) in
      let e' : store_sent (put_session a0 alice_store) x3dh
            (encrypt p draws.chain draws.nonce plaintext a0)
          ≡ (done sent, after) =
        sym (simp (no_mine, initiates)) ∙ e in
      let (msg, encrypts, text_sent, stored) = store_sent-done _ after x3dh _ sent e' in
      let (header, reads, mine_named, theirs_named, ahead, introduced) =
        first_read p h secret long draws.ratchet (x.long draws.ratchet gr) ratchet
          (public_text p alice) (public_text p bob) (public_texts p pre_key) draws.chain reply
          draws.nonce plaintext msg encrypts written in
      let arrives =
        fresh_session p ratchet reply (secret_text p bob) (public_text p alice)
          (public_text p draws.ephemeral) (public_texts p pre_key) bob_store msg secret _ _ _ header
          (h.base64_nonempty bob.secret_key (x.long_secret bob gb))
          (h.base64_nonempty draws.ephemeral.public_key (x.long draws.ephemeral ge)) no_theirs
          (ap
              (λ k.
                x3dh_respond p (secret_text p bob) k none (public_text p alice)
                  (public_text p draws.ephemeral) none)
              holds
            ∙ responds) in
      let mine = (encrypt p draws.chain draws.nonce plaintext a0).1 in
      let theirs = (decrypt p msg reply b0).1 in
      let result =
        ap
          (λ t.
            decrypt_in_session p ratchet reply (secret_text p bob) (public_text p alice) t
              (parse_envelope_x3dh t) bob_store)
          text_sent
        ∙ arrives
        ∙ store_read-done bob_store (prekey_id (used_prekey (public_texts p pre_key) bob_store))
            plaintext _ reads written in
      (
        ap (λ r. r.0) result,
        ap (λ r. r.1.prekeys) result,
        mine,
        theirs,
        ap (λ (st : SessionStore). lookup (public_text p bob) st.sessions) stored
            ∙ lookup-put_session mine (put_session a0 alice_store) (public_text p bob) mine_named,
        ap (λ r. lookup (public_text p alice) r.1.sessions) result
            ∙ lookup-put_session theirs bob_store (public_text p alice) theirs_named,
        ahead,
        introduced,
      )
