-- ===== src/Sessions/Lost.antt =====
-- A first message that fails after the session has been stored.
use messk.Prelude.{
  List, [], ◌∷◌, All, not, truthy, subst, if-property, ◌≡◌, refl, ap, ◌∙◌, sym, Option, none, some,
  Text,
}
use messk.Prelude.Dict.{lookup}
use messk.Ratchet.Platform.{Platform, Bytes, KeyPair, Session, RatchetMessage}
use messk.Ratchet.Step.{Outcome, done, null, throws, continue}
use messk.Ratchet.Send.{encrypt, encrypt_on_chain, ensure_send_chain, seal_next, store_send_chain}
use messk.Handshake.{x3dh_initiate}
use messk.Sessions.{
  Draws, SessionStore, encrypt_in_session, encrypt_for, initiator_session, put_session, store_sent,
  parse_envelope_x3dh,
}
use messk.Sessions.Contact.{store_sent-done}
use messk.Sessions.Fresh.{lookup-put_session}
use messk.Sessions.Wire.{parse-envelope_x3dh}

module _ (p : Platform) (recipient my_secret_key : Text) where
  -- With a session, no handshake is sent.
  pub no_handshake :
      (draws : Draws) (plaintext sent : Text) (pre_key_pub : Option Text) (session : Session)
      (store after : SessionStore)
      → lookup recipient store.sessions ≡ some session
      → encrypt_in_session p draws recipient plaintext my_secret_key pre_key_pub store
        ≡ (done sent, after)
      → parse_envelope_x3dh sent ≡ none
  unfolding encrypt_in_session
  no_handshake draws plaintext sent pre_key_pub session store after known e =
      let e' : store_sent store none (encrypt p draws.chain draws.nonce plaintext session)
          ≡ (done sent, after) =
        sym (simp known) ∙ e in
      let (msg, encrypts, text_sent, stored) = store_sent-done store after none _ sent e' in
      ap parse_envelope_x3dh text_sent ∙ parse-envelope_x3dh msg none

  -- There is a session with the recipient, under its key.
  abbrev IsKnown : SessionStore → Type 0
  IsKnown store =
      (session : Session) × (lookup recipient store.sessions ≡ some session)
      × (session.peer_public_key ≡ recipient)

  seal_next-peer :
      (nonce : Bytes) (t : Text) (s : Session) (o : Option (Bytes × Bytes))
      → (seal_next p nonce t s o).1.peer_public_key ≡ s.peer_public_key
  seal_next-peer nonce t s none = refl
  seal_next-peer nonce t s (some keys) = refl

  on_chain-peer :
      (nonce : Bytes) (t : Text) (s : Session)
      → (encrypt_on_chain p nonce t s).1.peer_public_key ≡ s.peer_public_key
  unfolding encrypt_on_chain
  on_chain-peer nonce t s =
      if-property {A = Outcome RatchetMessage × Session}
        (λ r. r.1.peer_public_key ≡ s.peer_public_key) (not (truthy s.send_chain_key)) _ _
        (λ _. refl) (λ _. seal_next-peer nonce t s _)

  store_chain-peer :
      (pair : KeyPair) (s : Session) (o : Option (Bytes × Bytes))
      → (store_send_chain p pair s o).1.peer_public_key ≡ s.peer_public_key
  store_chain-peer pair s none = refl
  store_chain-peer pair s (some keys) = refl

  ensure-peer :
      (pair : KeyPair) (s : Session)
      → (ensure_send_chain p pair s).1.peer_public_key ≡ s.peer_public_key
  unfolding ensure_send_chain
  ensure-peer pair s =
      let P = λ (r : Outcome (Unit {0}) × Session). r.1.peer_public_key ≡ s.peer_public_key in
      if-property P (truthy s.send_chain_key) _ _ (λ _. refl)
        (λ _.
          if-property P (not (truthy s.recv_ratchet_pub_key)) _ _ (λ _. refl)
            (λ _. store_chain-peer pair s _))

  continue-peer :
      (nonce : Bytes) (t : Text) (s : Session) (r : Outcome (Unit {0}) × Session)
      → r.1.peer_public_key ≡ s.peer_public_key
      → (continue r.0 (λ _. encrypt_on_chain p nonce t) r.1).1.peer_public_key ≡ s.peer_public_key
  continue-peer nonce t s (done u, s') e = on_chain-peer nonce t s' ∙ e
  continue-peer nonce t s (null, s') e = e
  continue-peer nonce t s (throws, s') e = e

  encrypt-peer :
      (pair : KeyPair) (nonce : Bytes) (t : Text) (s : Session)
      → (encrypt p pair nonce t s).1.peer_public_key ≡ s.peer_public_key
  unfolding encrypt
  encrypt-peer pair nonce t s =
      continue-peer nonce t s (ensure_send_chain p pair s) (ensure-peer pair s)

  store_sent-IsKnown :
      (x3dh : Option (Text × Option Text)) (store : SessionStore)
      (r : Outcome RatchetMessage × Session)
      → r.1.peer_public_key ≡ recipient
      → IsKnown store
      → IsKnown (store_sent store x3dh r).1
  store_sent-IsKnown x3dh store (done msg, s) named k =
      (s, lookup-put_session s store recipient named, named)
  store_sent-IsKnown x3dh store (null, s) named k = k
  store_sent-IsKnown x3dh store (throws, s) named k = k

  encrypted-IsKnown :
      (draws : Draws) (plaintext : Text) (answer : Option Text) (store : SessionStore)
      → IsKnown store
      → IsKnown (encrypt_in_session p draws recipient plaintext my_secret_key answer store).1
  unfolding encrypt_in_session
  encrypted-IsKnown draws plaintext answer store (session, known, named) =
      subst (λ o. IsKnown (encrypt_for p draws recipient plaintext my_secret_key answer o store).1)
        (sym known)
        (store_sent-IsKnown none store (encrypt p draws.chain draws.nonce plaintext session)
          (encrypt-peer draws.chain draws.nonce plaintext session ∙ named) (session, known, named))

  -- What the encryptions of some texts return, one after the other: those that throw as well.
  abbrev pub encrypt_all : List (Draws × Text × Option Text) → SessionStore → List (Outcome Text)
  encrypt_all [] store = []
  encrypt_all ((draws, plaintext, answer) ∷ rest) store =
      let r = encrypt_in_session p draws recipient plaintext my_secret_key answer store in
      r.0 ∷ encrypt_all rest r.1

  -- If it is a text, it carries no handshake.
  abbrev pub HasNoHandshake : Outcome Text → Type 0
  HasNoHandshake o = (sent : Text) → o ≡ done sent → parse_envelope_x3dh sent ≡ none

  All-HasNoHandshake :
      (texts : List (Draws × Text × Option Text)) (store : SessionStore)
      → IsKnown store
      → All HasNoHandshake (encrypt_all texts store)
  All-HasNoHandshake [] store k = tt
  All-HasNoHandshake ((draws, plaintext, answer) ∷ rest) store (session, known, named) =
      let r = encrypt_in_session p draws recipient plaintext my_secret_key answer store in
      (
        (λ sent e.
            no_handshake draws plaintext sent answer session store r.1 known
              (ap (λ o. (o, r.1)) e)),
        All-HasNoHandshake rest r.1
            (encrypted-IsKnown draws plaintext answer store (session, known, named)),
      )

  -- If the first message to a recipient cannot be encrypted, although the handshake succeeds, then the
  -- session stays stored, and however many texts are encrypted for the recipient from there, none of
  -- them carries the handshake, until something else replaces or deletes that session.
  pub encrypt_in_session-lost_handshake :
      (draws : Draws) (plaintext : Text) (pre_key_pub : Option Text) (secret : Bytes)
      (ephemeral : Text) (store : SessionStore) (texts : List (Draws × Text × Option Text))
      → lookup recipient store.sessions ≡ none
      → x3dh_initiate p draws.ephemeral my_secret_key recipient pre_key_pub none
        ≡ some (secret, ephemeral)
      → (encrypt p draws.chain draws.nonce plaintext
          (initiator_session p recipient pre_key_pub draws.ratchet secret)).0
        ≡ throws
      → All HasNoHandshake (
          encrypt_all texts
            (encrypt_in_session p draws recipient plaintext my_secret_key pre_key_pub store).1)
  unfolding encrypt_in_session
  encrypt_in_session-lost_handshake draws plaintext pre_key_pub secret ephemeral store texts unknown
        initiates fails =
      let session = initiator_session p recipient pre_key_pub draws.ratchet secret in
      let stays : (encrypt_in_session p draws recipient plaintext my_secret_key pre_key_pub store).1
          ≡ put_session session store =
        simp (unknown, initiates) (kept (put_session session store) _ _ fails) in
      All-HasNoHandshake texts _
        (subst IsKnown (sym stays) (session, lookup-put_session session store recipient refl, refl))
    where
      kept :
          (store : SessionStore) (x3dh : Option (Text × Option Text))
          (r : Outcome RatchetMessage × Session)
          → r.0 ≡ throws
          → (store_sent store x3dh r).1 ≡ store
      kept store x3dh (o, s) e = ap (λ o. (store_sent store x3dh (o, s)).1) e
