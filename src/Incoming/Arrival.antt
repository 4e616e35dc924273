-- ===== src/Incoming/Arrival.antt =====
-- A text on its way from one client to the other, through the ratchet, the sessions and the handler.
use messk.Prelude.{
  ◌≡◌, ap, ◌∙◌, true, false, Option, none, some, [], ◌∷◌, ◌++◌, Text, codes, same, same_refl,
  nonempty, trim, if◌then◌else◌,
}
use messk.Prelude.Dict.{lookup}
use messk.Ratchet.Platform.{Platform, IsPlatform, KeyPair}
use messk.Ratchet.Step.{Outcome, done}
use messk.Ratchet.Turn.{IsKeyExchange}
use messk.Handshake.Agreement.{public_text, secret_text, public_texts, AllGenerated}
use messk.Sessions.{Draws, SessionStore, encrypt_in_session, parse_envelope_x3dh}
use messk.Sessions.Decrypt.{decrypt_in_session}
use messk.Sessions.Contact.{Holds, decrypt_in_session-encrypt_in_session}
use messk.Store.{Database, delivered, add_message_and_sync, find_by_msg_id}
use messk.Outbox.{Envelope, direct, self_sync, OutgoingDirectMessage, direct_envelope}
use messk.Incoming.{DirectEnvelope, Client, Moment, upsert_direct_contact}
use messk.Incoming.Message.{
  handle_message, finish_message, store_message, received_message, copy, receipt,
}
use messk.Incoming.Invariant.{acknowledge-db, receipt-db, copy-db}
use messk.Incoming.Once.{add-messages}

-- The envelope that arrives for one that is sent.
abbrev pub on_wire : Envelope → DirectEnvelope
on_wire (direct msg_id recipient sender payload) = record {
  type = codes "message";
  recipient_pub_key = some recipient;
  sender_pub_key = some sender;
  target_msg_id = none;
  payload = some payload;
  msg_id = some msg_id;
  reaction = none;
}
on_wire (self_sync msg_id me payload) = record {
  type = codes "self_sync";
  recipient_pub_key = some me;
  sender_pub_key = some me;
  target_msg_id = none;
  payload = some payload;
  msg_id = some msg_id;
  reaction = none;
}

-- A key in Base64 has no blanks around it.
abbrev pub IsKeyText : Text → Type 0
IsKeyText t = (nonempty t ≡ true) × (trim t ≡ t)

module _ (p : Platform) (preview : Text → Text) (moment : Moment)
    (msg_id sender recipient payload : Text) (client : Client) where
  abbrev env : DirectEnvelope
  env = on_wire (direct msg_id recipient sender payload)

  passes_guards :
      IsKeyText sender
      → IsKeyText recipient
      → client.public_key ≡ recipient
      → same sender recipient ≡ false
      → nonempty msg_id ≡ true
      → find_by_msg_id msg_id client.db.messages ≡ none
      → handle_message p preview moment env client
        ≡ finish_message p preview moment env sender
            (decrypt_in_session p moment.session_pair moment.ratchet_pair client.secret_key sender
              payload
              (parse_envelope_x3dh payload)
              client.store)
            client
  unfolding handle_message
  passes_guards (shown, plain) (shown', plain') mine others named unknown =
      simp (plain, mine, plain', shown, shown', same_refl recipient, others, named, unknown)

  stored-messages :
      (t : Text) (c : Client)
      → nonempty msg_id ≡ true
      → find_by_msg_id msg_id c.db.messages ≡ none
      → (store_message p preview moment env sender t c).db.messages
        ≡ c.db.messages
          ++ received_message moment.next_id msg_id sender sender t moment.now delivered ∷ []
  unfolding store_message upsert_direct_contact
  stored-messages t c named unknown =
      ap
        (λ b.
          (add_message_and_sync preview
            (received_message moment.next_id (if b then msg_id else moment.random_uuid) sender
              sender t moment.now delivered)
            c.db).messages)
        named
      ∙ add-messages preview
          (received_message moment.next_id msg_id sender sender t moment.now delivered) c.db unknown

  finish-stores :
      (t : Text) (r : Outcome Text × SessionStore)
      → r.0 ≡ done t
      → nonempty msg_id ≡ true
      → find_by_msg_id msg_id client.db.messages ≡ none
      → (finish_message p preview moment env sender r client).db.messages
        ≡ client.db.messages
          ++ received_message moment.next_id msg_id sender sender t moment.now delivered ∷ []
  finish-stores t (o, store) e named unknown =
      let c = store_message p preview moment env sender t (record client { store = store }) in
      ap (λ o. (finish_message p preview moment env sender (o, store) client).db.messages) e
      ∙ ap (λ (db : Database). db.messages)
          (acknowledge-db moment env
              (receipt p preview moment env sender (copy p preview moment env sender t c))
            ∙ receipt-db p preview moment env sender (copy p preview moment env sender t c)
            ∙ copy-db p preview moment env sender t c)
      ∙ stored-messages t (record client { store = store }) named unknown

module _ (p : Platform) (h : IsPlatform p) (Generated : KeyPair → Type 0)
    (x : IsKeyExchange p Generated) (alice bob : KeyPair) (pre_key : Option KeyPair) (draws : Draws)
    (preview : Text → Text) (moment : Moment) (plaintext : Text) (row : OutgoingDirectMessage)
    (alice_store after : SessionStore) (client : Client) where
  -- The whole way of a first message between two generated identities that have no session. What
  -- `encryptInSession` makes of a text that is not empty, is queued, sent as a direct envelope and
  -- handled by the other client, which holds the one-time key that was used, if any, and has no message
  -- of that id. Then that client has one message more: the text, from its sender, delivered.
  pub handle_message-encrypt_in_session :
      Generated alice
      → Generated bob
      → Generated draws.ephemeral
      → Generated draws.ratchet
      → AllGenerated Generated pre_key
      → Holds p pre_key client.store
      → lookup (public_text p bob) alice_store.sessions ≡ none
      → lookup (public_text p alice) client.store.sessions ≡ none
      → encrypt_in_session p draws
          (public_text p bob)
          plaintext
          (secret_text p alice)
          (public_texts p pre_key)
          alice_store
        ≡ (done row.payload, after)
      → nonempty plaintext ≡ true
      → row.sender_pub_key ≡ public_text p alice
      → row.recipient_pub_key ≡ public_text p bob
      → nonempty row.id ≡ true
      → client.public_key ≡ public_text p bob
      → client.secret_key ≡ secret_text p bob
      → IsKeyText (public_text p alice)
      → IsKeyText (public_text p bob)
      → same (public_text p alice) (public_text p bob) ≡ false
      → find_by_msg_id row.id client.db.messages ≡ none
      → (handle_message p preview moment (on_wire (direct_envelope row)) client).db.messages
        ≡ client.db.messages
          ++ received_message moment.next_id row.id
              (public_text p alice)
              (public_text p alice)
              plaintext
              moment.now
              delivered
            ∷ []
  handle_message-encrypt_in_session ga gb ge gr gk holds no_mine no_theirs e written from to named
        mine key ka kb others unknown =
      let read =
        decrypt_in_session-encrypt_in_session p h Generated x alice bob pre_key draws
          moment.session_pair moment.ratchet_pair plaintext row.payload alice_store client.store
          after ga gb ge gr gk holds no_mine no_theirs e written in
      rw (from, to)
        (ap (λ (c : Client). c.db.messages)
            (passes_guards p preview moment row.id (public_text p alice) (public_text p bob)
              row.payload client ka kb mine others named unknown)
          ∙ finish-stores p preview moment row.id (public_text p alice) (public_text p bob)
              row.payload client plaintext _ (rw key read.0) named unknown)
