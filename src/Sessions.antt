-- ===== src/Sessions.antt =====
-- messk/src/lib/socket.ts: a direct message on its way from a text to the session store and back
-- (`encryptInSession`, `decryptInSession`). The answer of the server to `getPreKeyBundle`, the key
-- pairs and the nonces that the source draws at random are arguments.
pub mod Decrypt
pub mod Wire
pub mod Fresh
pub mod Contact
pub mod Reply
pub mod Unread
pub mod Lost
pub mod Tests
use messk.Prelude.{
  ℕ, ◌==◌, Bool, true, false, not, ◌||◌, Option, none, some, List, [], ◌∷◌, ◌++◌, Text, codes, same,
  nonempty, truthy, ◌or_else◌, if◌then◌else◌, filter,
}
use messk.Prelude.Dict.{Dict, lookup, insert, remove}
use messk.Prelude.Number.{Number}
use messk.Json.{Json, get, is_truthy}
use messk.Json.Parse.{parse_json}
use messk.Json.Plain.{Plain, text, count, nothing, object, members, write}
use messk.Payloads.{as_string, as_number}
use messk.Ratchet.Platform.{Platform, Bytes, KeyPair, Session, RatchetMessage}
use messk.Ratchet.Step.{Outcome, done, null, throws}
use messk.Ratchet.Keys.{counter}
use messk.Ratchet.Send.{encrypt}
use messk.Ratchet.Receive.{decrypt}
use messk.Handshake.{x3dh_initiate, x3dh_respond}

pub record PreKey : Type 0 where
  pub id : ℕ
  pub public_key : Text
  pub secret_key : Text

-- The tables `sessions`, by `peerPublicKey`, and `prekeys` of the database.
pub record SessionStore : Type 0 where
  pub sessions : Dict Session
  pub prekeys : List PreKey

-- `X3DHParams`. A member that is not a string counts as missing.
pub record X3dhParams : Type 0 where
  pub ephemeral_pub : Text
  pub pre_key_pub_used : Option Text
  pub pqc_ciphertext : Option Text

abbrev pub x3dh_of : Option Json → Option X3dhParams
x3dh_of none = none
x3dh_of (some x) =
    if is_truthy (some x)
    then some (record {
      ephemeral_pub = as_string (get x (codes "ephemeralPub")) or_else [];
      pre_key_pub_used = as_string (get x (codes "preKeyPubUsed"));
      pqc_ciphertext = as_string (get x (codes "pqcCiphertext"));
    })
    else none

abbrev pub x3dh_member : Option Json → Option X3dhParams
x3dh_member none = none
x3dh_member (some parsed) = x3dh_of (get parsed (codes "x3dh"))

unfoldable pub parse_envelope_x3dh : Text → Option X3dhParams
parse_envelope_x3dh envelope_data =
    if not (nonempty envelope_data) then none else x3dh_member (parse_json envelope_data)

-- What `decrypt` reads of the parsed data: a member that is missing or of another type becomes a
-- value that `validateMessage` refuses.
abbrev pub header_member : Json → Text → Option Json
header_member parsed k = elim (get parsed (codes "header")) [
  | none ↦ none
  | some header ↦ get header k
]

unfoldable pub message_of : Json → RatchetMessage
message_of parsed = record {
  header = record {
    ratchet_pub_key = as_string (header_member parsed (codes "ratchetPubKey")) or_else [];
    n = as_number (header_member parsed (codes "n")) or_else Number.nan;
    pn = as_number (header_member parsed (codes "pn")) or_else Number.nan;
  };
  ciphertext = as_string (get parsed (codes "ciphertext")) or_else [];
}

-- `ratchetData.header.ratchetPubKey` throws.
abbrev pub has_no_header : Json → Bool
has_no_header Json.null = true
has_no_header parsed = elim (get parsed (codes "header")) [
  | none ↦ true
  | some Json.null ↦ true
  | some h ↦ false
]

abbrev plain_text : Option Text → Plain
plain_text none = nothing
plain_text (some t) = text t

-- The counters of a header that this client writes are natural numbers.
abbrev pub header_plain : RatchetMessage → Plain
header_plain msg = object (
    members (
      (codes "ratchetPubKey", text msg.header.ratchet_pub_key)
      ∷ ((codes "n", count (counter msg.header.n))
          ∷ ((codes "pn", count (counter msg.header.pn)) ∷ []))))

-- A missing `pqcCiphertext` is left out by JSON.stringify.
abbrev pub x3dh_plain : Option (Text × Option Text) → List (Text × Plain)
x3dh_plain none = []
x3dh_plain (some (ephemeral_pub, pre_key_pub)) =
    (
      codes "x3dh",
      object (
          members (
            (codes "ephemeralPub", text ephemeral_pub)
            ∷ ((codes "preKeyPubUsed", plain_text pre_key_pub) ∷ []))),
    )
    ∷ []

abbrev pub message_plain : RatchetMessage → Option (Text × Option Text) → Plain
message_plain msg x3dh = object (
    members (
      (codes "header", header_plain msg)
      ∷ ((codes "ciphertext", text msg.ciphertext) ∷ x3dh_plain x3dh)))

unfoldable pub stringify_message : RatchetMessage → Option (Text × Option Text) → Text
stringify_message msg x3dh = write (message_plain msg x3dh)

-- `db.sessions.put`
abbrev pub put_session : Session → SessionStore → SessionStore
put_session session store = record store {
  sessions = insert session.peer_public_key session store.sessions;
}

abbrev pub delete_session : Text → SessionStore → SessionStore
delete_session peer store = record store { sessions = remove peer store.sessions }

-- `db.prekeys.where('publicKey').equals(…).first()`
unfoldable pub find_prekey : Text → List PreKey → Option PreKey
find_prekey key [] = none
find_prekey key (k ∷ ks) =
    let rest = find_prekey key ks in if same k.public_key key then some k else rest

abbrev pub delete_prekey : Option ℕ → List PreKey → List PreKey
delete_prekey none keys = keys
delete_prekey (some i) keys = filter (λ k. not (k.id == i)) keys

-- The two ends of the encryption: `RatchetManager.encrypt`, and the session after it.
abbrev pub store_sent :
    SessionStore
    → Option (Text × Option Text)
    → Outcome RatchetMessage × Session
    → Outcome Text × SessionStore
store_sent store x3dh (done msg, session) =
    (done (stringify_message msg x3dh), put_session session store)
store_sent store x3dh (null, session) = (null, store)
store_sent store x3dh (throws, session) = (throws, store)

abbrev pub store_read :
    SessionStore → Option ℕ → Outcome Text × Session → Outcome Text × SessionStore
store_read store consumed (done plaintext, session) =
    if not (nonempty plaintext) then (null, store) else (
      done plaintext,
      record (put_session session store) { prekeys = delete_prekey consumed store.prekeys },
    )
store_read store consumed (null, session) = (null, store)
store_read store consumed (throws, session) = (throws, store)

-- The secret key and the id of the one-time key that was used, if it is stored.
abbrev pub used_prekey : Option Text → SessionStore → Option PreKey
used_prekey key store = if truthy key then find_prekey (key or_else []) store.prekeys else none

abbrev pub prekey_secret : Option PreKey → Option Text
prekey_secret none = none
prekey_secret (some k) = some k.secret_key

abbrev pub prekey_id : Option PreKey → Option ℕ
prekey_id none = none
prekey_id (some k) = some k.id

-- What is drawn at random on the way: the ephemeral key pair, the first ratchet key pair, the key
-- pair of a new sending chain, and the nonce.
pub record Draws : Type 0 where
  pub ephemeral : KeyPair
  pub ratchet : KeyPair
  pub chain : KeyPair
  pub nonce : Bytes

module _ (p : Platform) where
  -- The session of the party that begins.
  abbrev pub initiator_session : Text → Option Text → KeyPair → Bytes → Session
  initiator_session recipient pre_key_pub pair shared_secret = record {
    peer_public_key = recipient;
    root_key = p.encode_base64 shared_secret;
    send_chain_key = some (p.encode_base64 shared_secret);
    recv_chain_key = none;
    send_ratchet_pub_key = p.encode_base64 pair.public_key;
    send_ratchet_priv_key = p.encode_base64 pair.secret_key;
    recv_ratchet_pub_key = pre_key_pub;
    send_chain_index = 0;
    recv_chain_index = 0;
    previous_send_chain_length = 0;
    skipped_keys = [];
    pqc_shared_secret = none;
  }

  -- The session of the party that answers.
  abbrev pub responder_session : Text → Text → KeyPair → Bytes → Session
  responder_session peer ratchet_pub_key pair shared_secret = record {
    peer_public_key = peer;
    root_key = p.encode_base64 shared_secret;
    send_chain_key = none;
    recv_chain_key = some (p.encode_base64 shared_secret);
    send_ratchet_pub_key = p.encode_base64 pair.public_key;
    send_ratchet_priv_key = p.encode_base64 pair.secret_key;
    recv_ratchet_pub_key = some ratchet_pub_key;
    send_chain_index = 0;
    recv_chain_index = 0;
    previous_send_chain_length = 0;
    skipped_keys = [];
    pqc_shared_secret = none;
  }

  -- The last part: encrypt, persist, stringify.
  abbrev pub encrypt_and_persist :
      Draws
      → Text
      → Option (Text × Option Text)
      → Session
      → SessionStore
      → Outcome Text × SessionStore
  encrypt_and_persist draws plaintext x3dh session store =
      store_sent store x3dh (encrypt p draws.chain draws.nonce plaintext session)

  -- A new session is stored before the message is encrypted.
  abbrev pub start_session :
      Draws
      → Text
      → Text
      → Option Text
      → Option (Bytes × Text)
      → SessionStore
      → Outcome Text × SessionStore
  start_session draws plaintext recipient pre_key_pub none store = (throws, store)
  start_session draws plaintext recipient pre_key_pub (some (shared_secret, ephemeral_pub)) store =
      let session = initiator_session recipient pre_key_pub draws.ratchet shared_secret in
      encrypt_and_persist draws plaintext (some (ephemeral_pub, pre_key_pub)) session
        (put_session session store)

  abbrev pub encrypt_for :
      Draws
      → Text
      → Text
      → Text
      → Option Text
      → Option Session
      → SessionStore
      → Outcome Text × SessionStore
  encrypt_for draws recipient plaintext my_secret_key pre_key_pub (some session) store =
      encrypt_and_persist draws plaintext none session store
  encrypt_for draws recipient plaintext my_secret_key pre_key_pub none store =
      start_session draws plaintext recipient pre_key_pub
        (x3dh_initiate p draws.ephemeral my_secret_key recipient pre_key_pub none) store

  -- `pre_key_pub` is the server's answer, which is asked for only where there is no session.
  unfoldable pub encrypt_in_session :
      Draws → Text → Text → Text → Option Text → SessionStore → Outcome Text × SessionStore
  encrypt_in_session draws recipient plaintext my_secret_key pre_key_pub store =
      encrypt_for draws recipient plaintext my_secret_key pre_key_pub
        (lookup recipient store.sessions) store
