-- ===== src/Sessions/Decrypt.antt =====
-- `decryptInSession` of messk/src/lib/socket.ts.
use messk.Prelude.{ℕ, not, Option, none, some, Text, nonempty, if◌then◌else◌}
use messk.Prelude.Dict.{lookup}
use messk.Json.{Json}
use messk.Json.Parse.{parse_json}
use messk.Ratchet.Platform.{Platform, Bytes, KeyPair, Session}
use messk.Ratchet.Step.{Outcome, null, throws}
use messk.Ratchet.Receive.{decrypt}
use messk.Handshake.{x3dh_respond}
use messk.Sessions.{
  message_of, has_no_header, delete_session, store_read, used_prekey, prekey_secret, prekey_id,
  responder_session, PreKey, SessionStore, X3dhParams,
}

module _ (p : Platform) where
  -- `decryptAndPersist`
  abbrev pub decrypt_and_persist :
      KeyPair → Json → Session → Option ℕ → SessionStore → Outcome Text × SessionStore
  decrypt_and_persist pair ratchet_data session consumed store =
      store_read store consumed (decrypt p (message_of ratchet_data) pair session)

  abbrev pub answer :
      KeyPair
      → KeyPair
      → Json
      → Text
      → Option PreKey
      → Option Bytes
      → SessionStore
      → Outcome Text × SessionStore
  answer ratchet pair ratchet_data peer used none store = (throws, store)
  answer ratchet pair ratchet_data peer used (some shared_secret) store =
      if has_no_header ratchet_data
      then (throws, store)
      else decrypt_and_persist pair ratchet_data
          (responder_session p peer (message_of ratchet_data).header.ratchet_pub_key ratchet
            shared_secret)
          (prekey_id used) store

  -- `createX3DHSession`, and `decryptAndPersist` of the fresh session.
  abbrev pub decrypt_fresh :
      KeyPair
      → KeyPair
      → Json
      → Text
      → Text
      → Option X3dhParams
      → SessionStore
      → Outcome Text × SessionStore
  decrypt_fresh ratchet pair ratchet_data peer my_secret_key none store = (null, store)
  decrypt_fresh ratchet pair ratchet_data peer my_secret_key (some x3dh) store =
      let used = used_prekey x3dh.pre_key_pub_used store in
      if not (nonempty x3dh.ephemeral_pub)
      then (null, store)
      else answer ratchet pair ratchet_data peer used
          (x3dh_respond p my_secret_key (prekey_secret used) none peer x3dh.ephemeral_pub
            x3dh.pqc_ciphertext)
          store

  -- `if (plaintext || !x3dh) return plaintext`
  abbrev pub or_start_again :
      KeyPair
      → KeyPair
      → Json
      → Text
      → Text
      → Option X3dhParams
      → Outcome Text × SessionStore
      → Outcome Text × SessionStore
  or_start_again ratchet pair ratchet_data peer my_secret_key (some x3dh) (null, store) =
      decrypt_fresh ratchet pair ratchet_data peer my_secret_key (some x3dh)
        (delete_session peer store)
  or_start_again ratchet pair ratchet_data peer my_secret_key x3dh r = r

  abbrev pub decrypt_json :
      KeyPair
      → KeyPair
      → Text
      → Text
      → Option X3dhParams
      → SessionStore
      → Option Session
      → Option Json
      → Outcome Text × SessionStore
  decrypt_json ratchet pair peer my_secret_key x3dh store session none = (null, store)
  decrypt_json ratchet pair peer my_secret_key x3dh store none (some ratchet_data) =
      decrypt_fresh ratchet pair ratchet_data peer my_secret_key x3dh store
  decrypt_json ratchet pair peer my_secret_key x3dh store (some session) (some ratchet_data) =
      or_start_again ratchet pair ratchet_data peer my_secret_key x3dh
        (decrypt_and_persist pair ratchet_data session none store)

  -- `ratchet` is the key pair of a fresh session, `pair` the one of a step of the ratchet. Without a
  -- secret key of its own the client reads nothing.
  unfoldable pub decrypt_in_session :
      KeyPair
      → KeyPair
      → Text
      → Text
      → Text
      → Option X3dhParams
      → SessionStore
      → Outcome Text × SessionStore
  decrypt_in_session ratchet pair my_secret_key peer envelope_data x3dh store =
      if not (nonempty my_secret_key)
      then (null, store)
      else decrypt_json ratchet pair peer my_secret_key x3dh store (lookup peer store.sessions)
          (parse_json envelope_data)
