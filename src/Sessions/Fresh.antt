-- ===== src/Sessions/Fresh.antt =====
-- A session that is answered afresh (messk/src/lib/socket.ts, `decryptInSession`).
use messk.Prelude.{ℕ, ◌≡◌, ap, ◌∙◌, true, false, Option, none, some, Text, nonempty}
use messk.Prelude.Dict.{lookup, lookup-insert_self}
use messk.Json.{Json}
use messk.Json.Parse.{parse_json}
use messk.Json.Plain.{json_of}
use messk.Ratchet.Platform.{Platform, Bytes, KeyPair, Session, RatchetMessage, sent_header}
use messk.Ratchet.Step.{Outcome, done}
use messk.Ratchet.Receive.{decrypt}
use messk.Handshake.{x3dh_respond}
use messk.Sessions.{
  SessionStore, responder_session, store_read, put_session, delete_prekey, used_prekey,
  prekey_secret, prekey_id, stringify_message, message_of, message_plain, parse_envelope_x3dh,
  has_no_header,
}
use messk.Sessions.Decrypt.{decrypt_in_session, decrypt_json, decrypt_fresh}
use messk.Sessions.Wire.{
  parse-stringify_message, message_of-plain, has_header, parse-envelope_x3dh, params,
}

pub lookup-put_session :
    (session : Session) (store : SessionStore) (peer : Text)
    → session.peer_public_key ≡ peer
    → lookup peer (put_session session store).sessions ≡ some session
lookup-put_session session store peer named =
    rw (← named) (lookup-insert_self session.peer_public_key session store.sessions)

pub store_read-done :
    (store : SessionStore) (consumed : Option ℕ) (t : Text) (r : Outcome Text × Session)
    → r.0 ≡ done t
    → nonempty t ≡ true
    → store_read store consumed r
      ≡ (done t, record (put_session r.1 store) { prekeys = delete_prekey consumed store.prekeys })
store_read-done store consumed t (o, session) e written =
    ap (λ o. store_read store consumed (o, session)) e ∙ simp written

module _ (p : Platform) (ratchet reply : KeyPair) (my_secret_key peer ephemeral_pub : Text)
    (pre_key_pub : Option Text) (store : SessionStore) (msg : RatchetMessage) (secret : Bytes) where
  starts_again :
      (ratchet_data : Json)
      → nonempty ephemeral_pub ≡ true
      → x3dh_respond p my_secret_key
          (prekey_secret (used_prekey pre_key_pub store))
          none
          peer
          ephemeral_pub
          none
        ≡ some secret
      → has_no_header ratchet_data ≡ false
      → message_of ratchet_data ≡ msg
      → decrypt_fresh p ratchet reply ratchet_data peer my_secret_key
          (params (some (ephemeral_pub, pre_key_pub)))
          store
        ≡ store_read store (prekey_id (used_prekey pre_key_pub store)) (
            decrypt p msg reply
              (responder_session p peer msg.header.ratchet_pub_key ratchet secret))
  starts_again ratchet_data shown responds headed reads = simp (shown, responds, headed, reads)

  -- A message with a handshake from somebody with whom there is no session.
  pub fresh_session :
      (k : Text) (n pn : ℕ)
      → msg.header ≡ sent_header k n pn
      → nonempty my_secret_key ≡ true
      → nonempty ephemeral_pub ≡ true
      → lookup peer store.sessions ≡ none
      → x3dh_respond p my_secret_key
          (prekey_secret (used_prekey pre_key_pub store))
          none
          peer
          ephemeral_pub
          none
        ≡ some secret
      → decrypt_in_session p ratchet reply my_secret_key peer
          (stringify_message msg (some (ephemeral_pub, pre_key_pub)))
          (parse_envelope_x3dh (stringify_message msg (some (ephemeral_pub, pre_key_pub))))
          store
        ≡ store_read store
            (prekey_id (used_prekey pre_key_pub store))
            (decrypt p msg reply (responder_session p peer k ratchet secret))
  unfolding decrypt_in_session
  fresh_session k n pn header mine shown unknown responds =
      let x3dh = some (ephemeral_pub, pre_key_pub) in
      simp mine (
        ap
          (λ o.
            decrypt_json p ratchet reply peer my_secret_key o store (lookup peer store.sessions)
              (parse_json (stringify_message msg x3dh)))
          (parse-envelope_x3dh msg x3dh)
        ∙ ap
            (λ o.
              decrypt_json p ratchet reply peer my_secret_key (params x3dh) store o
                (parse_json (stringify_message msg x3dh)))
            unknown
        ∙ ap (decrypt_json p ratchet reply peer my_secret_key (params x3dh) store none)
            (parse-stringify_message msg x3dh)
        ∙ starts_again (json_of (message_plain msg x3dh)) shown responds (has_header msg x3dh)
            (message_of-plain msg x3dh k n pn header)
        ∙ ap
            (λ g.
              store_read store (prekey_id (used_prekey pre_key_pub store))
                (decrypt p msg reply (responder_session p peer g.ratchet_pub_key ratchet secret)))
            header)
