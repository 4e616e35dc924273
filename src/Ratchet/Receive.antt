-- ===== src/Ratchet/Receive.antt =====
-- `decrypt`: the keys of skipped messages, the ratchet step on a new public key, and the draft of
-- the session that is committed only when the message has been read.
use messk.Prelude.{
  ℕ, ◌+◌, Bool, true, not, Option, none, some, [], Text, same, nonempty, truthy, ◌or_else◌,
  if◌then◌else◌,
}
use messk.Prelude.Dict.{lookup, remove}
use messk.Ratchet.Platform.{Platform, Bytes, KeyPair, Session, RatchetMessage}
use messk.Ratchet.Step.{Outcome, done, null, Step, continue, ◌>>=◌, ◌>>◌, or_throw, or_null, ◌>>?◌}
use messk.Ratchet.Keys.{
  kdf_root, kdf_chain, skipped_key_id, validate_message, counter, skip_message_keys,
}
use messk.Ratchet.Seal.{decrypt_with_message_key}
use messk.Ratchet.Send.{mix_root, start_send_chain}

-- `if (!plaintext) return null`
abbrev pub text_or_null : Option Text → Outcome Text
text_or_null none = null
text_or_null (some t) = if nonempty t then done t else null

-- `header.ratchetPubKey !== session.recvRatchetPubKey`
abbrev pub is_new_key : Text → Option Text → Bool
is_new_key k none = true
is_new_key k (some t) = not (same k t)

abbrev pub message_key_id : RatchetMessage → Text
message_key_id msg = skipped_key_id msg.header.ratchet_pub_key (counter msg.header.n)

-- With a key that was stored for this message: on success the key is deleted.
abbrev pub spend_skipped : RatchetMessage → Outcome Text → Step Text
spend_skipped msg (done t) session =
    (done t, record session { skipped_keys = remove (message_key_id msg) session.skipped_keys })
spend_skipped msg o session = (o, session)

-- `Object.assign(session, draft)`, when there is a text.
abbrev pub commit : Session → Outcome Text × Session → Outcome Text × Session
commit session (done t, draft) = (done t, draft)
commit session (o, draft) = (o, session)

module _ (p : Platform) (msg : RatchetMessage) where
  abbrev pub open_message : Bytes → Option Text
  open_message message_key =
      decrypt_with_message_key p msg.ciphertext message_key msg.header.ratchet_pub_key
        (counter msg.header.n) (counter msg.header.pn)

  unfoldable pub decrypt_skipped : Text → Step Text
  decrypt_skipped key session =
      spend_skipped msg
        (continue (or_throw (p.decode_base64 key)) (λ k s. (text_or_null (open_message k), s))
          session).0
        session

  -- The new receiving chain.
  abbrev pub start_receive_chain : Bytes × Bytes → Session → Session
  start_receive_chain (root_key, chain_key) session = record session {
    root_key = p.encode_base64 root_key;
    recv_chain_key = some (p.encode_base64 chain_key);
    recv_ratchet_pub_key = some msg.header.ratchet_pub_key;
    recv_chain_index = 0;
  }

  -- The new sending chain, from the root key just derived.
  abbrev pub next_send_chain : KeyPair → Bytes → Session → Outcome (Unit {0}) × Session
  next_send_chain pair root_key session =
      continue
        (or_throw (
          p.decode_base64 msg.header.ratchet_pub_key >>? λ peer.
          p.box_before peer pair.secret_key >>? λ dh_output. kdf_root p root_key dh_output))
        (λ keys s. (done tt, start_send_chain p pair keys s)) session

  unfoldable pub dh_ratchet : KeyPair → Step (Unit {0})
  dh_ratchet pair session =
      continue
        (or_throw (
          p.decode_base64 session.send_ratchet_priv_key >>? λ secret.
          mix_root p session.root_key secret msg.header.ratchet_pub_key))
        (λ keys s. next_send_chain pair keys.0 (start_receive_chain keys s)) session

  -- `if (!(await this.skipMessageKeys(draft, until))) return null`
  unfoldable pub skip_until : ℕ → Step (Unit {0})
  skip_until until = skip_message_keys p until >>= λ skipped s. (or_null skipped, s)

  unfoldable pub follow_ratchet : KeyPair → Step (Unit {0})
  follow_ratchet pair session =
      if is_new_key msg.header.ratchet_pub_key session.recv_ratchet_pub_key
      then (if truthy session.recv_chain_key
          then (skip_until (counter msg.header.pn) >> dh_ratchet pair) session
          else dh_ratchet pair session)
      else (done tt, session)

  abbrev pub advance_receive : Bytes → Session → Session
  advance_receive next_chain_key session = record session {
    recv_chain_key = some (p.encode_base64 next_chain_key);
    recv_chain_index = session.recv_chain_index + 1;
  }

  unfoldable pub open_next : Step Text
  open_next session =
      if not (truthy session.recv_chain_key)
      then (null, session)
      else continue
          (or_throw
            (p.decode_base64 (session.recv_chain_key or_else []) >>? λ key. kdf_chain p key))
          (λ keys s. (text_or_null (open_message keys.1), advance_receive keys.0 s)) session

  unfoldable pub decrypt_draft : KeyPair → Step Text
  decrypt_draft pair = follow_ratchet pair >> skip_until (counter msg.header.n) >> open_next

  unfoldable pub decrypt : KeyPair → Step Text
  decrypt pair session =
      let stored = lookup (message_key_id msg) session.skipped_keys in
      if not (validate_message msg)
      then (null, session)
      else if truthy stored
      then decrypt_skipped (stored or_else []) session
      else commit session (decrypt_draft pair session)
