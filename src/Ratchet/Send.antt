-- ===== src/Ratchet/Send.antt =====
-- `ensureSendChain` and `encrypt`. The key pair and the nonce that the source draws at random are
-- arguments.
use messk.Prelude.{◌+◌, not, Option, none, some, [], Text, truthy, ◌or_else◌, if◌then◌else◌}
use messk.Ratchet.Platform.{Platform, Bytes, KeyPair, Session, RatchetMessage}
use messk.Ratchet.Step.{Outcome, done, throws, Step, ◌>>◌, or_throw, ◌>>?◌}
use messk.Ratchet.Keys.{kdf_root, kdf_chain}
use messk.Ratchet.Seal.{seal}

module _ (p : Platform) where
  -- The root key mixed with the shared secret of a private and a public key: both keys of `kdfRoot`.
  unfoldable pub mix_root : Text → Bytes → Text → Option (Bytes × Bytes)
  unfolding kdf_root
  mix_root root_key secret_key pub_key = p.decode_base64 root_key >>? λ root.
      p.decode_base64 pub_key >>? λ peer.
      p.box_before peer secret_key >>? λ dh_output. kdf_root p root dh_output

  abbrev pub start_send_chain : KeyPair → Bytes × Bytes → Session → Session
  start_send_chain pair (root_key, chain_key) session = record session {
    root_key = p.encode_base64 root_key;
    send_chain_key = some (p.encode_base64 chain_key);
    send_ratchet_pub_key = p.encode_base64 pair.public_key;
    send_ratchet_priv_key = p.encode_base64 pair.secret_key;
    previous_send_chain_length = session.send_chain_index;
    send_chain_index = 0;
  }

  abbrev pub store_send_chain :
      KeyPair → Session → Option (Bytes × Bytes) → Outcome (Unit {0}) × Session
  store_send_chain pair session none = (throws, session)
  store_send_chain pair session (some keys) = (done tt, start_send_chain pair keys session)

  unfoldable pub ensure_send_chain : KeyPair → Step (Unit {0})
  unfolding mix_root
  ensure_send_chain pair session =
      if truthy session.send_chain_key
      then (done tt, session)
      else if not (truthy session.recv_ratchet_pub_key)
      then (throws, session)
      else store_send_chain pair session
          (mix_root session.root_key pair.secret_key (session.recv_ratchet_pub_key or_else []))

  abbrev pub advance_send : Bytes → Session → Session
  advance_send next_chain_key session = record session {
    send_chain_key = some (p.encode_base64 next_chain_key);
    send_chain_index = session.send_chain_index + 1;
  }

  -- The session is written before the message is sealed.
  abbrev pub seal_next :
      Bytes → Text → Session → Option (Bytes × Bytes) → Outcome RatchetMessage × Session
  seal_next nonce plaintext session none = (throws, session)
  seal_next nonce plaintext session (some (next_chain_key, message_key)) = (
    or_throw (
        seal p nonce message_key session.send_ratchet_pub_key session.send_chain_index
          session.previous_send_chain_length plaintext),
    advance_send next_chain_key session,
  )

  -- `encrypt` after `ensureSendChain`.
  unfoldable pub encrypt_on_chain : Bytes → Text → Step RatchetMessage
  unfolding kdf_chain
  encrypt_on_chain nonce plaintext session =
      if not (truthy session.send_chain_key)
      then (throws, session)
      else seal_next nonce plaintext session
          (p.decode_base64 (session.send_chain_key or_else []) >>? λ key. kdf_chain p key)

  unfoldable pub encrypt : KeyPair → Bytes → Text → Step RatchetMessage
  unfolding ensure_send_chain encrypt_on_chain
  encrypt pair nonce plaintext = ensure_send_chain pair >> encrypt_on_chain nonce plaintext
