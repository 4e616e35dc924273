-- ===== src/Handshake.antt =====
-- messk/src/lib/crypto.ts: the handshake that gives two parties their first shared secret, and boxes
-- for one recipient. tweetnacl and WebCrypto are the ratchet's `Platform`; its `box` is `box_before`
-- followed by `secretbox`, as tweetnacl documents. The ephemeral key pair and the nonce that the
-- source draws at random are arguments. Overwriting buffers with zeros is not modelled.
pub mod Agreement
pub mod Boxes
mod Tests
use messk.Prelude.{
  ℕ, ◌*◌, Option, none, some, [], ◌++◌, Text, codes, truthy, replicate, take, drop, ◌or_else◌, ◌&&◌,
  if◌then◌else◌,
}
use messk.Ratchet.Platform.{Platform, Bytes, KeyPair}
use messk.Ratchet.Step.{◌>>?◌}

abbrev pub x3dh_info : Text
x3dh_info = codes "messk-x3dh-v2-root-key"

abbrev pub x3dh_salt : Bytes
x3dh_salt = replicate 32 0

-- Where no one-time key is used.
abbrev pub no_secret : Bytes
no_secret = replicate 32 0

-- Three secrets of 32 bytes each at 0, 32 and 64, in 128 bytes that are 0 at first.
abbrev pub combine : Bytes → Bytes → Bytes → Bytes
combine dh1 dh2 dh3 = dh1 ++ (dh2 ++ (dh3 ++ replicate 32 0))

module _ (p : Platform) where
  unfoldable pub derive_x3dh_root_key : Bytes → Option Bytes
  derive_x3dh_root_key input_key_material = p.derive_bits input_key_material x3dh_salt x3dh_info 256

  -- The secret of a Base64 public key and a secret key.
  abbrev pub shared_with : Text → Bytes → Option Bytes
  shared_with pub_key secret_key = p.decode_base64 pub_key >>? λ peer. p.box_before peer secret_key

  -- dh1 and dh3 of the initiator.
  abbrev pub pre_key_secrets : Bytes → Bytes → Option Text → Option (Bytes × Bytes)
  pre_key_secrets my_priv ephemeral_secret peer_pre_key_pub =
      if truthy peer_pre_key_pub
      then (shared_with (peer_pre_key_pub or_else []) my_priv >>? λ dh1.
          shared_with (peer_pre_key_pub or_else []) ephemeral_secret >>? λ dh3. some (dh1, dh3))
      else some (no_secret, no_secret)

  -- The shared secret and the ephemeral public key. `none` is an exception.
  unfoldable pub x3dh_initiate :
      KeyPair → Text → Text → Option Text → Option Text → Option (Bytes × Text)
  unfolding derive_x3dh_root_key
  x3dh_initiate ephemeral my_identity_priv peer_identity_pub peer_pre_key_pub peer_pqc_pub_key =
      p.decode_base64 my_identity_priv >>? λ my_priv.
      pre_key_secrets my_priv ephemeral.secret_key peer_pre_key_pub >>? λ dh.
      shared_with peer_identity_pub ephemeral.secret_key >>? λ dh2.
      if truthy peer_pqc_pub_key
      then none
      else (derive_x3dh_root_key (combine dh.0 dh2 dh.1) >>? λ secret.
          some (secret, p.encode_base64 ephemeral.public_key))

  -- dh1 and dh3 of the responder.
  abbrev pub my_pre_key_secrets : Option Text → Text → Text → Option (Bytes × Bytes)
  my_pre_key_secrets my_pre_key_priv peer_identity_pub peer_ephemeral_pub =
      if truthy my_pre_key_priv
      then (p.decode_base64 (my_pre_key_priv or_else []) >>? λ my_pre_priv.
          shared_with peer_identity_pub my_pre_priv >>? λ dh1.
          shared_with peer_ephemeral_pub my_pre_priv >>? λ dh3. some (dh1, dh3))
      else some (no_secret, no_secret)

  unfoldable pub x3dh_respond :
      Text → Option Text → Option Text → Text → Text → Option Text → Option Bytes
  unfolding derive_x3dh_root_key
  x3dh_respond my_identity_priv my_pre_key_priv my_pqc_priv_key peer_identity_pub peer_ephemeral_pub
        peer_pqc_ciphertext =
      p.decode_base64 my_identity_priv >>? λ my_priv. p.decode_base64 peer_identity_pub >>? λ _.
      my_pre_key_secrets my_pre_key_priv peer_identity_pub peer_ephemeral_pub >>? λ dh.
      shared_with peer_ephemeral_pub my_priv >>? λ dh2.
      if truthy my_pqc_priv_key && truthy peer_pqc_ciphertext
      then none
      else derive_x3dh_root_key (combine dh.0 dh2 dh.1)

  -- `encryptMessage`: nonce and box, in Base64. `none` is an exception.
  unfoldable pub encrypt_message : Bytes → Text → Text → Text → Option Text
  encrypt_message nonce message sender_secret_key recipient_public_key =
      p.decode_utf8 message >>? λ bytes. p.decode_base64 sender_secret_key >>? λ secret.
      shared_with recipient_public_key secret >>? λ key.
      p.secretbox bytes nonce key >>? λ encrypted. some (p.encode_base64 (nonce ++ encrypted))

  -- `decryptMessage`: every exception gives null, `none`.
  unfoldable pub decrypt_message : Text → Text → Text → Option Text
  decrypt_message payload recipient_secret_key sender_public_key =
      p.decode_base64 payload >>? λ packed. p.decode_base64 recipient_secret_key >>? λ secret.
      shared_with sender_public_key secret >>? λ key.
      p.secretbox_open (drop 24 packed) (take 24 packed) key >>? λ opened.
      opened >>? λ decrypted. p.encode_utf8 decrypted
