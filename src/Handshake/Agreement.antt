-- ===== src/Handshake/Agreement.antt =====
-- Initiator and responder.
use messk.Prelude.{◌≡◌, arith, Option, none, some, Text, length}
use messk.Ratchet.Platform.{Platform, IsPlatform, Bytes, KeyPair}
use messk.Ratchet.Turn.{IsKeyExchange}
use messk.Handshake.{x3dh_initiate, x3dh_respond, x3dh_salt, x3dh_info, combine, no_secret}

abbrev pub public_text : Platform → KeyPair → Text
public_text p pair = p.encode_base64 pair.public_key

abbrev pub secret_text : Platform → KeyPair → Text
secret_text p pair = p.encode_base64 pair.secret_key

-- The Base64 text of an optional key pair's public, or secret, key.
abbrev pub public_texts : Platform → Option KeyPair → Option Text
public_texts p none = none
public_texts p (some pair) = some (public_text p pair)

abbrev pub secret_texts : Platform → Option KeyPair → Option Text
secret_texts p none = none
secret_texts p (some pair) = some (secret_text p pair)

abbrev pub AllGenerated : (KeyPair → Type 0) → Option KeyPair → Type 0
AllGenerated Generated none = Unit
AllGenerated Generated (some pair) = Generated pair

module _ (p : Platform) (h : IsPlatform p) (Generated : KeyPair → Type 0)
    (x : IsKeyExchange p Generated) (initiator responder ephemeral : KeyPair) where
  -- Whether or not the responder's one-time key is used, initiator and responder derive one
  -- secret of 32 bytes, where all key pairs are generated and the secret keys are not empty.
  pub x3dh-agree :
      (pre_key : Option KeyPair)
      → Generated initiator
      → Generated responder
      → Generated ephemeral
      → AllGenerated Generated pre_key
      → (secret : Bytes) × (length secret ≡ 32)
        × (x3dh_initiate p ephemeral
              (secret_text p initiator)
              (public_text p responder)
              (public_texts p pre_key)
              none
            ≡ some (secret, public_text p ephemeral))
        × (x3dh_respond p
              (secret_text p responder)
              (secret_texts p pre_key)
              none
              (public_text p initiator)
              (public_text p ephemeral)
              none
            ≡ some secret)
  unfolding x3dh_initiate x3dh_respond
  x3dh-agree none gi gr ge gk =
      let (dh2, there, back) = x.shared responder ephemeral gr ge in
      let (secret, derived, long) =
        x.derive (combine no_secret dh2 no_secret) x3dh_salt x3dh_info 32 (omega arith) in
      (secret, long, simp (h.base64, there, derived), simp (h.base64, back, derived))
  x3dh-agree (some k) gi gr ge gk =
      let (dh1, there1, back1) = x.shared k initiator gk gi in
      let (dh2, there2, back2) = x.shared responder ephemeral gr ge in
      let (dh3, there3, back3) = x.shared k ephemeral gk ge in
      let (secret, derived, long) =
        x.derive (combine dh1 dh2 dh3) x3dh_salt x3dh_info 32 (omega arith) in
      let public_shown = h.base64_nonempty k.public_key (x.long k gk) in
      let secret_shown = h.base64_nonempty k.secret_key (x.long_secret k gk) in
      (
        secret,
        long,
        simp (public_shown, h.base64, there1, there2, there3, derived),
        simp (secret_shown, h.base64, back1, back2, back3, derived),
      )
