-- ===== src/Handshake/Boxes.antt =====
-- Boxes for one recipient: what is sealed is opened.
use messk.Prelude.{
  ◌++◌, ◌or_else◌, [], ◌≡◌, sym, ap, ◌∙◌, Option, some, Text, take-append, drop-append,
}
use messk.Ratchet.Platform.{Platform, IsPlatform, Bytes, KeyPair}
use messk.Ratchet.Step.{◌>>?◌, >>?-some}
use messk.Ratchet.Turn.{IsKeyExchange}
use messk.Handshake.{encrypt_message, decrypt_message}
use messk.Handshake.Agreement.{public_text, secret_text}

module _ (p : Platform) (h : IsPlatform p) (Generated : KeyPair → Type 0)
    (x : IsKeyExchange p Generated) where
  -- A box that one generated key pair makes for another is opened by the other to the same message.
  pub decrypt_message-encrypt_message :
      (sender recipient : KeyPair) (nonce : Bytes) (message payload : Text)
      → Generated sender
      → Generated recipient
      → encrypt_message p nonce message (secret_text p sender) (public_text p recipient)
        ≡ some payload
      → decrypt_message p payload (secret_text p recipient) (public_text p sender) ≡ some message
  unfolding encrypt_message decrypt_message
  decrypt_message-encrypt_message sender recipient nonce message payload gs gr e =
      let (dh, there, back) = x.shared recipient sender gr gs in
      let (bytes, utf8, e1) = >>?-some (p.decode_utf8 message) _ _ e in
      let e2 : (p.secretbox bytes nonce dh >>? λ encrypted.
      some (p.encode_base64 (nonce ++ encrypted)))
          ≡ some payload =
        sym (simp (h.base64, there)) ∙ e1 in
      let (encrypted, boxed, e3) = >>?-some (p.secretbox bytes nonce dh) _ _ e2 in
      let (long, _, opens) = h.box bytes nonce dh encrypted boxed in
      let packs : payload ≡ p.encode_base64 (nonce ++ encrypted) =
        sym (ap (λ (o : Option Text). o or_else []) e3) in
      simp (
        packs,
        h.base64,
        back,
        take-append 24 nonce encrypted long,
        drop-append 24 nonce encrypted long,
        opens,
        h.utf8 message bytes utf8,
      )
