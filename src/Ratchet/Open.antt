-- ===== src/Ratchet/Open.antt =====
-- `decryptWithMessageKey` on what `encrypt` has sealed.
use messk.Prelude.{
  ℕ, ◌-◌, ◌==◌, ◌≤◌, ◌≡◌, refl, sym, ◌or_else◌, ap, ◌∙◌, Bool, true, false, ◌&&◌, none, some, [],
  ◌++◌, Text, nonempty, same, length, length-append, take-append, drop-append, take, drop,
  replicate, ltb, if◌then◌else◌, arith,
}
use messk.Json.{get, is_truthy, field_of}
use messk.Json.Parse.{parse_json}
use messk.Ratchet.Platform.{
  Platform, Bytes, RatchetMessage, IsPlatform, sent_header, stringify_envelope, envelope_json,
}
use messk.Ratchet.Step.{>>?-some}
use messk.Ratchet.Seal.{
  seal, build_authenticated_plaintext, padding_target, read_envelope, decrypt_with_message_key,
  is_count, is_text, check_header,
}
use messk.Ratchet.Wire.{parse-stringify_envelope}

abbrev pub same_header : Text → ℕ → ℕ → Text → ℕ → ℕ → Bool
same_header k n pn k' n' pn' = same k k' && (n == n') && (pn == pn')

read-envelope_json :
    (decoded k : Text) (n pn : ℕ) (k' : Text) (n' pn' : ℕ) (plaintext padding : Text)
    → read_envelope decoded k' n' pn' (some (envelope_json k n pn plaintext padding))
      ≡ (if same_header k n pn k' n' pn' then some plaintext else none)
unfolding read_envelope check_header is_count is_text get field_of same is_truthy
read-envelope_json decoded k n pn k' n' pn' plaintext padding = refl

-- What sealing a message gives, step by step.
abbrev Sealed : Platform → Bytes → Bytes → Text → ℕ → ℕ → Text → RatchetMessage → Type 0
Sealed p nonce key pub_key n pn plaintext msg =
    (padding : Text) × (bytes : Bytes) × (box : Bytes) × (p.decode_utf8
        (stringify_envelope pub_key n pn plaintext padding)
      ≡ some bytes)
    × (p.secretbox bytes nonce key ≡ some box)
    × (msg.header ≡ sent_header pub_key n pn)
    × (msg.ciphertext ≡ p.encode_base64 (nonce ++ box))

built-padding :
    (pub_key : Text) (n pn : ℕ) (plaintext text : Text)
    → build_authenticated_plaintext pub_key n pn plaintext ≡ some text
    → (padding : Text) × (text ≡ stringify_envelope pub_key n pn plaintext padding)
unfolding build_authenticated_plaintext
built-padding pub_key n pn plaintext text e = (
  replicate
      (padding_target pub_key n pn plaintext
        - length (stringify_envelope pub_key n pn plaintext []))
      b'0',
  ground arith,
)

module _ (p : Platform) where
  seal-steps :
      (nonce key : Bytes) (pub_key : Text) (n pn : ℕ) (plaintext : Text) (msg : RatchetMessage)
      → seal p nonce key pub_key n pn plaintext ≡ some msg
      → Sealed p nonce key pub_key n pn plaintext msg
  unfolding seal
  seal-steps nonce key pub_key n pn plaintext msg e =
      let (text, built, e1) =
        >>?-some (build_authenticated_plaintext pub_key n pn plaintext) _ msg e in
      let (bytes, decoded, e2) = >>?-some (p.decode_utf8 text) _ msg e1 in
      let (box, boxed, e3) = >>?-some (p.secretbox bytes nonce key) _ msg e2 in
      let (padding, q) = built-padding pub_key n pn plaintext text built in
      (
        padding,
        bytes,
        box,
        rw (← q) decoded,
        boxed,
        ap (λ o. (o or_else msg).header) (sym e3),
        ap (λ o. (o or_else msg).ciphertext) (sym e3),
      )

module _ (p : Platform) (h : IsPlatform p) (nonce key : Bytes) (pub_key : Text) (n pn : ℕ)
    (plaintext : Text) where
  open-steps :
      (ciphertext : Text) (full_cipher bytes : Bytes) (decoded k : Text) (n' pn' : ℕ)
      → p.decode_base64 ciphertext ≡ some full_cipher
      → 40 ≤ length full_cipher
      → p.secretbox_open (drop 24 full_cipher) (take 24 full_cipher) key ≡ some (some bytes)
      → p.encode_utf8 bytes ≡ some decoded
      → decrypt_with_message_key p ciphertext key k n' pn'
        ≡ read_envelope decoded k n' pn' (parse_json decoded)
  unfolding decrypt_with_message_key
  open-steps ciphertext full_cipher bytes decoded k n' pn' e long opened text =
      let large : ltb (length full_cipher) 40 ≡ false = ground arith in
      rw (e, large, opened, text) refl

  -- What has been sealed opens, with the same message key, to its text under its own header, and
  -- to null under a header that differs in the public key or in a counter.
  pub decrypt-seal :
      (msg : RatchetMessage) (k : Text) (n' pn' : ℕ)
      → seal p nonce key pub_key n pn plaintext ≡ some msg
      → decrypt_with_message_key p msg.ciphertext key k n' pn'
        ≡ (if same_header pub_key n pn k n' pn' then some plaintext else none)
  decrypt-seal msg k n' pn' e =
      let (padding, bytes, box, decoded, boxed, header, cipher) =
        seal-steps p nonce key pub_key n pn plaintext msg e in
      let (nonce_length, box_length, opened) = h.box bytes nonce key box boxed in
      let text = stringify_envelope pub_key n pn plaintext padding in
      open-steps msg.ciphertext (nonce ++ box) bytes text k n' pn'
        (rw cipher (h.base64 (nonce ++ box))) (omega (arith, length-append nonce box))
        (rw (take-append 24 nonce box nonce_length, drop-append 24 nonce box nonce_length) opened)
        (h.utf8 text bytes decoded)
      ∙ ap (read_envelope text k n' pn') (parse-stringify_envelope pub_key n pn plaintext padding)
      ∙ read-envelope_json text pub_key n pn k n' pn' plaintext padding

  pub seal-valid :
      (msg : RatchetMessage)
      → seal p nonce key pub_key n pn plaintext ≡ some msg
      → (msg.header ≡ sent_header pub_key n pn) × (nonempty msg.ciphertext ≡ true)
  seal-valid msg e =
      let (padding, bytes, box, decoded, boxed, header, cipher) =
        seal-steps p nonce key pub_key n pn plaintext msg e in
      let (nonce_length, box_length, opened) = h.box bytes nonce key box boxed in
      (
        header,
        rw cipher (h.base64_nonempty (nonce ++ box) (omega (arith, length-append nonce box))),
      )
