-- ===== src/Ratchet/Seal.antt =====
-- `buildAuthenticatedPlaintext` and the two uses of `secretbox`: a message is sealed with its
-- header and opened against the header that it arrives with.
use messk.Prelude.{
  ℕ, ◌+◌, ◌-◌, ◌==◌, Bool, true, false, ◌&&◌, not, Option, none, some, [], ◌++◌, Text, codes, same,
  length, take, drop, replicate, ltb, if◌then◌else◌,
}
use messk.Prelude.Int.{pos}
use messk.Prelude.Number.{Number}
use messk.Json.{Json, str, num, get, is_truthy}
use messk.Json.Parse.{parse_json}
use messk.Metadata.{metadata_padding_target_len, interactive}
use messk.Ratchet.Platform.{Platform, Bytes, RatchetMessage, sent_header, stringify_envelope}
use messk.Ratchet.Step.{◌>>?◌}

abbrev pub max_padded_payload_bytes : ℕ
max_padded_payload_bytes = 1048576

abbrev pub nonce_length : ℕ
nonce_length = 24

abbrev pub overhead_length : ℕ
overhead_length = 16

unfoldable pub padding_target : Text → ℕ → ℕ → Text → ℕ
padding_target pub_key n pn plaintext =
    metadata_padding_target_len interactive
      (pos (length (stringify_envelope pub_key n pn plaintext [])))

-- `none` is the error `Message is too large after metadata padding`.
unfoldable pub build_authenticated_plaintext : Text → ℕ → ℕ → Text → Option Text
unfolding padding_target
build_authenticated_plaintext pub_key n pn plaintext =
    let target = padding_target pub_key n pn plaintext in
    let empty_padding = stringify_envelope pub_key n pn plaintext [] in
    if ltb max_padded_payload_bytes target
    then none
    else some
        (stringify_envelope pub_key n pn plaintext (replicate (target - length empty_padding) b'0'))

module _ (p : Platform) where
  -- The end of `encrypt`: nonce and box, in Base64.
  unfoldable pub seal : Bytes → Bytes → Text → ℕ → ℕ → Text → Option RatchetMessage
  seal nonce message_key pub_key n pn plaintext =
      build_authenticated_plaintext pub_key n pn plaintext >>? λ authenticated.
      p.decode_utf8 authenticated >>? λ bytes. p.secretbox bytes nonce message_key >>? λ box.
      some
        (record { header = sent_header pub_key n pn; ciphertext = p.encode_base64 (nonce ++ box) })

-- `value === text`
unfoldable pub is_text : Option Json → Text → Bool
is_text (some (str s)) t = same s t
is_text _ t = false

-- `value === n`
unfoldable pub is_count : Option Json → ℕ → Bool
is_count (some (num (Number.int (pos m)))) n = m == n
is_count _ n = false

-- The tests on `v`, `plaintext` and `header`, and then on the header's members.
unfoldable pub check_header : Text → Text → ℕ → ℕ → Option Json → Option Json → Bool → Option Text
unfolding is_text is_count get
check_header decoded pub_key n pn (some header) (some (str plaintext)) true =
    if not (is_truthy (some header))
    then some decoded
    else if is_text (get header (codes "ratchetPubKey")) pub_key
        && is_count (get header (codes "n")) n
        && is_count (get header (codes "pn")) pn
    then some plaintext
    else none
check_header decoded pub_key n pn _ _ _ = some decoded

-- What the inner `try` returns for the parsed text. On the value null the read of `v` throws, and
-- the `catch` returns the text as for a syntax error.
unfoldable pub read_envelope : Text → Text → ℕ → ℕ → Option Json → Option Text
unfolding check_header is_count get
read_envelope decoded pub_key n pn none = some decoded
read_envelope decoded pub_key n pn (some Json.null) = some decoded
read_envelope decoded pub_key n pn (some envelope) =
    check_header decoded pub_key n pn (get envelope (codes "header"))
      (get envelope (codes "plaintext")) (is_count (get envelope (codes "v")) 1)

module _ (p : Platform) where
  -- Every exception is caught and gives null, `none`.
  unfoldable pub decrypt_with_message_key : Text → Bytes → Text → ℕ → ℕ → Option Text
  unfolding read_envelope
  decrypt_with_message_key ciphertext message_key pub_key n pn =
      p.decode_base64 ciphertext >>? λ full_cipher.
      if ltb (length full_cipher) (nonce_length + overhead_length)
      then none
      else p.secretbox_open (drop nonce_length full_cipher) (take nonce_length full_cipher)
          message_key
        >>? λ opened. opened >>? λ decrypted. p.encode_utf8 decrypted >>? λ decoded.
            read_envelope decoded pub_key n pn (parse_json decoded)
