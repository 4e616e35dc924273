-- ===== src/Ratchet/Platform.antt =====
-- What ratchet.ts takes from outside the repository, and the session and message types.
use messk.Prelude.{
  ℕ, ◌+◌, ◌<◌, ◌≡◌, ◌++◌, Text, List, Option, some, length, nonempty, true, decimal, codes,
}
use messk.Prelude.Dict.{Dict}
use messk.Prelude.Int.{pos}
use messk.Prelude.Number.{Number}
use messk.Json.{Json, obj, num, str, field, nil, quote}

abbrev pub Bytes : Type 0
Bytes = List ℕ

-- `none` stands for an exception, and in `secretbox_open` the inner `none` for null.
pub record Platform : Type 0 where
  -- tweetnacl-util
  pub decode_base64 : Text → Option Bytes
  pub encode_base64 : Bytes → Text
  pub decode_utf8 : Text → Option Bytes
  pub encode_utf8 : Bytes → Option Text
  -- WebCrypto: HKDF-SHA-256 by secret, salt, info and bits; HMAC-SHA-256 by key and input
  pub derive_bits : Bytes → Bytes → Text → ℕ → Option Bytes
  pub sign : Bytes → Bytes → Option Bytes
  -- tweetnacl: `box.before` by public and secret key; message or box, nonce and key
  pub box_before : Bytes → Bytes → Option Bytes
  pub secretbox : Bytes → Bytes → Bytes → Option Bytes
  pub secretbox_open : Bytes → Bytes → Bytes → Option (Option Bytes)

pub record KeyPair : Type 0 where
  pub public_key : Bytes
  pub secret_key : Bytes

pub record Session : Type 0 where
  pub peer_public_key : Text
  pub root_key : Text
  pub send_chain_key : Option Text
  pub recv_chain_key : Option Text
  pub send_ratchet_pub_key : Text
  pub send_ratchet_priv_key : Text
  pub recv_ratchet_pub_key : Option Text
  pub send_chain_index : ℕ
  pub recv_chain_index : ℕ
  pub previous_send_chain_length : ℕ
  pub skipped_keys : Dict Text
  pub pqc_shared_secret : Option Text

pub record Header : Type 0 where
  pub ratchet_pub_key : Text
  pub n : Number
  pub pn : Number

pub record RatchetMessage : Type 0 where
  pub header : Header
  pub ciphertext : Text

-- A header that this client writes: its counters are natural numbers.
abbrev pub sent_header : Text → ℕ → ℕ → Header
sent_header pub_key n pn = record {
  ratchet_pub_key = pub_key;
  n = Number.int (pos n);
  pn = Number.int (pos pn);
}

-- `{"v":1,"header":{…},"plaintext":…,"padding":…}`, as JSON.stringify writes it.
unfoldable pub stringify_envelope : Text → ℕ → ℕ → Text → Text → Text
unfolding quote
stringify_envelope pub_key n pn plaintext padding =
    codes "{\"v\":1,\"header\":{\"ratchetPubKey\":"
    ++ (quote pub_key
        ++ (codes ",\"n\":"
            ++ (decimal n
                ++ (codes ",\"pn\":"
                    ++ (decimal pn
                        ++ (codes "},\"plaintext\":"
                            ++ (quote plaintext
                                ++ (codes ",\"padding\":" ++ (quote padding ++ codes "}")))))))))

-- The value that it stands for.
abbrev pub envelope_json : Text → ℕ → ℕ → Text → Text → Json
envelope_json pub_key n pn plaintext padding = obj (
    field (codes "v") (num (Number.int (pos 1))) (
      field (codes "header")
        (obj (
          field (codes "ratchetPubKey") (str pub_key) (
            field (codes "n") (num (Number.int (pos n)))
              (field (codes "pn") (num (Number.int (pos pn))) nil))))
        (field (codes "plaintext") (str plaintext) (field (codes "padding") (str padding) nil))))

-- The documented behaviour that the proofs rely on: decoding undoes encoding, opening a box undoes
-- making it and a box has 16 bytes more than its message, an HMAC has 32 bytes.
pub record IsPlatform (p : Platform) : Type 0 where
  pub base64 : (b : Bytes) → p.decode_base64 (p.encode_base64 b) ≡ some b
  pub base64_nonempty : (b : Bytes) → 0 < length b → nonempty (p.encode_base64 b) ≡ true
  pub utf8 : (t : Text) (b : Bytes) → p.decode_utf8 t ≡ some b → p.encode_utf8 b ≡ some t
  pub box :
      (m nonce key c : Bytes)
      → p.secretbox m nonce key ≡ some c
      → (length nonce ≡ 24)
        × (length c ≡ length m + 16)
        × (p.secretbox_open c nonce key ≡ some (some m))
  pub sign_length : (key d r : Bytes) → p.sign key d ≡ some r → length r ≡ 32
