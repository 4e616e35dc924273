-- ===== src/Ratchet/Tests.antt =====
-- A conversation on the toy platform, and instances of the ratchet theorems on it.
use messk.Prelude.{
  ◌or_else◌, length, ◌≡◌, refl, none, some, [], ◌∷◌, Text, codes, decimal, replicate, arith, ◌⊎◌,
  ◌≤◌, if◌then◌else◌,
}
use messk.Prelude.Dict.{lookup}
use messk.Ratchet.Platform.{
  stringify_envelope, KeyPair, Session, RatchetMessage, sent_header, Bytes,
}
use messk.Ratchet.Step.{Outcome, done}
use messk.Metadata.Padding.{IsPaddedSize}
use messk.Ratchet.Padded.{build_plaintext-IsPaddedSize}
use messk.Ratchet.Chain.{chain_after}
use messk.Ratchet.Send.{encrypt, encrypt_on_chain, ensure_send_chain}
use messk.Metadata.{metadata_padding_target_len, interactive}
use messk.Ratchet.Seal.{seal, build_authenticated_plaintext, decrypt_with_message_key}
use messk.Ratchet.Receive.{decrypt, message_key_id}
use messk.Ratchet.Open.{decrypt-seal, same_header}
use messk.Ratchet.Atomic.{decrypt-atomic}
use messk.Ratchet.Memory.{Grows, decrypt-Grows}
use messk.Ratchet.Delivery.{Ahead}
use messk.Ratchet.Delivery.Order.{decrypt-encrypt}
use messk.Ratchet.Delivery.Late.{decrypt-out_of_order}
use messk.Ratchet.Toy.{toy, toy-IsPlatform}

abbrev chain_key : Bytes
chain_key = replicate 32 1

abbrev alice : Session
alice = record {
  peer_public_key = codes "bob";
  root_key = replicate 32 2;
  send_chain_key = some chain_key;
  recv_chain_key = none;
  send_ratchet_pub_key = codes "alice-1";
  send_ratchet_priv_key = codes "secret-a";
  recv_ratchet_pub_key = none;
  send_chain_index = 5;
  recv_chain_index = 0;
  previous_send_chain_length = 4;
  skipped_keys = [];
  pqc_shared_secret = none;
}

abbrev bob : Session
bob = record {
  peer_public_key = codes "alice";
  root_key = replicate 32 2;
  send_chain_key = none;
  recv_chain_key = some chain_key;
  send_ratchet_pub_key = codes "bob-1";
  send_ratchet_priv_key = codes "secret-b";
  recv_ratchet_pub_key = some (codes "alice-1");
  send_chain_index = 0;
  recv_chain_index = 5;
  previous_send_chain_length = 0;
  skipped_keys = [];
  pqc_shared_secret = none;
}

abbrev pair : KeyPair
pair = record { public_key = 3 ∷ []; secret_key = 4 ∷ [] }

abbrev nonce : Bytes
nonce = replicate 24 9

abbrev outcome_message : Outcome RatchetMessage → RatchetMessage
outcome_message (done m) = m
outcome_message _ = record { header = sent_header [] 0 0; ciphertext = [] }

abbrev first : RatchetMessage
first = outcome_message (encrypt toy pair nonce (codes "hello") alice).0

abbrev alice_after : Session
alice_after = (encrypt toy pair nonce (codes "hello") alice).1

abbrev second : RatchetMessage
second = outcome_message (encrypt toy pair nonce (codes "again") alice_after).0

first_sent : (encrypt toy pair nonce (codes "hello") alice).0 ≡ done first
unfolding encrypt encrypt_on_chain ensure_send_chain seal build_authenticated_plaintext
    metadata_padding_target_len stringify_envelope decimal
first_sent = refl

second_sent : (encrypt toy pair nonce (codes "again") alice_after).0 ≡ done second
unfolding encrypt encrypt_on_chain ensure_send_chain seal build_authenticated_plaintext
    metadata_padding_target_len stringify_envelope decimal
second_sent = refl

in_step : Ahead toy alice bob 0
unfolding chain_after lookup
in_step = record {
  sent = chain_key;
  expected = chain_key;
  send_key = refl;
  recv_key = refl;
  sent_long = omega arith;
  expected_long = omega arith;
  chain = refl;
  index = omega arith;
  peer = refl;
  named = refl;
  fresh = λ j later. refl;
}

decrypt-encrypt_example :
    ((decrypt toy first pair bob).0 ≡ done (codes "hello"))
    × Ahead toy alice_after (decrypt toy first pair bob).1 0
decrypt-encrypt_example =
    decrypt-encrypt toy toy-IsPlatform pair nonce (codes "hello") alice bob first 0 in_step
      (omega arith) first_sent refl pair

decrypt-out_of_order_example :
    ((decrypt toy second pair bob).0 ≡ done (codes "again"))
    × ((decrypt toy first pair (decrypt toy second pair bob).1).0 ≡ done (codes "hello"))
    × (lookup
          (message_key_id first)
          (decrypt toy first pair (decrypt toy second pair bob).1).1.skipped_keys
        ≡ none)
decrypt-out_of_order_example =
    decrypt-out_of_order toy toy-IsPlatform pair nonce nonce (codes "hello") (codes "again") alice
      bob first second 0 in_step (omega arith) first_sent second_sent refl refl pair pair

decrypt-atomic_example :
    ((t : Text) × ((decrypt toy second pair alice).0 ≡ done t))
    ⊎ ((decrypt toy second pair alice).1 ≡ alice)
decrypt-atomic_example = decrypt-atomic toy second alice pair

first_sealed : seal toy nonce (replicate 32 33) (codes "alice-1") 5 4 (codes "hello") ≡ some first
unfolding encrypt encrypt_on_chain ensure_send_chain seal build_authenticated_plaintext
    metadata_padding_target_len stringify_envelope decimal
first_sealed = refl

decrypt-seal_example :
    decrypt_with_message_key toy first.ciphertext (replicate 32 33) (codes "alice-1") 6 4 ≡ (
      if same_header (codes "alice-1") 5 4 (codes "alice-1") 6 4
      then some (codes "hello")
      else none)
decrypt-seal_example =
    decrypt-seal toy toy-IsPlatform nonce (replicate 32 33) (codes "alice-1") 5 4 (codes "hello")
      first (codes "alice-1") 6 4 first_sealed

abbrev sealed_text : Text
sealed_text = build_authenticated_plaintext (codes "k") 1 2 (codes "t") or_else []

sealed_text_test : build_authenticated_plaintext (codes "k") 1 2 (codes "t") ≡ some sealed_text
unfolding build_authenticated_plaintext metadata_padding_target_len stringify_envelope decimal
sealed_text_test = refl

build_plaintext-IsPaddedSize_example :
    IsPaddedSize interactive (length sealed_text) × (length sealed_text ≤ 1048576)
build_plaintext-IsPaddedSize_example =
    build_plaintext-IsPaddedSize (codes "k") 1 2 (codes "t") sealed_text sealed_text_test

decrypt-Grows_example : Grows 100 bob (decrypt toy second pair bob)
decrypt-Grows_example = decrypt-Grows toy second pair bob
