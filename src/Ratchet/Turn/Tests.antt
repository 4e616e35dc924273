-- ===== src/Ratchet/Turn/Tests.antt =====
-- A turn of the ratchet on the toy platform.
use messk.Prelude.{
  List, Text, ℕ, ◌≡◌, refl, none, some, [], ◌∷◌, codes, decimal, replicate, arith, inl, same,
}
use messk.Prelude.Dict.{lookup}
use messk.Prelude.Number.{is_integer, at_least}
use messk.Json.{is_truthy}
use messk.Json.Parse.{parse_json}
use messk.Ratchet.Platform.{
  stringify_envelope, KeyPair, Session, RatchetMessage, sent_header, Bytes,
}
use messk.Ratchet.Step.{Outcome, done}
use messk.Metadata.{metadata_padding_target_len}
use messk.Ratchet.Seal.{seal, build_authenticated_plaintext, decrypt_with_message_key}
use messk.Ratchet.Keys.{kdf_root, hkdf, validate_message, skip_message_keys}
use messk.Ratchet.Chain.{chain_after}
use messk.Ratchet.Send.{encrypt, encrypt_on_chain, ensure_send_chain}
use messk.Ratchet.Receive.{
  decrypt, decrypt_draft, follow_ratchet, dh_ratchet, skip_until, open_next,
}
use messk.Ratchet.Toy.{toy, toy-IsPlatform, ToyPair, toy-IsKeyExchange}
use messk.Ratchet.Turn.{Turn, IsUnseen}
use messk.Ratchet.Turn.Dialogue.{Ready, Dialogue, say, silence, AllRead, Dialogue-AllRead}

abbrev toy_pair : ℕ → KeyPair
toy_pair n = record { public_key = n ∷ []; secret_key = n ∷ [] }

abbrev next_key : Bytes
next_key = replicate 32 448

abbrev bob : Session
bob = record {
  peer_public_key = codes "alice";
  root_key = next_key;
  send_chain_key = some next_key;
  recv_chain_key = none;
  send_ratchet_pub_key = 3 ∷ [];
  send_ratchet_priv_key = 3 ∷ [];
  recv_ratchet_pub_key = some (4 ∷ []);
  send_chain_index = 0;
  recv_chain_index = 0;
  previous_send_chain_length = 0;
  skipped_keys = [];
  pqc_shared_secret = none;
}

abbrev alice : Session
alice = record {
  peer_public_key = codes "bob";
  root_key = replicate 32 2;
  send_chain_key = none;
  recv_chain_key = none;
  send_ratchet_pub_key = 4 ∷ [];
  send_ratchet_priv_key = 4 ∷ [];
  recv_ratchet_pub_key = none;
  send_chain_index = 0;
  recv_chain_index = 0;
  previous_send_chain_length = 0;
  skipped_keys = [];
  pqc_shared_secret = none;
}

abbrev nonce : Bytes
nonce = replicate 24 9

abbrev outcome_message : Outcome RatchetMessage → RatchetMessage
outcome_message (done m) = m
outcome_message _ = record { header = sent_header [] 0 0; ciphertext = [] }

abbrev hello : RatchetMessage
hello = outcome_message (encrypt toy (toy_pair 7) nonce (codes "hello") bob).0

hello_sent : (encrypt toy (toy_pair 7) nonce (codes "hello") bob).0 ≡ done hello
unfolding encrypt encrypt_on_chain ensure_send_chain seal build_authenticated_plaintext
    metadata_padding_target_len stringify_envelope decimal
hello_sent = refl

turn : Turn toy ToyPair bob alice
unfolding kdf_root hkdf chain_after lookup
turn = record {
  mine = toy_pair 3;
  theirs = toy_pair 4;
  generated = (refl, omega arith);
  root = replicate 32 2;
  dh = replicate 32 12;
  next_root = next_key;
  chain = next_key;
  sent = next_key;
  recv_root = refl;
  recv_secret = refl;
  send_pub = refl;
  send_secret = refl;
  exchange = refl;
  mixed = refl;
  chain_long = omega arith;
  sent_long = omega arith;
  send_root = refl;
  send_key = refl;
  progress = refl;
  unseen = (refl, λ j. refl);
}

reply-IsUnseen : IsUnseen (5 ∷ []) bob
unfolding lookup same
reply-IsUnseen = (refl, λ j. refl)

abbrev alice_after : Session
alice_after = (decrypt toy hello (toy_pair 5) alice).1

abbrev bob_after : Session
bob_after = (encrypt toy (toy_pair 7) nonce (codes "hello") bob).1

abbrev hi : RatchetMessage
hi = outcome_message (encrypt toy (toy_pair 7) nonce (codes "hi") alice_after).0

ready : Ready toy ToyPair bob alice
ready = record { turn = turn; there = inl refl; back = inl refl; few = omega arith }

hi_sent : (encrypt toy (toy_pair 7) nonce (codes "hi") alice_after).0 ≡ done hi
unfolding encrypt encrypt_on_chain ensure_send_chain seal build_authenticated_plaintext
    metadata_padding_target_len stringify_envelope decimal decrypt validate_message is_integer
    at_least lookup decrypt_draft follow_ratchet dh_ratchet skip_until skip_message_keys open_next
    decrypt_with_message_key same parse_json is_truthy
hi_sent = refl

reply-IsUnseen_later : IsUnseen (6 ∷ []) alice_after
unfolding encrypt encrypt_on_chain ensure_send_chain seal build_authenticated_plaintext
    metadata_padding_target_len stringify_envelope decimal decrypt validate_message is_integer
    at_least lookup decrypt_draft follow_ratchet dh_ratchet skip_until skip_message_keys open_next
    decrypt_with_message_key same parse_json is_truthy
reply-IsUnseen_later = (refl, λ j. refl)

abbrev said : List (Text × Outcome Text)
said =
    (codes "hello", (decrypt toy hello (toy_pair 5) alice).0)
    ∷ ((codes "hi", (decrypt toy hi (toy_pair 6) bob_after).0) ∷ [])

dialogue : Dialogue toy ToyPair said bob alice
dialogue =
    say (toy_pair 7) (toy_pair 5) nonce (codes "hello") hello (refl, omega arith) reply-IsUnseen
      hello_sent refl
      (say (toy_pair 7) (toy_pair 6) nonce (codes "hi") hi (refl, omega arith) reply-IsUnseen_later
        hi_sent refl silence)

Dialogue-AllRead_example : AllRead said
Dialogue-AllRead_example =
    Dialogue-AllRead toy toy-IsPlatform ToyPair toy-IsKeyExchange said bob alice ready dialogue
