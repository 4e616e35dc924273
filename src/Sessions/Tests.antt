-- ===== src/Sessions/Tests.antt =====
-- A first contact and its answer on the toy platform.
use messk.Prelude.{
  List, All, Option, ℕ, ◌≡◌, refl, none, some, [], ◌∷◌, codes, Text, decimal, replicate, arith,
  same,
}
use messk.Prelude.Dict.{lookup}
use messk.Metadata.{metadata_padding_target_len}
use messk.Ratchet.Platform.{stringify_envelope, KeyPair, Session, Bytes}
use messk.Ratchet.Step.{Outcome, done, throws}
use messk.Ratchet.Seal.{seal, build_authenticated_plaintext}
use messk.Ratchet.Send.{encrypt, encrypt_on_chain, ensure_send_chain}
use messk.Ratchet.Delivery.{Ahead}
use messk.Ratchet.Toy.{toy, toy-IsPlatform, ToyPair, toy-IsKeyExchange}
use messk.Ratchet.Turn.{IsUnseen}
use messk.Ratchet.Turn.Dialogue.{Ready}
use messk.Handshake.{x3dh_initiate}
use messk.Sessions.{
  Draws, SessionStore, encrypt_in_session, parse_envelope_x3dh, find_prekey, delete_prekey,
  prekey_id, used_prekey, initiator_session, responder_session,
}
use messk.Sessions.Decrypt.{decrypt_in_session}
use messk.Sessions.Contact.{decrypt_in_session-encrypt_in_session, Introduced, started-Ahead, Holds}
use messk.Sessions.Reply.{Introduced-Ready}
use messk.Sessions.Unread.{UnreadAtMostDeleted, decrypt_in_session-Unread}
use messk.Sessions.Lost.{HasNoHandshake, encrypt_all, encrypt_in_session-lost_handshake}

abbrev pub key : ℕ → KeyPair
key n = record { public_key = n ∷ []; secret_key = n ∷ [] }

abbrev pub draws : Draws
draws = record { ephemeral = key 3; ratchet = key 4; chain = key 6; nonce = replicate 24 9 }

abbrev pub no_sessions : SessionStore
no_sessions = record { sessions = []; prekeys = [] }

abbrev pub bob_store : SessionStore
bob_store = record {
  sessions = [];
  prekeys = (record { id = 7; public_key = 5 ∷ []; secret_key = 5 ∷ [] }) ∷ [];
}

abbrev pub text_of : Outcome Text → Text
text_of (done t) = t
text_of _ = []

abbrev pub first_sent : Outcome Text × SessionStore
first_sent =
    encrypt_in_session toy draws (2 ∷ []) (codes "hello") (1 ∷ []) (some (5 ∷ [])) no_sessions

pub is_sent : first_sent ≡ (done (text_of first_sent.0), first_sent.1)
unfolding encrypt_in_session lookup x3dh_initiate encrypt encrypt_on_chain ensure_send_chain seal
    build_authenticated_plaintext metadata_padding_target_len stringify_envelope decimal
is_sent = refl

pub holds : Holds toy (some (key 5)) bob_store
unfolding find_prekey same
holds = refl

pub unknown : {V : Type 0} (k : Text) → lookup {V = V} k [] ≡ none
unfolding lookup
unknown k = refl

abbrev pub first_received : Outcome Text × SessionStore
first_received =
    decrypt_in_session toy (key 8) (key 10) (2 ∷ []) (1 ∷ []) (text_of first_sent.0)
      (parse_envelope_x3dh (text_of first_sent.0)) bob_store

decrypt_in_session-encrypt_in_session_example :
    (first_received.0 ≡ done (codes "hello"))
    × (first_received.1.prekeys
        ≡ delete_prekey (prekey_id (used_prekey (some (5 ∷ [])) bob_store)) bob_store.prekeys)
    × (mine : Session) × (theirs : Session) × (lookup (2 ∷ []) first_sent.1.sessions ≡ some mine)
    × (lookup (1 ∷ []) first_received.1.sessions ≡ some theirs)
    × Ahead toy mine theirs 0
    × Introduced toy (key 4) mine theirs
decrypt_in_session-encrypt_in_session_example =
    decrypt_in_session-encrypt_in_session toy toy-IsPlatform ToyPair toy-IsKeyExchange (key 1)
      (key 2) (some (key 5)) draws (key 8) (key 10) (codes "hello") (text_of first_sent.0)
      no_sessions bob_store first_sent.1 (refl, omega arith) (refl, omega arith) (refl, omega arith)
      (refl, omega arith) (refl, omega arith) holds (unknown _) (unknown _) is_sent refl

abbrev mine : Session
mine = initiator_session toy (2 ∷ []) (some (5 ∷ [])) (key 4) (replicate 32 9)

abbrev theirs : Session
theirs = responder_session toy (1 ∷ []) (4 ∷ []) (key 8) (replicate 32 9)

introduced : Introduced toy (key 4) mine theirs
introduced = record {
  secret = replicate 32 9;
  mine_root = refl;
  theirs_root = refl;
  mine_secret = refl;
  theirs_peer = refl;
  unspoken = refl;
  unheard = refl;
  unsent = refl;
}

chain_IsUnseen : IsUnseen (6 ∷ []) mine
unfolding lookup same
chain_IsUnseen = (refl, λ j. refl)

Introduced-Ready_example :
    (speaking : Session) × ((nonce : Bytes) (t : Text)
      → encrypt toy (key 6) nonce t theirs ≡ encrypt toy (key 6) nonce t speaking)
    × Ready toy ToyPair speaking mine
Introduced-Ready_example =
    Introduced-Ready toy toy-IsPlatform ToyPair toy-IsKeyExchange (key 4) (key 6) mine theirs
      introduced
      (started-Ahead toy toy-IsPlatform (replicate 32 9) refl (key 4) (omega arith) (key 8) (1 ∷ [])
        (2 ∷ []) (some (5 ∷ [])))
      (refl, omega arith) (refl, omega arith) chain_IsUnseen

decrypt_in_session-Unread_example :
    UnreadAtMostDeleted (1 ∷ []) bob_store (parse_envelope_x3dh (codes "{}")) (
      decrypt_in_session toy
        (key 8)
        (key 10)
        (2 ∷ [])
        (1 ∷ [])
        (codes "{}")
        (parse_envelope_x3dh (codes "{}"))
        bob_store)
decrypt_in_session-Unread_example =
    decrypt_in_session-Unread toy (key 8) (key 10) (1 ∷ []) (2 ∷ []) (codes "{}")
      (parse_envelope_x3dh (codes "{}")) bob_store

-- No box can be made with a nonce of the wrong length.
abbrev broken : Draws
broken = record draws { nonce = [] }

abbrev x3dh_secret : Bytes
x3dh_secret = replicate 32 832

abbrev broken_store : SessionStore
broken_store =
    (encrypt_in_session toy broken (2 ∷ []) (codes "hello") (1 ∷ []) (some (5 ∷ [])) no_sessions).1

initiates :
    x3dh_initiate toy broken.ephemeral (1 ∷ []) (2 ∷ []) (some (5 ∷ [])) none
    ≡ some (x3dh_secret, 3 ∷ [])
unfolding x3dh_initiate
initiates = refl

fails :
    (encrypt toy broken.chain broken.nonce
      (codes "hello")
      (initiator_session toy (2 ∷ []) (some (5 ∷ [])) broken.ratchet x3dh_secret)).0
    ≡ throws
unfolding encrypt encrypt_on_chain ensure_send_chain seal build_authenticated_plaintext
    metadata_padding_target_len stringify_envelope decimal
fails = refl

abbrev later_texts : List (Draws × Text × Option Text)
later_texts = (draws, codes "hello", some (5 ∷ [])) ∷ ((broken, codes "again", none) ∷ [])

encrypt_in_session-lost_handshake_example :
    All
      (HasNoHandshake toy (2 ∷ []) (1 ∷ []))
      (encrypt_all toy (2 ∷ []) (1 ∷ []) later_texts broken_store)
encrypt_in_session-lost_handshake_example =
    encrypt_in_session-lost_handshake toy (2 ∷ []) (1 ∷ []) broken (codes "hello") (some (5 ∷ []))
      x3dh_secret (3 ∷ []) no_sessions later_texts (unknown _) initiates fails
