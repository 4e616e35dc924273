-- ===== src/Ratchet/Turn.antt =====
-- Two sessions across a step of the Diffie-Hellman ratchet: the sender has derived a sending chain
-- from a new key pair, and the receiver has not yet seen its public key.
pub mod Exchange
pub mod Skipping
pub mod Arrival
pub mod Reply
pub mod Dialogue
mod Tests
use messk.Prelude.{
  ◌≤◌, ℕ, ◌*◌, ◌<◌, ◌≡◌, Option, some, true, none, Text, length, truthy, false, ◌⊎◌,
}
use messk.Prelude.Dict.{lookup}
use messk.Ratchet.Platform.{Platform, Bytes, KeyPair, Session}
use messk.Ratchet.Step.{done}
use messk.Ratchet.Keys.{kdf_root, skipped_key_id, skip_message_keys}
use messk.Ratchet.Chain.{chain_after}
use messk.Ratchet.Receive.{is_new_key}

-- The documented behaviour of X25519 and HKDF: two generated key pairs agree on a shared secret,
-- from either side, and of the bits that are derived, eight make a byte.
pub record IsKeyExchange (p : Platform) (Generated : KeyPair → Type 0) : Type 0 where
  pub shared :
      (a b : KeyPair)
      → Generated a
      → Generated b
      → (dh : Bytes) × (p.box_before a.public_key b.secret_key ≡ some dh)
        × (p.box_before b.public_key a.secret_key ≡ some dh)
  pub long : (a : KeyPair) → Generated a → 0 < length a.public_key
  pub long_secret : (a : KeyPair) → Generated a → 0 < length a.secret_key
  pub derive :
      (secret salt : Bytes) (info : Text) (n : ℕ)
      → n ≤ 8160
      → (r : Bytes) × (p.derive_bits secret salt info (n * 8) ≡ some r) × (length r ≡ n)

-- A ratchet key that a session has not met.
abbrev pub IsUnseen : Text → Session → Type 0
IsUnseen key session =
    (is_new_key key session.recv_ratchet_pub_key ≡ true)
    × ((j : ℕ) → lookup (skipped_key_id key j) session.skipped_keys ≡ none)

-- The rest of the old receiving chain, up to `until`, is in reach, or there is none.
abbrev pub InReach : Platform → ℕ → Session → Type 0
InReach p until session =
    (truthy session.recv_chain_key ≡ false) ⊎ ((skip_message_keys p until session).0 ≡ done true)

-- The sender's chain comes from the root key of the receiver and the secret that the sender's key
-- pair shares with the receiver's.
pub record Turn (p : Platform) (Generated : KeyPair → Type 0) (sender receiver : Session)
    : Type 0 where
  pub mine : KeyPair
  pub theirs : KeyPair
  pub generated : Generated mine
  pub root : Bytes
  pub dh : Bytes
  pub next_root : Bytes
  pub chain : Bytes
  pub sent : Bytes
  pub recv_root : receiver.root_key ≡ p.encode_base64 root
  pub recv_secret : receiver.send_ratchet_priv_key ≡ p.encode_base64 theirs.secret_key
  pub send_pub : sender.send_ratchet_pub_key ≡ p.encode_base64 mine.public_key
  pub send_secret : sender.send_ratchet_priv_key ≡ p.encode_base64 mine.secret_key
  pub exchange : p.box_before mine.public_key theirs.secret_key ≡ some dh
  pub mixed : kdf_root p root dh ≡ some (next_root, chain)
  pub chain_long : 0 < length chain
  pub sent_long : 0 < length sent
  pub send_root : sender.root_key ≡ p.encode_base64 next_root
  pub send_key : sender.send_chain_key ≡ some (p.encode_base64 sent)
  pub progress : chain_after p chain sender.send_chain_index ≡ some sent
  pub unseen : IsUnseen sender.send_ratchet_pub_key receiver
