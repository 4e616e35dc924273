-- ===== src/Ratchet/Keys.antt =====
-- The key derivations of `RatchetSession`, and `skippedKeyId`, `validateMessage` and
-- `skipMessageKeys` of `RatchetManager`.
use messk.Prelude.{
  ℕ, zero, suc, ◌+◌, ◌-◌, ◌*◌, Bool, true, false, ◌&&◌, not, Option, none, some, [], ◌∷◌, ◌++◌,
  Text, codes, nonempty, truthy, ◌||◌, take, drop, decimal, ltb, ◌or_else◌, if◌then◌else◌,
}
use messk.Prelude.Dict.{Dict, insert}
use messk.Prelude.Int.{pos}
use messk.Prelude.Number.{Number, is_integer, at_least}
use messk.Ratchet.Platform.{Platform, Bytes, Session, RatchetMessage}
use messk.Ratchet.Step.{Outcome, done, throws, ◌>>?◌}

abbrev pub max_skip : ℕ
max_skip = 50

module _ (p : Platform) where
  unfoldable pub hkdf : Bytes → Bytes → Text → ℕ → Option Bytes
  hkdf secret salt info length = p.derive_bits secret salt info (length * 8)

  -- (rootKey, dhOutput) to (rootKey, chainKey)
  unfoldable pub kdf_root : Bytes → Bytes → Option (Bytes × Bytes)
  unfolding hkdf
  kdf_root root_key dh_output = hkdf dh_output root_key (codes "RatchetRootKey") 64 >>? λ res.
      some (take 32 res, take 32 (drop 32 res))

  -- chainKey to (chainKey, messageKey)
  unfoldable pub kdf_chain : Bytes → Option (Bytes × Bytes)
  kdf_chain chain_key = p.sign chain_key (1 ∷ []) >>? λ message_key.
      p.sign chain_key (2 ∷ []) >>? λ next_chain_key. some (next_chain_key, message_key)

-- `${ratchetPubKey}:${n}`
unfoldable pub skipped_key_id : Text → ℕ → Text
skipped_key_id ratchet_pub_key n = ratchet_pub_key ++ b':' ∷ decimal n

unfoldable pub validate_message : RatchetMessage → Bool
validate_message msg =
    nonempty msg.header.ratchet_pub_key
    && is_integer msg.header.n
    && is_integer msg.header.pn
    && at_least msg.header.n (pos 0)
    && at_least msg.header.pn (pos 0)
    && nonempty msg.ciphertext

-- A counter that has been validated.
abbrev pub counter : Number → ℕ
counter (Number.int (pos n)) = n
counter x = 0

module _ (p : Platform) (ratchet_pub_key : Text) where
  -- The loop from `i` over the rounds that are left: the chain key and the keys that it stores.
  unfoldable pub skip_loop : ℕ → ℕ → Bytes → Dict Text → Option (Bytes × Dict Text)
  unfolding kdf_chain
  skip_loop zero i chain_key skipped_keys = some (chain_key, skipped_keys)
  skip_loop (suc rounds) i chain_key skipped_keys = kdf_chain p chain_key >>? λ keys.
      skip_loop rounds (i + 1) keys.0
        (insert (skipped_key_id ratchet_pub_key i) (p.encode_base64 keys.1) skipped_keys)

module _ (p : Platform) where
  -- The loop on the session: the chain key and the skipped keys after it.
  abbrev pub skip_from : ℕ → Session → Option (Bytes × Dict Text)
  skip_from until session = p.decode_base64 (session.recv_chain_key or_else []) >>? λ chain_key.
      skip_loop p (session.recv_ratchet_pub_key or_else []) (until - session.recv_chain_index)
        session.recv_chain_index chain_key session.skipped_keys

  abbrev pub store_skipped : ℕ → Session → Option (Bytes × Dict Text) → Outcome Bool × Session
  store_skipped until session none = (throws, session)
  store_skipped until session (some (chain_key, skipped_keys)) = (
    done true,
    record session {
      recv_chain_key = some (p.encode_base64 chain_key);
      recv_chain_index = until;
      skipped_keys = skipped_keys;
    },
  )

  -- The session is written only after the loop.
  unfoldable pub skip_message_keys : ℕ → Session → Outcome Bool × Session
  unfolding skip_loop
  skip_message_keys until session =
      if not (truthy session.recv_chain_key) || not (truthy session.recv_ratchet_pub_key)
      then (done false, session)
      else if ltb until session.recv_chain_index
      then (done true, session)
      else if ltb max_skip (until - session.recv_chain_index)
      then (done false, session)
      else store_skipped until session (skip_from until session)
