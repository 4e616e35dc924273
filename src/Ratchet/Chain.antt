-- ===== src/Ratchet/Chain.antt =====
-- The receiving chain as an iteration of `kdfChain`, and what `skipMessageKeys` stores of it.
use messk.Prelude.{
  ℕ, zero, suc, ◌+◌, ◌≤◌, ◌<◌, ◌≡◌, ◌≢◌, refl, sym, ap, ◌∙◌, Option, some, Text, ◌or_else◌,
  same-distinct, decimal, decimal_inj, decimal-Lacks_colon, append-inj_of_last, arith,
}
use messk.Prelude.Dict.{Dict, lookup, insert, lookup-insert, lookup-insert_self}
use messk.Ratchet.Platform.{Platform, Bytes}
use messk.Ratchet.Step.{◌>>?◌, >>?-some}
use messk.Ratchet.Keys.{kdf_chain, skipped_key_id, skip_loop}

-- Keys of skipped messages are stored under names that determine the public key and the number.
pub skipped_key_id_inj :
    (k k' : Text) (n n' : ℕ) → skipped_key_id k n ≡ skipped_key_id k' n' → (k ≡ k') × (n ≡ n')
unfolding skipped_key_id
skipped_key_id_inj k k' n n' e =
    let (keys, numbers) =
      append-inj_of_last b':' k k' (decimal n) (decimal n') (decimal-Lacks_colon n)
        (decimal-Lacks_colon n') e in
    (keys, decimal_inj n n' numbers)

module _ (p : Platform) where
  -- The chain key after `n` messages.
  unfoldable pub chain_after : Bytes → ℕ → Option Bytes
  chain_after k zero = some k
  chain_after k (suc n) = kdf_chain p k >>? λ keys. chain_after keys.0 n

  -- The key of the message that comes after `n` others.
  unfoldable pub message_key_after : Bytes → ℕ → Option Bytes
  message_key_after k zero = kdf_chain p k >>? λ keys. some keys.1
  message_key_after k (suc n) = kdf_chain p k >>? λ keys. message_key_after keys.0 n

module _ (p : Platform) where
  pub chain_after-next :
      (k : Bytes) (n : ℕ) (c next mk : Bytes)
      → chain_after p k n ≡ some c
      → kdf_chain p c ≡ some (next, mk)
      → (chain_after p k (suc n) ≡ some next) × (message_key_after p k n ≡ some mk)
  unfolding chain_after message_key_after
  chain_after-next k zero c next mk e h =
      let q : k ≡ c = ground arith in (rw (q, h) refl, rw (q, h) refl)
  chain_after-next k (suc n) c next mk e h =
      let (keys, first, rest) = >>?-some (kdf_chain p k) _ c e in
      let (later, key) = chain_after-next keys.0 n c next mk rest h in
      (rw first later, rw first key)

module _ (p : Platform) (pub_key : Text) where
  pub skip_loop-chain :
      (n i : ℕ) (k : Bytes) (keys : Dict Text) (c : Bytes)
      → chain_after p k n ≡ some c
      → (keys' : Dict Text) × (skip_loop p pub_key n i k keys ≡ some (c, keys'))
  unfolding skip_loop chain_after
  skip_loop-chain zero i k keys c e = (keys, ap (λ o. o >>? λ c. some (c, keys)) e)
  skip_loop-chain (suc n) i k keys c e =
      let (next, first, rest) = >>?-some (kdf_chain p k) _ c e in
      let (keys', h) =
        skip_loop-chain n (i + 1) next.0
          (insert (skipped_key_id pub_key i) (p.encode_base64 next.1) keys) c rest in
      (keys', rw first h)

  pub skip_loop-keeps :
      (n i : ℕ) (k : Bytes) (keys : Dict Text) (c : Bytes) (keys' : Dict Text) (id : Text)
      → skip_loop p pub_key n i k keys ≡ some (c, keys')
      → ((j : ℕ) → i ≤ j → j < i + n → skipped_key_id pub_key j ≢ id)
      → lookup id keys' ≡ lookup id keys
  unfolding skip_loop
  skip_loop-keeps zero i k keys c keys' id e other =
      ap (λ (o : Option (Bytes × Dict Text)). lookup id (o or_else (c, keys')).1) (sym e)
  skip_loop-keeps (suc n) i k keys c keys' id e other =
      let (next, first, rest) = >>?-some (kdf_chain p k) _ (c, keys') e in
      skip_loop-keeps n (i + 1) next.0 _ c keys' id rest
        (λ j a b. other j (omega arith) (omega arith))
      ∙ lookup-insert id (skipped_key_id pub_key i) (p.encode_base64 next.1) keys
      ∙ rw (same-distinct _ _ (other i (omega arith) (omega arith))) refl

  pub skip_loop-stores :
      (n i : ℕ) (k : Bytes) (keys : Dict Text) (c : Bytes) (keys' : Dict Text) (j : ℕ) (mk : Bytes)
      → skip_loop p pub_key n i k keys ≡ some (c, keys')
      → j < n
      → message_key_after p k j ≡ some mk
      → lookup (skipped_key_id pub_key (i + j)) keys' ≡ some (p.encode_base64 mk)
  unfolding skip_loop message_key_after
  skip_loop-stores zero i k keys c keys' j mk e small h = absurd (omega arith)
  skip_loop-stores (suc n) i k keys c keys' zero mk e small h =
      let (next, first, rest) = >>?-some (kdf_chain p k) _ (c, keys') e in
      let (next', first', key) = >>?-some (kdf_chain p k) _ mk h in
      let key' : next.1 ≡ mk =
        ap (λ (o : Option (Bytes × Bytes)). (o or_else next).1) (sym first ∙ first')
        ∙ ap (λ o. o or_else mk) key in
      let same_index : i + 0 ≡ i = omega arith in
      rw same_index (
        skip_loop-keeps n (i + 1) next.0 _ c keys' (skipped_key_id pub_key i) rest (λ j a b same_id.
          absurd
            (let same_number = (skipped_key_id_inj pub_key pub_key j i same_id).1 in omega arith))
        ∙ lookup-insert_self (skipped_key_id pub_key i) (p.encode_base64 next.1) keys
        ∙ ap (λ b. some (p.encode_base64 b)) key')
  skip_loop-stores (suc n) i k keys c keys' (suc j) mk e small h =
      let (next, first, rest) = >>?-some (kdf_chain p k) _ (c, keys') e in
      let (next', first', later) = >>?-some (kdf_chain p k) _ mk h in
      let later' : message_key_after p next.0 j ≡ some mk =
        ap (λ (o : Option (Bytes × Bytes)). message_key_after p (o or_else next).0 j)
          (sym first ∙ first')
        ∙ later in
      let same_index : i + suc j ≡ i + 1 + j = omega arith in
      rw same_index (skip_loop-stores n (i + 1) next.0 _ c keys' j mk rest (omega arith) later')
