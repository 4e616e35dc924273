-- ===== src/Ratchet/Skip.antt =====
-- `skipMessageKeys` on all its branches: how far it goes and what it leaves in the session.
use messk.Prelude.{
  ℕ, zero, suc, ◌+◌, ◌-◌, ◌≤◌, ◌<◌, ◌≡◌, refl, Option, none, some, Text, truthy, nonempty, length,
  not, ◌||◌, ltb, if◌then◌else◌, if-property, [], ◌or_else◌, arith, Bool, true, false, inl, inr,
  ◌⊎◌,
}
use messk.Prelude.Dict.{Dict, length-insert}
use messk.Ratchet.Platform.{Platform, IsPlatform, Bytes, Session}
use messk.Ratchet.Step.{Outcome, done, >>?-some}
use messk.Ratchet.Keys.{
  kdf_chain, skipped_key_id, skip_loop, skip_message_keys, store_skipped, skip_from,
}
use messk.Ratchet.Chain.{chain_after, skip_loop-chain}

module _ (p : Platform) (pub_key : Text) where
  skip_loop-length :
      (n i : ℕ) (k : Bytes) (keys : Dict Text) (c : Bytes) (keys' : Dict Text)
      → skip_loop p pub_key n i k keys ≡ some (c, keys')
      → length keys' ≤ length keys + n
  unfolding skip_loop
  skip_loop-length zero i k keys c keys' e = ground arith
  skip_loop-length (suc n) i k keys c keys' e =
      let (next, first, rest) = >>?-some (kdf_chain p k) _ (c, keys') e in
      omega (
        arith,
        skip_loop-length n (i + 1) next.0 _ c keys' rest,
        length-insert (skipped_key_id pub_key i) (p.encode_base64 next.1) keys,
      )

module _ (p : Platform) where
  abbrev pub Bounded : ℕ → Session → Outcome Bool × Session → Type 0
  Bounded until session result =
      (result.1 ≡ session)
      ⊎ ((session.recv_chain_index ≤ until)
          × (until ≤ session.recv_chain_index + 50)
          × (result.1.recv_chain_index ≡ until)
          × (length result.1.skipped_keys
              ≤ length session.skipped_keys + (until - session.recv_chain_index)))

  store_skipped-Bounded :
      (until : ℕ) (session : Session) (o : Option (Bytes × Dict Text))
      → skip_from p until session ≡ o
      → session.recv_chain_index ≤ until
      → until ≤ session.recv_chain_index + 50
      → Bounded until session (store_skipped p until session o)
  store_skipped-Bounded until session none e low high = inl refl
  store_skipped-Bounded until session (some (c, keys)) e low high =
      let (k, decoded, rest) =
        >>?-some (p.decode_base64 (session.recv_chain_key or_else [])) _ (c, keys) e in
      inr (low, high, refl, skip_loop-length p _ _ _ k session.skipped_keys c keys rest)

  -- `skipMessageKeys` leaves the session as it was, or it moves the chain forward to `until`,
  -- over at most 50 messages, and stores at most one key for each of them.
  pub skip_message_keys-Bounded :
      (until : ℕ) (session : Session) → Bounded until session (skip_message_keys p until session)
  unfolding skip_message_keys
  skip_message_keys-Bounded until session =
      let P = Bounded until session in
      let go = store_skipped p until session (skip_from p until session) in
      let in_reach =
        if ltb 50 (until - session.recv_chain_index) then (done false, session) else go in
      if-property P
        (not (truthy session.recv_chain_key) || not (truthy session.recv_ratchet_pub_key))
        (done false, session)
        (if ltb until session.recv_chain_index then (done true, session) else in_reach)
        (λ _. inl refl)
        (λ _.
          if-property P (ltb until session.recv_chain_index) (done true, session) in_reach
            (λ _. inl refl)
            (λ low.
              if-property P (ltb 50 (until - session.recv_chain_index)) (done false, session) go
                (λ _. inl refl)
                (λ high. store_skipped-Bounded until session _ refl (ground arith) (ground arith))))

module _ (p : Platform) (h : IsPlatform p) (session : Session) (k : Bytes) (pub_key : Text) where
  -- Within reach, the chain stands `n` messages further and the keys between are stored.
  pub skip_message_keys-ahead :
      (n : ℕ) (c : Bytes)
      → session.recv_chain_key ≡ some (p.encode_base64 k)
      → 0 < length k
      → session.recv_ratchet_pub_key ≡ some pub_key
      → nonempty pub_key ≡ true
      → chain_after p k n ≡ some c
      → n ≤ 50
      → (keys : Dict Text) × (skip_loop p pub_key n session.recv_chain_index k session.skipped_keys
          ≡ some (c, keys))
        × (skip_message_keys p (session.recv_chain_index + n) session ≡ (
          done true,
          record session {
            recv_chain_key = some (p.encode_base64 c);
            recv_chain_index = session.recv_chain_index + n;
            skipped_keys = keys;
          },
        ))
  unfolding skip_message_keys
  skip_message_keys-ahead n c key long peer named chain reach =
      let (keys, loop) =
        skip_loop-chain p pub_key n session.recv_chain_index k session.skipped_keys c chain in
      let rounds : session.recv_chain_index + n - session.recv_chain_index ≡ n = omega arith in
      let not_before : ltb (session.recv_chain_index + n) session.recv_chain_index ≡ false =
        ground arith in
      let not_beyond : ltb 50 n ≡ false = ground arith in
      (
        keys,
        loop,
        rw
            (
              key,
              peer,
              h.base64_nonempty k long,
              named,
              not_before,
              rounds,
              not_beyond,
              h.base64 k,
              loop,
            )
            refl,
      )
