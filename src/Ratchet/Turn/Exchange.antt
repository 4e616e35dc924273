-- ===== src/Ratchet/Turn/Exchange.antt =====
-- The Diffie-Hellman step of the receiver on generated keys.
use messk.Prelude.{
  ℕ, ◌≤◌, ◌≡◌, refl, some, length, take, drop, codes, length-drop, arith, zero, suc, [], ◌∷◌,
}
use messk.Ratchet.Platform.{Platform, IsPlatform, Bytes, KeyPair, Session, RatchetMessage}
use messk.Ratchet.Step.{done}
use messk.Ratchet.Keys.{kdf_root, hkdf}
use messk.Ratchet.Send.{start_send_chain, mix_root}
use messk.Ratchet.Receive.{dh_ratchet, start_receive_chain}
use messk.Ratchet.Turn.{IsKeyExchange}

length-take : (n : ℕ) (b : Bytes) → n ≤ length b → length (take n b) ≡ n
length-take zero b h = refl
length-take (suc n) [] h = absurd (omega arith)
length-take (suc n) (c ∷ b) h = omega (arith, length-take n b (omega arith))

module _ (p : Platform) (Generated : KeyPair → Type 0) (x : IsKeyExchange p Generated) where
  -- `kdfRoot` gives two keys, the second of 32 bytes.
  pub kdf_root-keys :
      (root dh : Bytes)
      → (next chain : Bytes) × (kdf_root p root dh ≡ some (next, chain)) × (length chain ≡ 32)
  unfolding kdf_root hkdf
  kdf_root-keys root dh =
      let (r, derived, long) = x.derive dh root (codes "RatchetRootKey") 64 (omega arith) in
      (
        take 32 r,
        take 32 (drop 32 r),
        rw derived refl,
        length-take 32 (drop 32 r) (omega (arith, length-drop 32 r)),
      )

module _ (p : Platform) (h : IsPlatform p) (msg : RatchetMessage) (pair peer mine : KeyPair)
    (session : Session) where
  -- The new chains of a session.
  pub dh_ratchet-chains :
      (root dh dh' : Bytes) (keys keys' : Bytes × Bytes)
      → session.root_key ≡ p.encode_base64 root
      → session.send_ratchet_priv_key ≡ p.encode_base64 mine.secret_key
      → msg.header.ratchet_pub_key ≡ p.encode_base64 peer.public_key
      → p.box_before peer.public_key mine.secret_key ≡ some dh
      → kdf_root p root dh ≡ some keys
      → p.box_before peer.public_key pair.secret_key ≡ some dh'
      → kdf_root p keys.0 dh' ≡ some keys'
      → dh_ratchet p msg pair session
        ≡ (done tt, start_send_chain p pair keys' (start_receive_chain p msg keys session))
  unfolding dh_ratchet mix_root
  dh_ratchet-chains root dh dh' keys keys' root_key secret pub_key exchange mixed exchange' mixed' =
      simp (root_key, secret, pub_key, h.base64, exchange, mixed, exchange', mixed')
