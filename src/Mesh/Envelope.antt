-- ===== src/Mesh/Envelope.antt =====
-- Envelopes: their creation, validation and hops.
use messk.Prelude.{
  ℕ, zero, suc, ◌+◌, ◌≤◌, true, false, ◌≡◌, refl, ap, sym, subst, ◌-◌, ◌∙◌, none, some, Text,
  nonempty, trim, arith, length, same_refl, Option-cases, inl, inr, ◌⊎◌, ◌↔◌, ◌<◌,
}
use messk.Prelude.Int.{ℤ, pos, negsuc}
use messk.Prelude.Number.{Number, is_integer, is_finite, at_most, at_least, above}
use messk.Mesh.{
  MeshThreadKind, BlindMeshEnvelope, create_blind_mesh_envelope, validate_blind_mesh_envelope,
  next_mesh_hop, mesh_topic, normalize_mesh_message_id, less_one, mesh_max_ciphertext_len,
  mesh_max_hop_limit, mesh_default_hop_limit,
}
use messk.Mesh.Segment.{normalize_id-IsMessageId, normalize_message_id-of_IsMessageId}
use messk.Mesh.Topic.{mesh_topic-valid}

-- Creation fails exactly when the thread id or the message id has no normal form, or when the
-- ciphertext is blank or too long.
pub create-eq-none_iff :
    (k : MeshThreadKind) (thread_id msg_id ciphertext : Text) (expires : Number)
    → (create_blind_mesh_envelope k thread_id msg_id ciphertext expires ≡ none) ↔ (
        (mesh_topic k thread_id ≡ none)
        ⊎ ((normalize_mesh_message_id msg_id ≡ none)
            ⊎ ((nonempty (trim ciphertext) ≡ false)
                ⊎ (mesh_max_ciphertext_len < length ciphertext))))
unfolding create_blind_mesh_envelope
create-eq-none_iff k thread_id msg_id ciphertext expires = ground arith

-- A created envelope passes validation until it expires.
pub create-valid :
    (k : MeshThreadKind) (thread_id msg_id ciphertext : Text) (expires : Number) (now : ℤ)
    {e : BlindMeshEnvelope}
    → create_blind_mesh_envelope k thread_id msg_id ciphertext expires ≡ some e
    → is_finite expires ≡ true
    → above expires now ≡ true
    → validate_blind_mesh_envelope e now ≡ true
unfolding create_blind_mesh_envelope validate_blind_mesh_envelope is_integer at_least at_most
create-valid k thread_id msg_id ciphertext expires now h f a =
    elim (Option-cases (mesh_topic k thread_id)) [
      | inl missing ↦ absurd (ground arith)
      | inr (topic, built) ↦ elim (Option-cases (normalize_mesh_message_id msg_id)) [
        | inl missing ↦ absurd (ground arith)
        | inr (id, normal) ↦ ground (
          arith,
          mesh_topic-valid k thread_id built,
          normalize_message_id-of_IsMessageId id (normalize_id-IsMessageId msg_id id normal),
          same_refl id,
        )
      ]
    ]

-- The hop limit of a valid envelope.
valid-hop_limit :
    (e : BlindMeshEnvelope) (now : ℤ)
    → validate_blind_mesh_envelope e now ≡ true
    → (n : ℕ) × (e.hop_limit ≡ Number.int (pos n)) × (n ≤ 8)
unfolding validate_blind_mesh_envelope is_integer at_least at_most
valid-hop_limit e now h = go e.hop_limit (ground arith) (ground arith) (ground arith)
  where
    go :
        (x : Number)
        → is_integer x ≡ true
        → at_least x (pos 0) ≡ true
        → at_most x (pos 8) ≡ true
        → (n : ℕ) × (x ≡ Number.int (pos n)) × (n ≤ 8)
    go (Number.int (pos n)) i l m = (n, refl, ground arith)
    go (Number.int (negsuc n)) i l m = absurd (ground arith)
    go (Number.between z) i l m = absurd (ground arith)
    go Number.nan i l m = absurd (ground arith)
    go Number.infinity i l m = absurd (ground arith)
    go Number.minus_infinity i l m = absurd (ground arith)

-- `n` hops lead from one envelope to the other.
pub data Hops : ℕ → BlindMeshEnvelope → BlindMeshEnvelope → Type 0 where
  stay : {e : BlindMeshEnvelope} → Hops 0 e e
  hop :
      {n : ℕ} {e e' f : BlindMeshEnvelope}
      → next_mesh_hop e ≡ some e'
      → Hops n e' f
      → Hops (suc n) e f

next_mesh_hop-suc :
    (e : BlindMeshEnvelope) (m : ℕ)
    → e.hop_limit ≡ Number.int (pos (suc m))
    → next_mesh_hop e ≡ some (record e { hop_limit = Number.int (pos m) })
unfolding next_mesh_hop at_most less_one
next_mesh_hop-suc e m l = ground arith

next_mesh_hop-zero :
    (e : BlindMeshEnvelope) → e.hop_limit ≡ Number.int (pos 0) → next_mesh_hop e ≡ none
unfolding next_mesh_hop at_most
next_mesh_hop-zero e l = ground arith

validate-lower :
    (e : BlindMeshEnvelope) (now : ℤ) (m : ℕ)
    → m ≤ 8
    → validate_blind_mesh_envelope e now ≡ true
    → validate_blind_mesh_envelope (record e { hop_limit = Number.int (pos m) }) now ≡ true
unfolding validate_blind_mesh_envelope is_integer at_least at_most
validate-lower e now m b h = ground arith

Hops-forward :
    {n : ℕ} {e f : BlindMeshEnvelope} (m : ℕ)
    → Hops n e f
    → e.hop_limit ≡ Number.int (pos m)
    → (k : ℕ) × (m ≡ n + k) × (f ≡ record e { hop_limit = Number.int (pos k) })
Hops-forward m (stay {e}) l = (m, omega arith, ground arith)
Hops-forward zero (hop {e} s r) l = absurd (ground (arith, next_mesh_hop-zero e))
Hops-forward (suc m) (hop {n} {e} {e'} {f} s r) l =
    let (k, q, p) = Hops-forward m r (ground (arith, next_mesh_hop-suc e m)) in
    (k, omega arith, ground (arith, next_mesh_hop-suc e m))

Hops-backward :
    (n k : ℕ) (e : BlindMeshEnvelope)
    → e.hop_limit ≡ Number.int (pos (n + k))
    → Hops n e (record e { hop_limit = Number.int (pos k) })
Hops-backward zero k e l = subst (λ f. Hops 0 e f) {x = e} (ground (arith, l)) stay
Hops-backward (suc n) k e l =
    hop (next_mesh_hop-suc e (n + k) (ground arith))
      (Hops-backward n k (record e { hop_limit = Number.int (pos (n + k)) }) refl)

-- From a hop limit m, n hops lead exactly to the same envelope with the limit m - n, if n is at
-- most m, and nowhere else.
pub Hops-iff :
    (n m : ℕ) (e f : BlindMeshEnvelope)
    → e.hop_limit ≡ Number.int (pos m)
    → Hops n e f ↔ ((k : ℕ) × (m ≡ n + k) × (f ≡ record e { hop_limit = Number.int (pos k) }))
Hops-iff n m e f l = (
  λ r. Hops-forward m r l,
  λ (k, q, p).
      subst (λ x. Hops n e x) (sym p) (Hops-backward n k e (l ∙ ap (λ x. Number.int (pos x)) q)),
)

-- Every hop of a valid envelope is valid, and there are at most `MESH_MAX_HOP_LIMIT`.
pub Hops-valid :
    {n : ℕ} {e f : BlindMeshEnvelope} (now : ℤ)
    → validate_blind_mesh_envelope e now ≡ true
    → Hops n e f
    → (n ≤ mesh_max_hop_limit) × (validate_blind_mesh_envelope f now ≡ true)
Hops-valid {e} now h r =
    let (m, l, b) = valid-hop_limit e now h in
    let (k, q, p) = Hops-forward m r l in
    (omega arith, rw p (validate-lower e now k (omega arith) h))

-- A created envelope can be forwarded `MESH_DEFAULT_HOP_LIMIT` times and no further.
pub create-Hops :
    (k : MeshThreadKind) (thread_id msg_id ciphertext : Text) (expires : Number) (n : ℕ)
    {e : BlindMeshEnvelope}
    → create_blind_mesh_envelope k thread_id msg_id ciphertext expires ≡ some e
    → ((f : BlindMeshEnvelope) × Hops n e f) ↔ (n ≤ mesh_default_hop_limit)
unfolding create_blind_mesh_envelope
create-Hops k thread_id msg_id ciphertext expires n {e} h =
    let l : e.hop_limit ≡ Number.int (pos 3) = ground arith in
    (
      λ (f, r). let (j, q, p) = Hops-forward 3 r l in omega arith,
      λ b. (
        record e { hop_limit = Number.int (pos (3 - n)) },
        Hops-backward n (3 - n) e (l ∙ ap (λ x. Number.int (pos x)) (omega arith)),
      ),
    )
