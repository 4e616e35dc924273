-- ===== src/Sending/Chosen.antt =====
-- Which messages a session reset queues again, and which rows it leaves queued (the queries of
-- `handlePeerSessionReset`).
use messk.Prelude.{
  any-Any, any-filter, All-each, ◌≡◌, refl, Bool, true, List, [], ◌∷◌, Text, same, any, is_some,
  arith, ◌≢◌, ◌⊎◌, ◌↔◌, inl, inr, Any, ◌&&◌, not, filter, same_iff, Bool-cases,
}
use messk.Prelude.Dict.{Dict, lookup}
use messk.Store.{StoredMessage, Status, pending, sent, delivered, read, failed}
use messk.Outbox.{OutgoingDirectMessage}
use messk.Outbox.Acknowledge.{is_unsent}
use messk.Sending.Reset.{is_for, is_candidate, delete_for}

abbrev pub is_among : Text → List StoredMessage → Bool
is_among id ms = any (λ m. same m.msg_id id) ms

-- A message of the sender to the peer, with this id, that is pending or failed.
abbrev pub IsUnsentTo : Text → Text → Text → StoredMessage → Type 0
IsUnsentTo id peer me m =
    (m.msg_id ≡ id)
    × (m.peer_public_key ≡ peer)
    × (m.sender_public_key ≡ me)
    × ((m.status ≡ pending) ⊎ (m.status ≡ failed))

-- A queued row with this id, to somebody else or of somebody else.
abbrev pub IsOther : Text → Text → Text → Text × OutgoingDirectMessage → Type 0
IsOther id peer me r = (r.0 ≡ id) × ((r.1.recipient_pub_key ≢ peer) ⊎ (r.1.sender_pub_key ≢ me))

is_unsent_iff :
    (status : Status)
    → (is_unsent (λ t. t) status ≡ true) ↔ ((status ≡ pending) ⊎ (status ≡ failed))
is_unsent_iff pending = (λ _. inl refl, λ _. refl)
is_unsent_iff failed = (λ _. inr refl, λ _. refl)
is_unsent_iff sent = (λ e. absurd (cc), λ a. elim a [ inl e ↦ absurd (cc) | inr e ↦ absurd (cc) ])
is_unsent_iff delivered =
    (λ e. absurd (cc), λ a. elim a [ inl e ↦ absurd (cc) | inr e ↦ absurd (cc) ])
is_unsent_iff read = (λ e. absurd (cc), λ a. elim a [ inl e ↦ absurd (cc) | inr e ↦ absurd (cc) ])

module _ (id peer me : Text) where
  candidate_iff :
      (m : StoredMessage)
      → ((is_candidate peer me m && same m.msg_id id) ≡ true) ↔ IsUnsentTo id peer me m
  candidate_iff m = (
    λ e. (
      (same_iff m.msg_id id).0 (ground arith),
      (same_iff m.peer_public_key peer).0 (ground arith),
      (same_iff m.sender_public_key me).0 (ground arith),
      (is_unsent_iff m.status).0 (ground arith),
    ),
    λ (named, to, from, unsent).
        let named = (same_iff m.msg_id id).1 named in
        let to = (same_iff m.peer_public_key peer).1 to in
        let from = (same_iff m.sender_public_key me).1 from in
        let unsent = (is_unsent_iff m.status).1 unsent in ground arith,
  )

  pub is_among_iff :
      (ms : List StoredMessage)
      → (is_among id (filter (is_candidate peer me) ms) ≡ true) ↔ Any (IsUnsentTo id peer me) ms
  is_among_iff ms =
      rw (any-filter (λ (m : StoredMessage). same m.msg_id id) (is_candidate peer me) ms) (
        any-Any (λ m. is_candidate peer me m && same m.msg_id id) (IsUnsentTo id peer me) ms
          (All-each _ ms candidate_iff))

  lookup-delete_for-any :
      (rows : Dict OutgoingDirectMessage)
      → is_some (lookup id (delete_for peer me rows))
        ≡ any (λ (r : Text × OutgoingDirectMessage). same r.0 id && not (is_for peer me r.1)) rows
  unfolding lookup delete_for
  lookup-delete_for-any [] = refl
  lookup-delete_for-any ((j, row) ∷ rows) = ground (arith, lookup-delete_for-any rows)

  IsOther-iff :
      (r : Text × OutgoingDirectMessage)
      → ((same r.0 id && not (is_for peer me r.1)) ≡ true) ↔ IsOther id peer me r
  IsOther-iff r = (
    λ e. (
      (same_iff r.0 id).0 (ground arith),
      elim (Bool-cases (same r.1.recipient_pub_key peer)) [
        | inl here ↦
            inr (λ q. (let q = (same_iff r.1.sender_pub_key me).1 q in absurd (ground arith)))
        | inr there ↦
            inl (λ q. (let q = (same_iff r.1.recipient_pub_key peer).1 q in absurd (ground arith)))
      ],
    ),
    λ (named, others).
        let named = (same_iff r.0 id).1 named in
        elim others [
          | inl differs ↦ elim (Bool-cases (same r.1.recipient_pub_key peer)) [
            | inl here ↦ absurd (differs ((same_iff r.1.recipient_pub_key peer).0 here))
            | inr there ↦ ground arith
          ]
          | inr differs ↦ elim (Bool-cases (same r.1.sender_pub_key me)) [
            | inl here ↦ absurd (differs ((same_iff r.1.sender_pub_key me).0 here))
            | inr there ↦ ground arith
          ]
        ],
  )

  pub is_kept_iff :
      (rows : Dict OutgoingDirectMessage)
      → (is_some (lookup id (delete_for peer me rows)) ≡ true) ↔ Any (IsOther id peer me) rows
  is_kept_iff rows = rw (lookup-delete_for-any rows) (
      any-Any (λ (r : Text × OutgoingDirectMessage). same r.0 id && not (is_for peer me r.1))
        (IsOther id peer me) rows (All-each _ rows IsOther-iff))
