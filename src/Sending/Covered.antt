-- ===== src/Sending/Covered.antt =====
-- Messages that are pending, and the queue.
use messk.Prelude.{
  ℕ, ◌==◌, ◌≡◌, refl, Bool, true, false, none, some, List, [], ◌∷◌, ◌++◌, Text, same, same_iff,
  is_some, All, Bool-cases, inl, inr, if-property, arith,
}
use messk.Prelude.Dict.{Dict, lookup, remove, lookup-remove}
use messk.Store.{StoredMessage, Status, pending, find_by_id, find_by_msg_id, update_row}
use messk.Outbox.{OutgoingDirectMessage}
use messk.Incoming.Once.{HasUniqueIds}

abbrev pub is_pending : Status → Bool
is_pending pending = true
is_pending _ = false

abbrev pub is_in : Dict OutgoingDirectMessage → Text → Bool
is_in queue id = is_some (lookup id queue)

-- If the message is pending, it is queued.
abbrev pub IsCovered : Dict OutgoingDirectMessage → StoredMessage → Type 0
IsCovered queue m = is_pending m.status ≡ true → is_in queue m.msg_id ≡ true

-- No two rows have one primary key.
abbrev pub HasUniqueKeys : List StoredMessage → Type 0
HasUniqueKeys [] = Unit
HasUniqueKeys (m ∷ ms) = (find_by_id m.id ms ≡ none) × HasUniqueKeys ms

find_by_id-update_row :
    (k id : ℕ) (changes : StoredMessage → StoredMessage) (ms : List StoredMessage)
    → ((m : StoredMessage) → (changes m).id ≡ m.id)
    → find_by_id k ms ≡ none
    → find_by_id k (update_row id changes ms) ≡ none
unfolding find_by_id update_row
find_by_id-update_row k id changes [] keeps h = refl
find_by_id-update_row k id changes (m ∷ ms) keeps h =
    ground (arith, keeps m, find_by_id-update_row k id changes ms keeps)

pub update_row-HasUniqueKeys :
    (id : ℕ) (changes : StoredMessage → StoredMessage) (ms : List StoredMessage)
    → ((m : StoredMessage) → (changes m).id ≡ m.id)
    → HasUniqueKeys ms
    → HasUniqueKeys (update_row id changes ms)
unfolding update_row
update_row-HasUniqueKeys id changes [] keeps u = tt
update_row-HasUniqueKeys id changes (m ∷ ms) keeps (alone, u) =
    if-property HasUniqueKeys (m.id == id) (changes m ∷ ms) (m ∷ update_row id changes ms)
      (λ _. (rw (keeps m) alone, u))
      (λ _. (
        find_by_id-update_row m.id id changes ms keeps alone,
        update_row-HasUniqueKeys id changes ms keeps u,
      ))

find_by_id-append :
    (k : ℕ) (m : StoredMessage) (ms : List StoredMessage)
    → find_by_id k ms ≡ none
    → (m.id == k) ≡ false
    → find_by_id k (ms ++ m ∷ []) ≡ none
unfolding find_by_id
find_by_id-append k m [] h e = rw e refl
find_by_id-append k m (n ∷ ms) h e = ground (arith, find_by_id-append k m ms)

pub append-HasUniqueKeys :
    (m : StoredMessage) (ms : List StoredMessage)
    → find_by_id m.id ms ≡ none
    → HasUniqueKeys ms
    → HasUniqueKeys (ms ++ m ∷ [])
unfolding find_by_id
append-HasUniqueKeys m [] h u = (refl, tt)
append-HasUniqueKeys m (n ∷ ms) h (alone, u) =
    let (differs, rest) = split in
    (find_by_id-append n.id m ms alone (ground arith), append-HasUniqueKeys m ms rest u)
  where
    split : ((n.id == m.id) ≡ false) × (find_by_id m.id ms ≡ none)
    split = ground arith

-- A message that is found by its id is found by its key.
find-key :
    (t : Text) (m : StoredMessage) (ms : List StoredMessage)
    → find_by_msg_id t ms ≡ some m
    → ¬ (find_by_id m.id ms ≡ none)
unfolding find_by_id find_by_msg_id
find-key t m [] e h = absurd (cc)
find-key t m (n ∷ ms) e h = ground (arith, find-key t m ms)

pub cover-more :
    (q q' : Dict OutgoingDirectMessage) (ms : List StoredMessage)
    → ((id : Text) → is_in q id ≡ true → is_in q' id ≡ true)
    → All (IsCovered q) ms
    → All (IsCovered q') ms
cover-more q q' [] more c = tt
cover-more q q' (m ∷ ms) more (c, cs) = ((λ e. more m.msg_id (c e)), cover-more q q' ms more cs)

module _ (q : Dict OutgoingDirectMessage) where
  -- A message that gets another status needs no row.
  pub settle-IsCovered :
      (id : ℕ) (status : Status) (ms : List StoredMessage)
      → is_pending status ≡ false
      → All (IsCovered q) ms
      → All (IsCovered q) (update_row id (λ m. record m { status = status }) ms)
  unfolding update_row
  settle-IsCovered id status [] e c = tt
  settle-IsCovered id status (m ∷ ms) e (c, cs) =
      if-property (All (IsCovered q)) (m.id == id) _ _ (λ _. ((λ p. absurd (cc)), cs))
        (λ _. (c, settle-IsCovered id status ms e cs))

  -- A queued message may become pending.
  pub revive-IsCovered :
      (t : Text) (m : StoredMessage) (ms : List StoredMessage)
      → HasUniqueKeys ms
      → find_by_msg_id t ms ≡ some m
      → is_in q t ≡ true
      → All (IsCovered q) ms
      → All (IsCovered q) (update_row m.id (λ n. record n { status = pending }) ms)
  unfolding update_row find_by_msg_id
  revive-IsCovered t m [] u e queued c = tt
  revive-IsCovered t m (n ∷ ms) (alone, u) e queued (c, cs) =
      if-property (All (IsCovered q)) (n.id == m.id) _ _
        (λ hit. ((λ _. ground (arith, same_iff n.msg_id t, find-key t m ms)), cs))
        (λ miss. (c, revive-IsCovered t m ms u (ground arith) queued cs))

  module _ (t : Text) where
    pub forget-IsCovered :
        (ms : List StoredMessage)
        → find_by_msg_id t ms ≡ none
        → All (IsCovered q) ms
        → All (IsCovered (remove t q)) ms
    unfolding find_by_msg_id
    forget-IsCovered [] h c = tt
    forget-IsCovered (m ∷ ms) h (c, cs) = (
      (λ p.
          ground
            (arith, c p, same_iff t m.msg_id, same_iff m.msg_id t, lookup-remove m.msg_id t q)),
      forget-IsCovered ms (ground arith) cs,
    )

    -- An acknowledged message is not pending any more.
    pub acked-IsCovered :
        (m : StoredMessage) (status : Status) (ms : List StoredMessage)
        → HasUniqueKeys ms
        → HasUniqueIds ms
        → find_by_msg_id t ms ≡ some m
        → is_pending status ≡ false
        → All (IsCovered q) ms
        → All (IsCovered (remove t q)) (update_row m.id (λ n. record n { status = status }) ms)
    unfolding update_row find_by_msg_id
    acked-IsCovered m status [] u ids e settled c = tt
    acked-IsCovered m status (n ∷ ms) (alone, u) (low, fresh, ids) e settled (c, cs) =
        if-property (All (IsCovered (remove t q))) (n.id == m.id) _ _
          (λ hit. (
            (λ p. absurd (cc)),
            forget-IsCovered ms (ground (arith, same_iff n.msg_id t, find-key t m ms)) cs,
          ))
          (λ miss. (
            (λ p.
                ground (
                  arith,
                  c p,
                  same_iff t n.msg_id,
                  same_iff n.msg_id t,
                  lookup-remove n.msg_id t q,
                )),
            acked-IsCovered m status ms u ids (ground arith) settled cs,
          ))

    -- Nor was one that is acknowledged again.
    pub settled-IsCovered :
        (m : StoredMessage) (ms : List StoredMessage)
        → HasUniqueIds ms
        → find_by_msg_id t ms ≡ some m
        → is_pending m.status ≡ false
        → All (IsCovered q) ms
        → All (IsCovered (remove t q)) ms
    unfolding find_by_msg_id
    settled-IsCovered m [] ids e settled c = tt
    settled-IsCovered m (n ∷ ms) (low, fresh, ids) e settled (c, cs) =
        elim (Bool-cases (same n.msg_id t)) [
          | inl named ↦ (
            (λ p. absurd (ground arith)),
            forget-IsCovered ms (ground (arith, same_iff n.msg_id t)) cs,
          )
          | inr other ↦ (
            (λ p.
                ground (
                  arith,
                  c p,
                  same_iff t n.msg_id,
                  same_iff n.msg_id t,
                  lookup-remove n.msg_id t q,
                )),
            settled-IsCovered m ms ids (ground arith) settled cs,
          )
        ]
