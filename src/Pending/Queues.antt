-- ===== src/Pending/Queues.antt =====
-- When a group event is queued, and what its queue is afterwards.
use messk.Prelude.{
  not, ◌||◌, subst, append-take-drop, ◌+◌, ◌-◌, ◌≡◌, ◌↔◌, ◌⊎◌, inl, inr, refl, sym, ap, ◌∙◌, true,
  Option, some, List, [], ◌∷◌, ◌++◌, Text, same, truthy, nonempty, any, All, Any, any-Any, take,
  length, length-drop, length-append, min, ◌or_else◌, if◌then◌else◌, arith, Bool-cases,
}
use messk.Prelude.Dict.{Dict, lookup, insert, lookup-insert}
use messk.Pending.{
  IncomingEnvelope, get_pending_group_event_key, is_pending, push_last_50, enqueue_at,
  enqueue_pending_group_event,
}
use messk.Pending.Events.{IsSameEvent, IsPlainEvent, is_same, is_same_iff}

any-is_same :
    (env : IncomingEnvelope) (queue : List IncomingEnvelope)
    → is_pending env queue ≡ any (is_same env) queue
unfolding is_pending
any-is_same env [] = ground arith
any-is_same env (item ∷ queue) = ground (arith, any-is_same env queue)

is_pending_iff :
    (env : IncomingEnvelope) (queue : List IncomingEnvelope)
    → IsPlainEvent env
    → All IsPlainEvent queue
    → (is_pending env queue ≡ true) ↔ Any (IsSameEvent env) queue
is_pending_iff env queue plain plains =
    rw (any-is_same env queue)
      (any-Any (is_same env) (IsSameEvent env) queue (all_iff queue plains))
  where
    all_iff :
        (queue : List IncomingEnvelope)
        → All IsPlainEvent queue
        → All (λ item. (is_same env item ≡ true) ↔ IsSameEvent env item) queue
    all_iff [] plains = tt
    all_iff (item ∷ queue) (plain', plains) =
        (is_same_iff env item plain plain', all_iff queue plains)

-- The queues after an event has been put at the end of one: its oldest events make way from 50 on, and
-- the others are as they were.
abbrev pub IsQueued :
    Text
    → IncomingEnvelope
    → List IncomingEnvelope
    → Dict (List IncomingEnvelope)
    → Dict (List IncomingEnvelope)
    → Type 0
IsQueued key env queue pending after =
    (dropped : List IncomingEnvelope) × (kept : List IncomingEnvelope) × (queue ++ env ∷ []
      ≡ dropped ++ kept)
    × (length kept ≡ min 50 (length queue + 1))
    × ((j : Text) → lookup j after ≡ (if same key j then some kept else lookup j pending))

insert-IsQueued :
    (key : Text) (env : IncomingEnvelope) (queue : List IncomingEnvelope)
    (pending : Dict (List IncomingEnvelope))
    → IsQueued key env queue pending (insert key (push_last_50 env queue) pending)
insert-IsQueued key env queue pending =
    let n = length (queue ++ env ∷ []) - 50 in
    (
      take n (queue ++ env ∷ []),
      push_last_50 env queue,
      append-take-drop n (queue ++ env ∷ []),
      ground (arith, length-drop n (queue ++ env ∷ []), length-append queue (env ∷ [])),
      λ j. lookup-insert j key (push_last_50 env queue) pending,
    )

named-enqueue :
    (g s : Option Text) (env : IncomingEnvelope) (group sender : Text)
    (pending : Dict (List IncomingEnvelope)) (queue : List IncomingEnvelope)
    → g ≡ some group
    → nonempty group ≡ true
    → s ≡ some sender
    → nonempty sender ≡ true
    → lookup (group ++ b':' ∷ sender) pending or_else [] ≡ queue
    → (if not (truthy g) || not (truthy s)
        then pending
        else (let key = (g or_else []) ++ b':' ∷ (s or_else []) in
            enqueue_at key env (lookup key pending or_else []) pending))
      ≡ enqueue_at (group ++ b':' ∷ sender) env queue pending
named-enqueue g s env group sender pending queue in_group group_shown from sender_shown found =
    rw (in_group, from, group_shown, sender_shown, found) refl

-- For events whose types and message ids have no colon, and the queue of a group and a sender, neither of
-- them empty: unless the queue has a message with the event's id, where that is a message with an id, or an
-- event of its type about the same message, where it is none, the event is put at the end of the queue, of
-- which the last 50 events are kept, and no other queue is touched; otherwise nothing changes.
pub enqueue-IsQueued :
    (env : IncomingEnvelope) (group sender : Text) (pending : Dict (List IncomingEnvelope))
    (queue : List IncomingEnvelope)
    → env.group_id ≡ some group
    → nonempty group ≡ true
    → env.sender_pub_key ≡ some sender
    → nonempty sender ≡ true
    → lookup (group ++ b':' ∷ sender) pending or_else [] ≡ queue
    → IsPlainEvent env
    → All IsPlainEvent queue
    → (Any (IsSameEvent env) queue × (enqueue_pending_group_event env pending ≡ pending))
      ⊎ ((¬ Any (IsSameEvent env) queue)
          × IsQueued
              (group ++ b':' ∷ sender)
              env
              queue
              pending
              (enqueue_pending_group_event env pending))
unfolding enqueue_pending_group_event get_pending_group_event_key
enqueue-IsQueued env group sender pending queue in_group group_shown from sender_shown found plain
      plains =
    let key = group ++ b':' ∷ sender in
    let same_events = is_pending_iff env queue plain plains in
    let queued =
      named-enqueue env.group_id env.sender_pub_key env group sender pending queue in_group
        group_shown from sender_shown found in
    elim (Bool-cases (is_pending env queue)) [
      | inl old ↦ inl (
        same_events.0 old,
        queued ∙ ap (λ b. if b then pending else insert key (push_last_50 env queue) pending) old,
      )
      | inr new ↦ inr (
        λ a. absurd (let old = same_events.1 a in ground arith),
        subst (IsQueued key env queue pending)
            (sym (
              queued
              ∙ ap (λ b. if b then pending else insert key (push_last_50 env queue) pending) new))
            (insert-IsQueued key env queue pending),
      )
    ]
