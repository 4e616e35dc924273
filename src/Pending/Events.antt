-- ===== src/Pending/Events.antt =====
-- When two group events are one for a queue (`dedupeKey`).
use messk.Prelude.{
  subst, ◌≡◌, ◌≢◌, ◌↔◌, ◌⊎◌, inl, inr, refl, sym, ap, ◌∙◌, Bool, true, false, ◌&&◌, Option, none,
  some, [], ◌∷◌, ◌++◌, Text, codes, same, same_iff, truthy, nonempty, Lacks, append-inj_of_first,
  not-Lacks-append, ◌or_else◌, arith, Bool-cases,
}
use messk.Pending.{IncomingEnvelope, dedupe_key, first_of, same_key}

-- The message that an event is about.
abbrev pub target : IncomingEnvelope → Text
target env = first_of env.target_msg_id env.msg_id or_else []

-- Two messages with one id that is not empty, or two other events of one type about one message.
abbrev pub IsSameEvent : IncomingEnvelope → IncomingEnvelope → Type 0
IsSameEvent env item =
    (item.type ≡ env.type)
    × (((env.type ≡ codes "group_message")
          × (item.msg_id ≡ env.msg_id)
          × (truthy env.msg_id ≡ true))
        ⊎ ((env.type ≢ codes "group_message") × (target item ≡ target env)))

-- Its type and message id have no colon.
abbrev pub IsPlainEvent : IncomingEnvelope → Type 0
IsPlainEvent env = Lacks b':' env.type × Lacks b':' (env.msg_id or_else [])

abbrev pub is_same : IncomingEnvelope → IncomingEnvelope → Bool
is_same env item = truthy (dedupe_key env) && same_key (dedupe_key item) (dedupe_key env)

message_key :
    (env : IncomingEnvelope)
    → same env.type (codes "group_message") ≡ true
    → dedupe_key env ≡ env.msg_id
unfolding dedupe_key
message_key env h = rw h refl

other_key :
    (env : IncomingEnvelope)
    → same env.type (codes "group_message") ≡ false
    → dedupe_key env ≡ some (env.type ++ b':' ∷ target env)
unfolding dedupe_key
other_key env h = rw h refl

same_key_iff : (a b : Option Text) → (same_key a b ≡ true) ↔ (a ≡ b)
same_key_iff none none = (λ e. refl, λ e. refl)
same_key_iff none (some t) = (λ e. absurd (cc), λ e. absurd (cc))
same_key_iff (some t) none = (λ e. absurd (cc), λ e. absurd (cc))
same_key_iff (some s) (some t) = (
  λ e. ap some ((same_iff s t).0 e),
  λ e. (same_iff s t).1 (ap (λ (o : Option Text). o or_else []) e),
)

mixed_keys : (o : Option Text) (t u : Text) → Lacks b':' (o or_else []) → o ≢ some (t ++ b':' ∷ u)
mixed_keys o t u lacks e =
    not-Lacks-append b':' t u (subst (λ (o : Option Text). Lacks b':' (o or_else [])) e lacks)

nonempty_key : (t u : Text) → nonempty (t ++ b':' ∷ u) ≡ true
nonempty_key [] u = refl
nonempty_key (c ∷ t) u = refl

unequal :
    {t u : Text}
    → same t (codes "group_message") ≡ true
    → same u (codes "group_message") ≡ false
    → t ≢ u
unequal h k e = absurd (cc)

module _ (env item : IncomingEnvelope) where
  two_messages :
      same env.type (codes "group_message") ≡ true
      → same item.type (codes "group_message") ≡ true
      → (is_same env item ≡ true) ↔ IsSameEvent env item
  two_messages message message' =
      let type = (same_iff env.type (codes "group_message")).0 message in
      let type' = (same_iff item.type (codes "group_message")).0 message' in
      rw (message_key env message, message_key item message')
        (
          λ e. (
            type' ∙ sym type,
            inl (type, (same_key_iff item.msg_id env.msg_id).0 (ground arith), ground arith),
          ),
          λ (same_type, reason). elim reason [
            | inl (t, ids, shown) ↦
                (let ids = (same_key_iff item.msg_id env.msg_id).1 ids in ground arith)
            | inr (differs, targets) ↦ absurd (differs type)
          ],
        )

  two_others :
      same env.type (codes "group_message") ≡ false
      → same item.type (codes "group_message") ≡ false
      → Lacks b':' env.type
      → Lacks b':' item.type
      → (is_same env item ≡ true) ↔ IsSameEvent env item
  two_others other other' plain plain' =
      let key = env.type ++ b':' ∷ target env in
      let key' = item.type ++ b':' ∷ target item in
      let shown = nonempty_key env.type (target env) in
      let message : env.type ≢ codes "group_message" =
        λ t. unequal ((same_iff env.type (codes "group_message")).1 t) other refl in
      rw (other_key env other, other_key item other')
        (
          λ e.
              let (types, targets) =
                append-inj_of_first b':' item.type env.type (target item) (target env) plain' plain
                  ((same_iff key' key).0 (ground arith)) in
              (types, inr (message, targets)),
          λ (types, reason). elim reason [
            | inl (t, ids, shown) ↦ absurd (message t)
            | inr (differs, targets) ↦
                (let keys = (same_iff key' key).1 (simp (types, targets)) in ground arith)
          ],
        )

  -- For events whose types and ids have no colon, the keys are the same where the events are.
  pub is_same_iff :
      IsPlainEvent env → IsPlainEvent item → (is_same env item ≡ true) ↔ IsSameEvent env item
  is_same_iff (plain, id) (plain', id') =
      elim (Bool-cases (same env.type (codes "group_message"))) [
        | inl message ↦ elim (Bool-cases (same item.type (codes "group_message"))) [
          | inl message' ↦ two_messages message message'
          | inr other' ↦ (
            λ e. absurd (
                mixed_keys env.msg_id item.type (target item) id (
                  sym (message_key env message)
                  ∙ sym ((same_key_iff (dedupe_key item) (dedupe_key env)).0 (ground arith))
                  ∙ other_key item other')),
            λ (types, reason). absurd (unequal message other' (sym types)),
          )
        ]
        | inr other ↦ elim (Bool-cases (same item.type (codes "group_message"))) [
          | inl message' ↦ (
            λ e. absurd (
                mixed_keys item.msg_id env.type (target env) id' (
                  sym (message_key item message')
                  ∙ (same_key_iff (dedupe_key item) (dedupe_key env)).0 (ground arith)
                  ∙ other_key env other)),
            λ (types, reason). absurd (unequal message' other types),
          )
          | inr other' ↦ two_others other other' plain plain'
        ]
      ]
