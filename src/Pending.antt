-- ===== src/Pending.antt =====
-- Group events that wait for their sender's key: messk/src/lib/socketGroups.ts
-- (`enqueuePendingGroupEvent`, `takePendingGroupEvents`). Of an incoming envelope
-- (messk/src/lib/socketTypes.ts) the members are here that the group handlers read; its `data` is
-- `payload`, and null in `reaction` is `none` too.
pub mod Events
pub mod Queues
mod Tests
use messk.Prelude.{
  ℕ, ◌-◌, Bool, true, false, ◌&&◌, ◌||◌, not, Option, none, some, List, [], ◌∷◌, ◌++◌, Text, codes,
  same, truthy, any, drop, length, ◌or_else◌, if◌then◌else◌,
}
use messk.Prelude.Dict.{Dict, lookup, insert, remove}

pub record IncomingEnvelope : Type 0 where
  pub type : Text
  pub group_id : Option Text
  pub target_msg_id : Option Text
  pub sender_pub_key : Option Text
  pub payload : Option Text
  pub msg_id : Option Text
  pub reaction : Option Text

unfoldable pub get_pending_group_event_key : Text → Text → Text
get_pending_group_event_key group_id sender_pub_key = group_id ++ b':' ∷ sender_pub_key

abbrev pub first_of : Option Text → Option Text → Option Text
first_of none o = o
first_of (some t) o = some t

-- `none` is undefined.
unfoldable pub dedupe_key : IncomingEnvelope → Option Text
dedupe_key env =
    if same env.type (codes "group_message")
    then env.msg_id
    else some (env.type ++ b':' ∷ (first_of env.target_msg_id env.msg_id or_else []))

-- `key === dedupeKey`
abbrev pub same_key : Option Text → Option Text → Bool
same_key none none = true
same_key (some a) (some b) = same a b
same_key _ _ = false

unfoldable pub is_pending : IncomingEnvelope → List IncomingEnvelope → Bool
is_pending env current =
    truthy (dedupe_key env) && any (λ item. same_key (dedupe_key item) (dedupe_key env)) current

-- `current.push(env)` and `current.slice(-50)`
abbrev pub push_last_50 : IncomingEnvelope → List IncomingEnvelope → List IncomingEnvelope
push_last_50 env current = drop (length (current ++ env ∷ []) - 50) (current ++ env ∷ [])

abbrev pub enqueue_at :
    Text
    → IncomingEnvelope
    → List IncomingEnvelope
    → Dict (List IncomingEnvelope)
    → Dict (List IncomingEnvelope)
enqueue_at key env current pending =
    if is_pending env current then pending else insert key (push_last_50 env current) pending

unfoldable pub enqueue_pending_group_event :
    IncomingEnvelope → Dict (List IncomingEnvelope) → Dict (List IncomingEnvelope)
enqueue_pending_group_event env pending =
    let key =
      get_pending_group_event_key (env.group_id or_else []) (env.sender_pub_key or_else []) in
    if not (truthy env.group_id) || not (truthy env.sender_pub_key)
    then pending
    else enqueue_at key env (lookup key pending or_else []) pending

unfoldable pub take_pending_group_events :
    Text
    → Text
    → Dict (List IncomingEnvelope)
    → List IncomingEnvelope × Dict (List IncomingEnvelope)
take_pending_group_events group_id sender_pub_key pending =
    let key = get_pending_group_event_key group_id sender_pub_key in
    (lookup key pending or_else [], remove key pending)
