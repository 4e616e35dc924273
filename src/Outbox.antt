-- ===== src/Outbox.antt =====
-- The queue of direct messages: messk/src/lib/socketOutbox.ts and the outbox of `SocketManager` in
-- messk/src/lib/socket.ts (`flushOutgoingDirectMessages`, `handleServerAck`, `retryDirectMessage`).
-- The socket, the clock, the order that the database gives rows in, and the encryption of self-sync
-- payloads are arguments. Toasts and console output are not modelled.
pub mod Acknowledge
pub mod Delay
pub mod Queue
pub mod Ack
pub mod Sent
pub mod Kept
pub mod Flushing
mod Tests
use messk.Prelude.{
  ℕ, ◌+◌, ◌-◌, ◌*◌, ◌^◌, ◌==◌, min, Bool, true, false, ◌&&◌, ◌||◌, not, Option, none, some, List,
  [], ◌∷◌, ◌++◌, Text, codes, same, nonempty, truthy, ltb, leb, is_some, ◌or_else◌, if◌then◌else◌,
}
use messk.Prelude.Dict.{Dict, lookup, insert, remove}
use messk.Store.{
  Database, StoredMessage, Status, pending, sent, failed, find_by_msg_id, update_message_and_sync,
  update_message_by_msg_id,
}

pub record OutgoingDirectMessage : Type 0 where
  pub id : Text
  pub recipient_pub_key : Text
  pub sender_pub_key : Text
  pub payload : Text
  pub sync_data : Option Text
  pub created_at : ℕ
  pub last_attempt_at : Option ℕ
  pub attempts : ℕ

pub record OutgoingGroupEvent : Type 0 where
  pub type : Text
  pub group_id : Text
  pub sender_pub_key : Text
  pub payload : Option Text
  pub target_msg_id : Option Text

-- What is handed to the socket.
pub data Envelope : Type 0 where
  -- msg_id, recipient_pub_key, sender_pub_key, data
  direct : Text → Text → Text → Text → Envelope
  -- msg_id, the own public key, data
  self_sync : Text → Text → Text → Envelope

-- `wire` lists what has been sent, the last first.
pub record Outbox : Type 0 where
  pub db : Database
  pub outgoing_direct_messages : Dict OutgoingDirectMessage
  pub outgoing_group_events : Dict OutgoingGroupEvent
  pub flushing_direct_outbox : Bool
  pub wire : List Envelope

-- The surroundings during one call. `sends` tells whether `sendEnvelope` succeeds, and it throws
-- where not; `ready` is `canSendImmediately()` at the self-sync of a message; `attempt_at` and
-- `stamp_at` are `Date.now()` at the test and at the mark of a message.
pub record Channel : Type 0 where
  pub can_send_immediately : Bool
  pub my_public_key : Option Text
  pub my_secret_key : Option Text
  pub sends : Envelope → Bool
  pub ready : Text → Bool
  pub attempt_at : Text → ℕ
  pub stamp_at : Text → ℕ

abbrev pub direct_retry_base_delay_ms : ℕ
direct_retry_base_delay_ms = 3000

abbrev pub direct_retry_max_delay_ms : ℕ
direct_retry_max_delay_ms = 30000

unfoldable pub get_direct_retry_delay : ℕ → ℕ
get_direct_retry_delay attempts =
    min direct_retry_max_delay_ms (direct_retry_base_delay_ms * 2 ^ (attempts - 1))

unfoldable pub get_reconnect_delay : ℕ → ℕ
get_reconnect_delay reconnect_attempts =
    if leb 5 reconnect_attempts then 60000 else min (1000 * 2 ^ reconnect_attempts) 30000

-- `message.lastAttemptAt && Date.now() - message.lastAttemptAt < retryDelay`; a difference below 0
-- is below the delay, as 0 is.
abbrev pub waits : Option ℕ → ℕ → ℕ → Bool
waits none now delay = false
waits (some at) now delay = ltb 0 at && ltb (now - at) delay

abbrev pub direct_envelope : OutgoingDirectMessage → Envelope
direct_envelope m = direct m.id m.recipient_pub_key m.sender_pub_key m.payload

abbrev pub self_sync_envelope : OutgoingDirectMessage → Text → Envelope
self_sync_envelope m my_public_key =
    self_sync (m.id ++ codes ":self") my_public_key (m.sync_data or_else [])

-- `outgoingDirectMessages.update(id, …)`
abbrev pub mark_row :
    ℕ
    → ℕ
    → Option OutgoingDirectMessage
    → Text
    → Dict OutgoingDirectMessage
    → Dict OutgoingDirectMessage
mark_row attempts now none id table = table
mark_row attempts now (some row) id table =
    insert id (record row { attempts = attempts; last_attempt_at = some now }) table

unfoldable pub mark_direct_attempt :
    ℕ → OutgoingDirectMessage → Dict OutgoingDirectMessage → Dict OutgoingDirectMessage
mark_direct_attempt now message table =
    mark_row (message.attempts + 1) now (lookup message.id table) message.id table

module _ (preview : Text → Text) where
  abbrev pub update_status : Status → Text → Outbox → Outbox
  update_status status msg_id box = record box {
    db = update_message_by_msg_id preview msg_id (λ m. record m { status = status }) box.db;
  }

  abbrev pub is_failed : Status → Bool
  is_failed failed = true
  is_failed _ = false

  abbrev pub revive : Option StoredMessage → Outbox → Outbox
  revive none box = box
  revive (some local) box =
      if ltb 0 local.id && is_failed local.status
      then record box {
        db = update_message_and_sync preview local.id (λ m. record m { status = pending }) box.db;
      }
      else box

  -- `sendEnvelope`; false is an exception.
  abbrev pub send_envelope : Channel → Envelope → Outbox → Bool × Outbox
  send_envelope channel envelope box =
      if channel.sends envelope
      then (true, record box { wire = envelope ∷ box.wire })
      else (false, box)

  abbrev pub send_self_sync : Channel → Text → OutgoingDirectMessage → Outbox → Bool × Outbox
  send_self_sync channel my_public_key message box =
      if not (channel.ready message.id) || not (truthy message.sync_data)
      then (true, box)
      else send_envelope channel (self_sync_envelope message my_public_key) box

  -- The `try` of one message; on an exception the message is failed and the loop ends.
  abbrev pub finish : Channel → OutgoingDirectMessage → Bool × Outbox → Bool × Outbox
  finish channel message (true, box) = (
    true,
    record box {
      outgoing_direct_messages =
          mark_direct_attempt (channel.stamp_at message.id) message box.outgoing_direct_messages;
    },
  )
  finish channel message (false, box) = (false, update_status failed message.id box)

  abbrev pub then_self_sync : Channel → Text → OutgoingDirectMessage → Bool × Outbox → Bool × Outbox
  then_self_sync channel my_public_key message (true, box) =
      send_self_sync channel my_public_key message box
  then_self_sync channel my_public_key message (false, box) = (false, box)

  unfoldable pub attempt : Channel → Text → OutgoingDirectMessage → Outbox → Bool × Outbox
  attempt channel my_public_key message box =
      let revived = revive (find_by_msg_id message.id box.db.messages) box in
      finish channel message (
        then_self_sync channel my_public_key message
          (send_envelope channel (direct_envelope message) revived))

  abbrev pub is_due : Channel → Text → OutgoingDirectMessage → Bool
  is_due channel my_public_key message =
      same message.sender_pub_key my_public_key
      && not (
          waits message.last_attempt_at (channel.attempt_at message.id)
            (get_direct_retry_delay message.attempts))

  unfoldable pub flush_each : Channel → Text → List OutgoingDirectMessage → Outbox → Outbox
  flush_each channel my_public_key [] box = box
  flush_each channel my_public_key (message ∷ messages) box =
      let (goes_on, after) = attempt channel my_public_key message box in
      let rest = flush_each channel my_public_key messages after in
      let skipped = flush_each channel my_public_key messages box in
      if not (is_due channel my_public_key message)
      then skipped
      else if goes_on
      then rest
      else after

  -- `order` is `orderBy('createdAt').toArray()`.
  unfoldable pub flush_outgoing_direct_messages :
      (Dict OutgoingDirectMessage → List OutgoingDirectMessage) → Channel → Outbox → Outbox
  flush_outgoing_direct_messages order channel box =
      if box.flushing_direct_outbox
        || not channel.can_send_immediately
        || not (truthy channel.my_public_key)
      then box
      else let after =
          flush_each channel (channel.my_public_key or_else []) (order box.outgoing_direct_messages)
            (record box { flushing_direct_outbox = true }) in
        record after { flushing_direct_outbox = false }
