-- ===== src/Outbox/Acknowledge.antt =====
-- Acknowledgements of the server and manual retries (`handleServerAck` and `retryDirectMessage` of
-- messk/src/lib/socket.ts).
use messk.Prelude.{
  Bool, true, false, ◌&&◌, ◌||◌, not, Option, none, some, List, [], ◌++◌, Text, codes, truthy, ltb,
  is_some, ◌or_else◌, if◌then◌else◌,
}
use messk.Prelude.Dict.{Dict, lookup, insert, remove}
use messk.Store.{
  StoredMessage, Status, pending, sent, failed, find_by_msg_id, update_message_and_sync,
}
use messk.Outbox.{
  update_status, send_envelope, flush_outgoing_direct_messages, OutgoingDirectMessage, Outbox,
  Channel, self_sync,
}

module _ (preview : Text → Text) where
  -- `sendSelfSyncDirectMessage`: `encrypted` is the encrypted payload of a message, and every
  -- exception is caught.
  abbrev pub send_self_sync_copy :
      (StoredMessage → Text) → Channel → StoredMessage → Outbox → Outbox
  send_self_sync_copy encrypted channel message box =
      if not channel.can_send_immediately
        || not (truthy channel.my_public_key)
        || not (truthy channel.my_secret_key)
      then box
      else (send_envelope preview channel
          (self_sync (message.msg_id ++ codes ":self") (channel.my_public_key or_else [])
            (encrypted message))
          box).1

  abbrev pub is_unsent : Status → Bool
  is_unsent pending = true
  is_unsent failed = true
  is_unsent _ = false

  abbrev pub acknowledge :
      (StoredMessage → Text) → Channel → Bool → Option StoredMessage → Outbox → Outbox
  acknowledge encrypted channel queued none box = box
  acknowledge encrypted channel queued (some msg) box =
      if ltb 0 msg.id && is_unsent msg.status
      then (let after = record box {
        db = update_message_and_sync preview msg.id (λ m. record m { status = sent }) box.db;
      } in
          if queued then send_self_sync_copy encrypted channel msg after else after)
      else box

  unfoldable pub handle_server_ack : (StoredMessage → Text) → Channel → Text → Outbox → Outbox
  handle_server_ack encrypted channel msg_id box =
      acknowledge encrypted channel (is_some (lookup msg_id box.outgoing_direct_messages))
        (find_by_msg_id msg_id box.db.messages)
        (record box {
          outgoing_direct_messages = remove msg_id box.outgoing_direct_messages;
          outgoing_group_events = remove msg_id box.outgoing_group_events;
        })

  -- `attempts: 0, lastAttemptAt: undefined`
  abbrev pub reset_row : OutgoingDirectMessage → OutgoingDirectMessage
  reset_row row = record row { attempts = 0; last_attempt_at = none }

  abbrev pub retried :
      (Dict OutgoingDirectMessage → List OutgoingDirectMessage)
      → Channel
      → Text
      → OutgoingDirectMessage
      → Outbox
      → Outbox
  retried order channel msg_id row box =
      let reset = update_status preview pending msg_id (record box {
        outgoing_direct_messages = insert msg_id (reset_row row) box.outgoing_direct_messages;
      }) in
      if channel.can_send_immediately
      then flush_outgoing_direct_messages preview order channel reset
      else reset

  abbrev pub retry_row :
      (Dict OutgoingDirectMessage → List OutgoingDirectMessage)
      → Channel
      → Text
      → Option OutgoingDirectMessage
      → Outbox
      → Option Outbox
  retry_row order channel msg_id none box = none
  retry_row order channel msg_id (some row) box = some (retried order channel msg_id row box)

  -- `none` is the error that the message is no longer queued.
  unfoldable pub retry_direct_message :
      (Dict OutgoingDirectMessage → List OutgoingDirectMessage)
      → Channel
      → Text
      → Outbox
      → Option Outbox
  retry_direct_message order channel msg_id box =
      retry_row order channel msg_id (lookup msg_id box.outgoing_direct_messages) box
