-- ===== src/Incoming/Dispatch.antt =====
-- The part of `ws.onmessage` that leads a direct envelope to its handler (messk/src/lib/socket.ts).
use messk.Prelude.{
  ◌≡◌, Bool, true, any, List, ◌∷◌, ◌&&◌, not, ◌||◌, [], Text, codes, same, nonempty, ◌or_else◌,
  if◌then◌else◌,
}
use messk.Ratchet.Platform.{Platform}
use messk.Store.{delivered, read}
use messk.Incoming.{DirectEnvelope, Client, Moment, acknowledge_offline_envelope}
use messk.Incoming.Direct.{
  handle_edit, handle_delete, handle_reaction, handle_direct_pin_envelope, handle_session_repair,
  handle_receipt,
}
use messk.Incoming.Message.{handle_message}
use messk.Incoming.SelfSync.{handle_self_sync}

abbrev pub has_type : DirectEnvelope → Text → Bool
has_type env t = same env.type t

-- The types whose handlers are modelled here. A `session_reset` leads to messk.Sending.Reset, and a
-- `server_ack` to messk.Outbox.Acknowledge; `typing`, `dummy`, `rate_limited`, the calls, `wipe_all`, groups and
-- channels have handlers of their own, which are not part of this function.
abbrev pub direct_types : List Text
direct_types =
    codes "session_repair"
    ∷ (codes "edit"
        ∷ (codes "delete"
            ∷ (codes "reaction"
                ∷ (codes "pin"
                    ∷ (codes "unpin"
                        ∷ (codes "self_sync"
                            ∷ (codes "message"
                                ∷ (codes "offline_message"
                                    ∷ (codes "delivery_receipt"
                                        ∷ (codes "read_receipt" ∷ []))))))))))

-- An envelope of one of these types.
abbrev pub IsDirect : DirectEnvelope → Type 0
IsDirect env = any (has_type env) direct_types ≡ true

-- What becomes of such an envelope; for others this says nothing. An exception of a handler is caught
-- at the end, and leaves what was written before. The last branch is a receipt for another recipient.
unfoldable pub handle_direct : Platform → (Text → Text) → Moment → DirectEnvelope → Client → Client
handle_direct p preview moment env client =
    if not (nonempty client.secret_key)
    then client
    else if has_type env (codes "session_repair")
    then handle_session_repair p preview moment env client
    else if has_type env (codes "edit")
    then handle_edit p preview moment env client
    else if has_type env (codes "delete")
    then handle_delete p preview moment env client
    else if has_type env (codes "reaction")
    then handle_reaction p preview moment env client
    else if has_type env (codes "pin") || has_type env (codes "unpin")
    then acknowledge_offline_envelope moment env
        (handle_direct_pin_envelope p preview moment env client)
    else if has_type env (codes "self_sync")
    then handle_self_sync p preview moment env client
    else if has_type env (codes "message") || has_type env (codes "offline_message")
    then handle_message p preview moment env client
    else if has_type env (codes "delivery_receipt")
        && same (env.recipient_pub_key or_else []) client.public_key
    then handle_receipt p preview moment env delivered client
    else if has_type env (codes "read_receipt")
        && same (env.recipient_pub_key or_else []) client.public_key
    then handle_receipt p preview moment env read client
    else client
