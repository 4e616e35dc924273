-- ===== src/Contract.antt =====
-- The event and transport tables of messk/src/lib/protocolContract.ts, and the test of server
-- acknowledgements of messk/src/lib/socketOutbox.ts.
pub mod Priority
pub mod Limits
mod Tests
use messk.Prelude.{
  ℕ, Bool, true, false, ◌&&◌, ◌||◌, not, Option, none, some, List, [], ◌∷◌, Text, codes, includes,
  nonempty, leb, if◌then◌else◌,
}
use messk.Prelude.Int.{ℤ, pos, negsuc}
use messk.Prelude.Number.{Number, is_finite, at_most, above}

abbrev pub direct_event_types : List Text
direct_event_types =
    codes "message"
    ∷ (codes "edit"
        ∷ (codes "delete"
            ∷ (codes "reaction"
                ∷ (codes "reply"
                    ∷ (codes "pin"
                        ∷ (codes "unpin" ∷ (codes "attachment" ∷ (codes "forward" ∷ []))))))))

abbrev pub transport_kinds : List Text
transport_kinds =
    codes "central_ws"
    ∷ (codes "mesh_relay"
        ∷ (codes "direct_p2p" ∷ (codes "fallback_wss" ∷ (codes "user_proxy" ∷ []))))

abbrev pub default_transport_priority : List Text
default_transport_priority =
    codes "central_ws"
    ∷ (codes "mesh_relay"
        ∷ (codes "direct_p2p" ∷ (codes "fallback_wss" ∷ (codes "user_proxy" ∷ []))))

abbrev pub server_ack_types : List Text
server_ack_types =
    codes "dummy"
    ∷ (codes "message"
        ∷ (codes "session_repair"
            ∷ (codes "group_message"
                ∷ (codes "group_edit"
                    ∷ (codes "group_delete"
                        ∷ (codes "group_reaction"
                            ∷ (codes "group_sender_key"
                                ∷ (codes "channel_message"
                                    ∷ (codes "channel_edit"
                                        ∷ (codes "channel_delete"
                                            ∷ (codes "channel_reaction"
                                                ∷ (codes "channel_pin"
                                                    ∷ (codes "delivery_receipt"
                                                        ∷ (codes "read_receipt"
                                                            ∷ (codes "edit"
                                                            ∷ (codes "delete"
                                                            ∷ (codes "reaction"
                                                            ∷ (codes "reply"
                                                            ∷ (codes "pin"
                                                            ∷ (codes "unpin"
                                                            ∷ (codes "attachment"
                                                            ∷ (codes "forward"
                                                            ∷ []))))))))))))))))))))))

unfoldable pub is_direct_history_event : Text → Bool
is_direct_history_event type = includes direct_event_types type

unfoldable pub is_supported_transport_kind : Text → Bool
is_supported_transport_kind type = includes transport_kinds type

unfoldable pub requires_target_message_id : Text → Bool
requires_target_message_id type =
    includes
      (codes "edit"
        ∷ (codes "delete"
            ∷ (codes "reaction" ∷ (codes "reply" ∷ (codes "pin" ∷ (codes "unpin" ∷ []))))))
      type

unfoldable pub requires_encrypted_data : Text → Bool
requires_encrypted_data type =
    includes
      (codes "message"
        ∷ (codes "dummy"
            ∷ (codes "edit"
                ∷ (codes "reply"
                    ∷ (codes "attachment" ∷ (codes "forward" ∷ (codes "session_repair" ∷ [])))))))
      type

-- The `filter` with its set `seen`.
unfoldable pub unseen_supported : List Text → List Text → List Text
unseen_supported seen [] = []
unseen_supported seen (kind ∷ kinds) =
    let kept = kind ∷ unseen_supported (kind ∷ seen) kinds in
    let rest = unseen_supported seen kinds in
    if not (is_supported_transport_kind kind) || includes seen kind then rest else kept

abbrev or_default : List Text → List Text
or_default [] = default_transport_priority
or_default (kind ∷ kinds) = kind ∷ kinds

unfoldable pub normalize_transport_priority : List Text → List Text
normalize_transport_priority priority = or_default (unseen_supported [] priority)

-- `Math.floor` of a finite number that is above 0.
abbrev floor_pos : Number → ℕ
floor_pos (Number.int (pos n)) = n
floor_pos (Number.between (pos n)) = n
floor_pos x = 0

unfoldable pub clamp_history_limit : Number → ℕ
clamp_history_limit limit =
    if not (is_finite limit) || at_most limit (pos 0) || above limit (pos 500)
    then 100
    else floor_pos limit

-- socketOutbox.ts
unfoldable pub should_handle_server_ack : Option Text → Bool
should_handle_server_ack none = true
should_handle_server_ack (some ack_type) =
    if not (nonempty ack_type) then true else includes server_ack_types ack_type
