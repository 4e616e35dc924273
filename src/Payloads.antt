-- ===== src/Payloads.antt =====
-- The payloads that travel encrypted between clients: the parsers of messk/src/lib/socket.ts. An
-- exception of `JSON.parse`, or of reading a member of null, gives null, here `none`.
pub mod Written
mod Tests
use messk.Prelude.{
  ℕ, ◌==◌, Bool, true, false, ◌&&◌, not, Option, none, some, [], ◌∷◌, Text, codes, same, nonempty,
  trim, ◌or_else◌, if◌then◌else◌, ◌||◌,
}
use messk.Prelude.Int.{pos}
use messk.Prelude.Number.{Number}
use messk.Json.{Json, null, num, str, get}
use messk.Json.Parse.{parse_json, ◌>>=◌}
use messk.Store.{Status, pending, sent, delivered, read}

pub record GroupSenderKeyPayload : Type 0 where
  pub group_id : Text
  pub sender_key : Text
  pub member_fingerprint : Text

pub record GroupInvitePayload : Type 0 where
  pub group_id : Text
  pub title : Text
  pub avatar : Text
  pub role : Text
  pub member_count : Number

pub record GroupCipherEnvelope : Type 0 where
  pub ciphertext : Text

-- By kind; each has `msgId` and `peerPubKey` first.
pub data SelfSyncPayload : Type 0 where
  -- senderPubKey, text, timestamp, status
  direct_message : Text → Text → Text → Text → Number → Status → SelfSyncPayload
  -- text, editedAt
  direct_edit : Text → Text → Text → Number → SelfSyncPayload
  -- deletedAt
  direct_delete : Text → Text → Number → SelfSyncPayload
  -- actorPubKey, reaction
  direct_reaction : Text → Text → Text → Option Text → SelfSyncPayload

-- `typeof value === 'string'`
abbrev pub as_string : Option Json → Option Text
as_string (some (str s)) = some s
as_string _ = none

-- `typeof value === 'number'`
abbrev pub as_number : Option Json → Option Number
as_number (some (num x)) = some x
as_number _ = none

-- `value === null || typeof value === 'string'`
abbrev pub as_reaction : Option Json → Option (Option Text)
as_reaction (some null) = some none
as_reaction (some (str s)) = some (some s)
as_reaction _ = none

-- `isNonEmptyString`
unfoldable pub non_empty_string : Option Json → Option Text
non_empty_string (some (str s)) = if nonempty (trim s) then some s else none
non_empty_string _ = none

unfoldable pub parse_group_sender_key_payload : Text → Option GroupSenderKeyPayload
parse_group_sender_key_payload value = parse_json value >>= λ parsed.
    non_empty_string (get parsed (codes "groupId")) >>= λ group_id.
    non_empty_string (get parsed (codes "senderKey")) >>= λ sender_key. some (record {
      group_id = group_id;
      sender_key = sender_key;
      member_fingerprint = as_string (get parsed (codes "memberFingerprint")) or_else [];
    })

unfoldable pub parse_group_invite_payload : Text → Option GroupInvitePayload
parse_group_invite_payload value = parse_json value >>= λ parsed.
    non_empty_string (get parsed (codes "groupId")) >>= λ group_id.
    non_empty_string (get parsed (codes "title")) >>= λ title.
    non_empty_string (get parsed (codes "role")) >>= λ role.
    as_number (get parsed (codes "memberCount")) >>= λ member_count. some (record {
      group_id = group_id;
      title = title;
      avatar = as_string (get parsed (codes "avatar")) or_else [];
      role = role;
      member_count = member_count;
    })

unfoldable pub parse_group_edit_payload : Text → Option Text
parse_group_edit_payload value =
    parse_json value >>= λ parsed. non_empty_string (get parsed (codes "text"))

unfoldable pub parse_group_reaction_payload : Text → Option (Option Text)
parse_group_reaction_payload value =
    parse_json value >>= λ parsed. as_reaction (get parsed (codes "reaction"))

-- The statuses that a self-sync message may have.
unfoldable pub as_status : Option Json → Option Status
as_status (some (str s)) =
    if same s (codes "pending")
    then some pending
    else if same s (codes "sent")
    then some sent
    else if same s (codes "delivered")
    then some delivered
    else if same s (codes "read")
    then some read
    else none
as_status _ = none

abbrev pub parse_direct_message : Json → Text → Text → Option SelfSyncPayload
parse_direct_message parsed msg_id peer =
    non_empty_string (get parsed (codes "senderPubKey")) >>= λ sender.
    as_string (get parsed (codes "text")) >>= λ text.
    as_number (get parsed (codes "timestamp")) >>= λ timestamp.
    as_status (get parsed (codes "status")) >>= λ status.
    some (direct_message msg_id peer sender text timestamp status)

abbrev pub parse_direct_edit : Json → Text → Text → Option SelfSyncPayload
parse_direct_edit parsed msg_id peer = as_string (get parsed (codes "text")) >>= λ text.
    as_number (get parsed (codes "editedAt")) >>= λ edited_at.
    some (direct_edit msg_id peer text edited_at)

abbrev pub parse_direct_delete : Json → Text → Text → Option SelfSyncPayload
parse_direct_delete parsed msg_id peer =
    as_number (get parsed (codes "deletedAt")) >>= λ deleted_at.
    some (direct_delete msg_id peer deleted_at)

abbrev pub parse_direct_reaction : Json → Text → Text → Option SelfSyncPayload
parse_direct_reaction parsed msg_id peer =
    non_empty_string (get parsed (codes "actorPubKey")) >>= λ actor.
    as_reaction (get parsed (codes "reaction")) >>= λ reaction.
    some (direct_reaction msg_id peer actor reaction)

abbrev pub parse_kind : Json → Text → Text → Text → Option SelfSyncPayload
parse_kind parsed kind msg_id peer =
    if same kind (codes "direct_message")
    then parse_direct_message parsed msg_id peer
    else if same kind (codes "direct_edit")
    then parse_direct_edit parsed msg_id peer
    else if same kind (codes "direct_delete")
    then parse_direct_delete parsed msg_id peer
    else if same kind (codes "direct_reaction")
    then parse_direct_reaction parsed msg_id peer
    else none

unfoldable pub read_self_sync : Json → Option SelfSyncPayload
read_self_sync parsed = non_empty_string (get parsed (codes "kind")) >>= λ kind.
    non_empty_string (get parsed (codes "msgId")) >>= λ msg_id.
    non_empty_string (get parsed (codes "peerPubKey")) >>= λ peer.
    parse_kind parsed kind msg_id peer

unfoldable pub parse_self_sync_payload : Text → Option SelfSyncPayload
parse_self_sync_payload value = parse_json value >>= λ parsed. read_self_sync parsed

abbrev pub is_one : Option Json → Bool
is_one (some (num (Number.int (pos n)))) = n == 1
is_one _ = false

abbrev pub is_mode : Option Json → Bool
is_mode (some (str s)) = same s (codes "sender_key_v1")
is_mode _ = false

unfoldable pub parse_group_cipher_envelope : Text → Option GroupCipherEnvelope
parse_group_cipher_envelope value = parse_json value >>= λ parsed.
    if is_one (get parsed (codes "v")) && is_mode (get parsed (codes "mode"))
    then (as_string (get parsed (codes "ciphertext")) >>= λ ciphertext.
        some (record { ciphertext = ciphertext }))
    else none
