-- ===== src/Incoming.antt =====
-- Direct envelopes that arrive at the client: the state that `SocketManager` of
-- messk/src/lib/socket.ts changes on them (tables of messk/src/lib/db.ts, sessions, notices), and the
-- small operations that its handlers share. During one call the clock stands still, and no other
-- call runs. Notifications, profile requests and console output are not modelled.
pub mod Direct
pub mod Message
pub mod SelfSync
pub mod Dispatch
pub mod Invariant
pub mod Handled
pub mod Received
pub mod Once
pub mod Arrival
pub mod History
mod Tests
use messk.Prelude.{
  ℕ, ◌+◌, ◌==◌, max, Bool, true, false, ◌&&◌, ◌||◌, not, Option, none, some, List, [], ◌∷◌, ◌++◌,
  Text, codes, same, nonempty, truthy, take, ltb, ◌or_else◌, if◌then◌else◌,
}
use messk.Prelude.Dict.{Dict, lookup, insert}
use messk.Ratchet.Platform.{Platform, Bytes, KeyPair}
use messk.Handshake.{encrypt_message}
use messk.Sessions.{SessionStore, delete_session}
use messk.Payloads.{SelfSyncPayload}
use messk.Payloads.Written.{stringify_self_sync}
use messk.Store.{Database, StoredMessage, Status, delivered, read, update_message_and_sync}

-- `IncomingEnvelope`: the members that the handlers of direct envelopes read, with `data` as
-- `payload`. A member that is null is `none` too.
pub record DirectEnvelope : Type 0 where
  pub type : Text
  pub recipient_pub_key : Option Text
  pub sender_pub_key : Option Text
  pub target_msg_id : Option Text
  pub payload : Option Text
  pub msg_id : Option Text
  pub reaction : Option Text

pub record Contact : Type 0 where
  pub name : Text
  pub avatar : Option Text
  pub username : Option Text
  pub last_message_at : Option ℕ
  pub pinned : Option Bool
  pub draft : Option Text
  pub archived : Option Bool
  pub muted_until : Option ℕ
  pub verified_identity_fingerprint : Option Text
  pub verified_identity_at : Option ℕ
  pub pinned_msg_id : Option Text

-- What the client sends on the way.
pub data Reply : Type 0 where
  -- msg_id
  offline_ack : Text → Reply
  -- recipient_pub_key, msg_id
  delivery_receipt : Text → Text → Reply
  -- recipient_pub_key
  session_reset : Text → Reply
  -- msg_id, data
  self_sync : Text → Text → Reply

-- `contacts` by `pubKey`; `replies` lists what has been sent, the last first.
pub record Client : Type 0 where
  pub public_key : Text
  pub secret_key : Text
  pub db : Database
  pub store : SessionStore
  pub contacts : Dict Contact
  pub last_session_reset_notice_at : Dict ℕ
  pub replies : List Reply

-- The surroundings of one call: `Date.now()`, the next key of the table of messages, what is drawn at
-- random (an id, key pairs for a fresh session and a step of the ratchet, a nonce), and the socket.
pub record Moment : Type 0 where
  pub now : ℕ
  pub next_id : ℕ
  pub random_uuid : Text
  pub session_pair : KeyPair
  pub ratchet_pair : KeyPair
  pub nonce : Bytes
  pub can_send_immediately : Bool
  pub authenticated : Bool

abbrev pub session_reset_cooldown_ms : ℕ
session_reset_cooldown_ms = 15000

-- `a || b`
abbrev pub either_text : Option Text → Option Text → Option Text
either_text a b = if truthy a then a else b

abbrev pub target_of : DirectEnvelope → Option Text
target_of env = either_text env.target_msg_id env.msg_id

abbrev pub reply : Reply → Client → Client
reply r client = record client { replies = r ∷ client.replies }

unfoldable pub acknowledge_offline_envelope : Moment → DirectEnvelope → Client → Client
acknowledge_offline_envelope moment env client =
    if not (truthy env.msg_id) || not moment.can_send_immediately
    then client
    else reply (offline_ack (env.msg_id or_else [])) client

-- `Math.max(existing ?? 0, timestamp)`
abbrev pub later : Option ℕ → ℕ → ℕ
later none timestamp = timestamp
later (some at) timestamp = max at timestamp

abbrev pub upserted : Text → ℕ → Bool → Option Contact → Contact
upserted peer timestamp unarchive none = record {
  name = take 8 peer ++ codes "...";
  avatar = none;
  username = none;
  last_message_at = some timestamp;
  pinned = none;
  draft = none;
  archived = if unarchive then some false else none;
  muted_until = none;
  verified_identity_fingerprint = none;
  verified_identity_at = none;
  pinned_msg_id = none;
}
upserted peer timestamp unarchive (some contact) = record contact {
  name = if nonempty contact.name then contact.name else take 8 peer ++ codes "...";
  last_message_at = some (later contact.last_message_at timestamp);
  archived = if unarchive then some false else contact.archived;
}

unfoldable pub upsert_direct_contact : Text → ℕ → Bool → Client → Client
upsert_direct_contact peer timestamp unarchive client = record client {
  contacts =
      insert peer (upserted peer timestamp unarchive (lookup peer client.contacts)) client.contacts;
}

-- `db.sessions.delete(peer)`
abbrev pub forget_session : Text → Client → Client
forget_session peer client = record client { store = delete_session peer client.store }

-- `Date.now() - lastSentAt < SESSION_RESET_COOLDOWN_MS`
abbrev pub is_cooling : ℕ → Option ℕ → Bool
is_cooling now none = ltb now session_reset_cooldown_ms
is_cooling now (some at) = ltb now (at + session_reset_cooldown_ms)

unfoldable pub send_session_reset_notice : Moment → Text → Client → Client
send_session_reset_notice moment peer client =
    if not moment.can_send_immediately
    then client
    else if is_cooling moment.now (lookup peer client.last_session_reset_notice_at)
    then client
    else reply (session_reset peer) (record client {
      last_session_reset_notice_at = insert peer moment.now client.last_session_reset_notice_at;
    })

-- After an envelope that could not be read: from anybody but oneself.
abbrev pub drop_session : Moment → Text → Client → Client
drop_session moment peer client =
    if same peer client.public_key
    then client
    else send_session_reset_notice moment peer (forget_session peer client)

abbrev pub send_copy : Text → Option Text → Client → Client
send_copy msg_id none client = client
send_copy msg_id (some encrypted) client = reply (self_sync msg_id encrypted) client

abbrev pub payload_msg_id : SelfSyncPayload → Text
payload_msg_id (SelfSyncPayload.direct_message msg_id _ _ _ _ _) = msg_id
payload_msg_id (SelfSyncPayload.direct_edit msg_id _ _ _) = msg_id
payload_msg_id (SelfSyncPayload.direct_delete msg_id _ _) = msg_id
payload_msg_id (SelfSyncPayload.direct_reaction msg_id _ _ _) = msg_id

-- An exception of `encryptMessage` is caught.
unfoldable pub send_self_sync_direct_message : Platform → Moment → SelfSyncPayload → Client → Client
send_self_sync_direct_message p moment payload client =
    if not moment.can_send_immediately
      || not (nonempty client.public_key)
      || not (nonempty client.secret_key)
    then client
    else send_copy (payload_msg_id payload ++ codes ":self")
        (encrypt_message p moment.nonce (stringify_self_sync payload) client.secret_key
          client.public_key)
        client

-- `delivered` or `read`
abbrev pub has_arrived : Status → Bool
has_arrived delivered = true
has_arrived read = true
has_arrived _ = false

abbrev pub change_row : (Text → Text) → ℕ → (StoredMessage → StoredMessage) → Client → Client
change_row preview id changes client = record client {
  db = update_message_and_sync preview id changes client.db;
}
