-- ===== src/Sending/Tests.antt =====
-- Sends and resets on the toy platform.
use messk.Prelude.{
  ◌↔◌, ◌⊎◌, Any, ◌≡◌, refl, true, false, none, some, List, [], ◌∷◌, Text, codes, same, map, arith,
  replicate,
}
use messk.Prelude.Dict.{Dict, lookup, insert, remove}
use messk.Ratchet.Toy.{toy}
use messk.Ratchet.Seal.{seal, build_authenticated_plaintext}
use messk.Ratchet.Send.{encrypt, encrypt_on_chain, ensure_send_chain}
use messk.Ratchet.Platform.{stringify_envelope}
use messk.Metadata.{metadata_padding_target_len}
use messk.Handshake.{x3dh_initiate, encrypt_message}
use messk.Json.Plain.{write}
use messk.Payloads.Written.{stringify_self_sync}
use messk.Prelude.{decimal, filter, All, Bool-cases, inl, inr}
use messk.Sessions.{encrypt_in_session}
use messk.Sessions.Tests.{draws, no_sessions}
use messk.Store.{
  find_by_msg_id, stats_of, sync_thread_stats, add_message_and_sync, update_message_and_sync,
}
use messk.Store.Synced.{IsSynced}
use messk.Outbox.{Channel, OutgoingDirectMessage, flush_outgoing_direct_messages}
use messk.Outbox.Acknowledge.{retry_direct_message}
use messk.Incoming.Once.{HasUniqueIds}
use messk.Store.{find_by_id}
use messk.Sending.{sent_message, Sender, Call, send}
use messk.Sending.Reset.{handle_peer_session_reset, resend_each}
use messk.Sending.Queued.{Sends, send-Sends}
use messk.Sending.Chosen.{IsUnsentTo, IsOther}
use messk.Sending.Requeued.{is_queued, handle_peer_session_reset-queue}
use messk.Sending.Interrupted.{HasUniqueRows, handle_peer_session_reset-interrupted}
use messk.Sending.Actions.{rest, sends, resets, Runs-IsSound}
use messk.Sending.Covered.{is_in}
use messk.Sending.Tracked.{IsQuery}
use messk.Sending.Waiting.{idle, sending, flushing, Delivers-waits}

abbrev preview : Text → Text
preview t = t

abbrev call : Call
call = record {
  now = 100;
  next_id = 1;
  random_uuid = codes "m1";
  is_open = true;
  authenticated = true;
  authenticated_later = true;
  draws = λ i. draws;
  pre_keys = λ i. none;
  nonce = replicate 24 9;
  repair_sends = true;
}

abbrev no_repair : Call
no_repair = record call { repair_sends = false }

abbrev channel : Channel
channel = record {
  can_send_immediately = false;
  my_public_key = some (1 ∷ []);
  my_secret_key = some (1 ∷ []);
  sends = λ e. true;
  ready = λ id. true;
  attempt_at = λ id. 100;
  stamp_at = λ id. 100;
}

abbrev order : Dict OutgoingDirectMessage → List OutgoingDirectMessage
order table = map (λ r. r.1) table

abbrev row : OutgoingDirectMessage
row = record {
  id = codes "m0";
  recipient_pub_key = 2 ∷ [];
  sender_pub_key = 1 ∷ [];
  payload = codes "cipher";
  sync_data = none;
  created_at = 3;
  last_attempt_at = none;
  attempts = 0;
}

abbrev sender : Sender
sender = record {
  box = record {
    db = record { identity = some (1 ∷ []); messages = []; thread_stats = [] };
    outgoing_direct_messages = (codes "m0", row) ∷ [];
    outgoing_group_events = [];
    flushing_direct_outbox = false;
    wire = [];
  };
  store = no_sessions;
  contacts = [];
  repairs = [];
}

send-Sends_example :
    Sends toy preview call
      (2 ∷ [])
      (codes "hi")
      (1 ∷ [])
      (1 ∷ [])
      sender
      (send toy preview call (2 ∷ []) (codes "hi") (1 ∷ []) (1 ∷ []) sender)
      (encrypt_in_session toy draws (2 ∷ []) (codes "hi") (1 ∷ []) none no_sessions)
send-Sends_example = send-Sends toy preview call (2 ∷ []) (codes "hi") (1 ∷ []) (1 ∷ []) sender

abbrev with_message : Sender
with_message = (send toy preview call (2 ∷ []) (codes "hi") (1 ∷ []) (1 ∷ []) sender).1

is_handled :
    (handle_peer_session_reset toy preview channel call (2 ∷ []) order with_message).0 ≡ true
unfolding handle_peer_session_reset send same insert encrypt_in_session lookup x3dh_initiate encrypt
    encrypt_on_chain ensure_send_chain seal build_authenticated_plaintext
    metadata_padding_target_len stringify_envelope decimal resend_each remove write
    stringify_self_sync encrypt_message add_message_and_sync sync_thread_stats
    update_message_and_sync find_by_msg_id
is_handled = refl

handle_peer_session_reset-queue_example :
    (is_queued
        (codes "m1")
        (handle_peer_session_reset toy preview channel call (2 ∷ []) order with_message).1
      ≡ true)
    ↔ (Any (IsUnsentTo (codes "m1") (2 ∷ []) (1 ∷ [])) with_message.box.db.messages
        ⊎ Any (IsOther (codes "m1") (2 ∷ []) (1 ∷ [])) with_message.box.outgoing_direct_messages)
handle_peer_session_reset-queue_example =
    handle_peer_session_reset-queue toy preview channel call (2 ∷ []) order with_message
      (codes "m1") refl refl is_handled

unique_rows : HasUniqueRows sender.box.outgoing_direct_messages
unfolding lookup
unique_rows = (refl, tt)

is_there : lookup (codes "m0") sender.box.outgoing_direct_messages ≡ some row
unfolding lookup same
is_there = refl

handle_peer_session_reset-interrupted_example :
    ((handle_peer_session_reset toy preview channel no_repair (2 ∷ []) order sender).0 ≡ false)
    × ((handle_peer_session_reset toy preview channel no_repair (2 ∷ []) order sender).1.box.db
        ≡ sender.box.db)
    × (retry_direct_message preview order channel
          (codes "m0")
          (handle_peer_session_reset toy preview channel no_repair (2 ∷ []) order sender).1.box
        ≡ none)
unfolding same
handle_peer_session_reset-interrupted_example =
    handle_peer_session_reset-interrupted toy preview channel no_repair (2 ∷ []) order sender
      (codes "m0") row refl refl refl unique_rows is_there refl

abbrev after : Sender
after = (handle_peer_session_reset toy preview channel call (2 ∷ []) order with_message).1

is_new : find_by_msg_id (codes "m1") [] ≡ none
unfolding find_by_msg_id
is_new = refl

no_messages-IsSynced : IsSynced preview sender.box.db
unfolding stats_of lookup
no_messages-IsSynced t written = refl

Runs-IsSound_example : HasUniqueIds after.box.db.messages × IsSynced preview after.box.db
Runs-IsSound_example =
    Runs-IsSound toy preview
      (sends call (2 ∷ []) (codes "hi") (1 ∷ []) (1 ∷ []) (omega arith) is_new
        (resets channel call (2 ∷ []) order rest))
      tt no_messages-IsSynced

-- The rows of a table that stand under their id.
abbrev rows_of : Dict OutgoingDirectMessage → List OutgoingDirectMessage
rows_of table = filter (λ row. is_in table row.id) (order table)

rows-IsQuery_on :
    (table : Dict OutgoingDirectMessage) (rows : List OutgoingDirectMessage)
    → All (λ row. is_in table row.id ≡ true) (filter (λ row. is_in table row.id) rows)
rows-IsQuery_on table [] = tt
rows-IsQuery_on table (row ∷ rows) = elim (Bool-cases (is_in table row.id)) [
  | inl there ↦ rw there (there, rows-IsQuery_on table rows)
  | inr missing ↦ rw missing (rows-IsQuery_on table rows)
]

rows-IsQuery : IsQuery rows_of
rows-IsQuery table = rows-IsQuery_on table (order table)

no_keys : find_by_id 1 [] ≡ none
unfolding find_by_id
no_keys = refl

abbrev flushed : Sender
flushed = record with_message {
  box = flush_outgoing_direct_messages preview rows_of channel with_message.box;
}

still_pending :
    find_by_msg_id (codes "m1") flushed.box.db.messages
    ≡ some (sent_message toy preview call (2 ∷ []) (1 ∷ []) (codes "hi"))
unfolding find_by_msg_id flush_outgoing_direct_messages send encrypt_in_session lookup x3dh_initiate
    encrypt seal build_authenticated_plaintext metadata_padding_target_len stringify_envelope
    decimal encrypt_message add_message_and_sync sync_thread_stats same
still_pending = refl

Delivers-waits_example : is_in flushed.box.outgoing_direct_messages (codes "m1") ≡ true
Delivers-waits_example =
    Delivers-waits toy preview (codes "m1")
      (sent_message toy preview call (2 ∷ []) (1 ∷ []) (codes "hi"))
      (sending call (2 ∷ []) (codes "hi") (1 ∷ []) (1 ∷ []) (omega arith) no_keys is_new
        (flushing rows_of channel rows-IsQuery idle))
      (record { keys = tt; ids = tt; covered = tt }) still_pending refl
