-- ===== src/Outbox/Tests.antt =====
-- A run of the outbox, and instances of its theorems.
use messk.Prelude.{
  ℕ, ◌≡◌, refl, none, some, List, [], ◌∷◌, Text, codes, same, true, false, map, ◌or_else◌,
}
use messk.Prelude.Dict.{Dict, lookup}
use messk.Store.{StoredMessage, stats_of, find_by_msg_id}
use messk.Store.Synced.{IsSynced}
use messk.Outbox.{
  Outbox, Channel, OutgoingDirectMessage, direct, flush_outgoing_direct_messages, flush_each,
  attempt, mark_direct_attempt, get_direct_retry_delay,
}
use messk.Outbox.Acknowledge.{retry_direct_message}
use messk.Outbox.Queue.{SameQueue, flush-SameQueue}
use messk.Outbox.Sent.{Grows, FromQueue, flush-FromQueue}

abbrev preview : Text → Text
preview t = t

abbrev encrypted : StoredMessage → Text
encrypted m = m.text

abbrev queued : OutgoingDirectMessage
queued = record {
  id = codes "m1";
  recipient_pub_key = codes "alice";
  sender_pub_key = codes "me";
  payload = codes "cipher";
  sync_data = none;
  created_at = 3;
  last_attempt_at = some 1000;
  attempts = 1;
}

abbrev box : Outbox
box = record {
  db = record { identity = some (codes "me"); messages = []; thread_stats = [] };
  outgoing_direct_messages = (codes "m1", queued) ∷ [];
  outgoing_group_events = [];
  flushing_direct_outbox = false;
  wire = [];
}

abbrev channel : ℕ → Channel
channel now = record {
  can_send_immediately = true;
  my_public_key = some (codes "me");
  my_secret_key = some (codes "secret");
  sends = λ e. true;
  ready = λ id. true;
  attempt_at = λ id. now;
  stamp_at = λ id. now;
}

abbrev rows : Dict OutgoingDirectMessage → List OutgoingDirectMessage
rows table = map (λ r. r.1) table

early_test : (flush_outgoing_direct_messages preview rows (channel 3999) box).wire ≡ []
unfolding flush_outgoing_direct_messages flush_each get_direct_retry_delay attempt
    mark_direct_attempt same find_by_msg_id
early_test = refl

due_test :
    (flush_outgoing_direct_messages preview rows (channel 4000) box).wire
    ≡ direct (codes "m1") (codes "alice") (codes "me") (codes "cipher") ∷ []
unfolding flush_outgoing_direct_messages flush_each get_direct_retry_delay attempt
    mark_direct_attempt same find_by_msg_id
due_test = refl

box-IsSynced : IsSynced preview box.db
unfolding stats_of lookup
box-IsSynced t written = refl

flush-SameQueue_example :
    SameQueue box (flush_outgoing_direct_messages preview rows (channel 4000) box)
flush-SameQueue_example = flush-SameQueue preview (channel 4000) rows box

flush-FromQueue_example :
    Grows
      (FromQueue preview (channel 4000) (codes "me") (rows box.outgoing_direct_messages))
      box
      (flush_outgoing_direct_messages preview rows (channel 4000) box)
flush-FromQueue_example = flush-FromQueue preview (channel 4000) rows box

abbrev retried_box : Outbox
retried_box = retry_direct_message preview rows (channel 0) (codes "m1") box or_else box

retried_test : retry_direct_message preview rows (channel 0) (codes "m1") box ≡ some retried_box
unfolding retry_direct_message lookup same
retried_test = refl
