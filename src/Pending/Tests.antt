-- ===== src/Pending/Tests.antt =====
-- Runs on pending events, and instances of the theorems.
use messk.Prelude.{◌++◌, ◌⊎◌, Any, ◌or_else◌, ◌≡◌, refl, none, some, List, [], ◌∷◌, codes, same}
use messk.Prelude.Dict.{Dict, lookup, insert, remove}
use messk.Pending.{
  IncomingEnvelope, enqueue_pending_group_event, take_pending_group_events, dedupe_key, is_pending,
  get_pending_group_event_key,
}
use messk.Pending.Events.{IsSameEvent}
use messk.Pending.Queues.{IsQueued, enqueue-IsQueued}

abbrev edit : IncomingEnvelope
edit = record {
  type = codes "group_edit";
  group_id = some (codes "g");
  target_msg_id = some (codes "m1");
  sender_pub_key = some (codes "alice");
  payload = none;
  msg_id = some (codes "e1");
  reaction = none;
}

abbrev pending : Dict (List IncomingEnvelope)
pending = enqueue_pending_group_event edit []

dedupe_test :
    (take_pending_group_events
      (codes "g")
      (codes "alice")
      (enqueue_pending_group_event (record edit { msg_id = some (codes "e2") }) pending)).0
    ≡ edit ∷ []
unfolding take_pending_group_events enqueue_pending_group_event dedupe_key is_pending
    get_pending_group_event_key lookup insert remove same
dedupe_test = refl

is_new_test : lookup (codes "g:alice") pending or_else [] ≡ edit ∷ []
unfolding enqueue_pending_group_event dedupe_key is_pending get_pending_group_event_key lookup
    insert same
is_new_test = refl

-- A deletion of the same message, which is another event.
abbrev deletion : IncomingEnvelope
deletion = record edit { type = codes "group_delete"; msg_id = some (codes "e3") }

enqueue-IsQueued_example :
    (Any (IsSameEvent deletion) (edit ∷ [])
      × (enqueue_pending_group_event deletion pending ≡ pending))
    ⊎ ((¬ Any (IsSameEvent deletion) (edit ∷ []))
        × IsQueued
            (codes "g" ++ b':' ∷ codes "alice")
            deletion
            (edit ∷ [])
            pending
            (enqueue_pending_group_event deletion pending))
enqueue-IsQueued_example =
    enqueue-IsQueued deletion (codes "g") (codes "alice") pending (edit ∷ []) refl refl refl refl
      is_new_test (refl, refl) ((refl, refl), tt)
