-- ===== src/Outbox/Queue.antt =====
-- Which messages are queued, across the outbox's operations.
use messk.Prelude.{ℕ, ◌+◌, ◌≡◌, refl, ◌∙◌, Option, none, some, List, Text, same_iff, is_some, arith}
use messk.Prelude.Dict.{Dict, lookup, lookup-insert}
use messk.Outbox.{
  Outbox, Channel, OutgoingDirectMessage, mark_row, mark_direct_attempt,
  flush_outgoing_direct_messages,
}
use messk.Outbox.Flushing.{flush-Flushed, Anything, no_condition}

-- The same messages are queued.
abbrev pub SameQueue : Outbox → Outbox → Type 0
SameQueue box after =
    (id : Text)
    → is_some (lookup id after.outgoing_direct_messages)
      ≡ is_some (lookup id box.outgoing_direct_messages)

mark-queue :
    (attempts now : ℕ) (id : Text) (table : Dict OutgoingDirectMessage)
    (o : Option OutgoingDirectMessage)
    → lookup id table ≡ o
    → (j : Text) → is_some (lookup j (mark_row attempts now o id table)) ≡ is_some (lookup j table)
mark-queue attempts now id table none e j = refl
mark-queue attempts now id table (some row) e j = ground (
  arith,
  same_iff id j,
  lookup-insert j id (record row { attempts = attempts; last_attempt_at = some now }) table,
)

pub mark-SameQueue :
    (now : ℕ) (m : OutgoingDirectMessage) (box : Outbox)
    → SameQueue box (record box {
      outgoing_direct_messages = mark_direct_attempt now m box.outgoing_direct_messages;
    })
unfolding mark_direct_attempt
mark-SameQueue now m box =
    mark-queue (m.attempts + 1) now m.id box.outgoing_direct_messages
      (lookup m.id box.outgoing_direct_messages) refl

-- Whatever fails on the way, a flush leaves exactly the same messages queued.
pub flush-SameQueue :
    (preview : Text → Text) (channel : Channel)
    (order : Dict OutgoingDirectMessage → List OutgoingDirectMessage) (box : Outbox)
    → SameQueue box (flush_outgoing_direct_messages preview order channel box)
flush-SameQueue preview channel order box =
    flush-Flushed preview channel Anything (SameQueue box)
      (record {
        flag = λ b after q. q;
        wired = λ m e after c due of q. q;
        revived = λ m local after c e q. q;
        unsent = λ m after c q. q;
        marked = λ m now after c q id. mark-SameQueue now m after id ∙ q id;
      })
      order box (no_condition (order box.outgoing_direct_messages)) (λ id. refl)
