-- ===== src/Incoming/History/Records.antt =====
-- What the message store keeps, the records of a page keep (messk/src/lib/socket.ts).
use messk.Prelude.{
  ◌<◌, ◌≡◌, refl, sym, subst, Bool, true, false, ◌||◌, ◌&&◌, not, Option, none, some, List, [], ◌∷◌,
  Text, codes, same, nonempty, truthy, trim, All, ◌or_else◌, if-property,
}
use messk.Ratchet.Platform.{Platform}
use messk.Ratchet.Step.{Outcome, done, null, throws}
use messk.Sessions.{SessionStore}
use messk.Store.{Database, StoredMessage, find_by_msg_id}
use messk.Incoming.{DirectEnvelope, Client, Moment, target_of, either_text, upsert_direct_contact}
use messk.Incoming.SelfSync.{with_id}
use messk.Incoming.Invariant.{IsKept, edited-Kept, deleted-Kept, reacted-Kept}
use messk.Incoming.Handled.{pin-db}
use messk.Incoming.Received.{raise_status-Kept}
use messk.Incoming.History.{
  DirectHistoryRecord, normalize_history_envelope, history_status_for, has_edit,
  finish_history_edit, edit_existing, apply_direct_history_edit, apply_direct_history_delete,
  apply_direct_history_reaction, finish_history_message, apply_message, apply_by_type,
  apply_envelope,
}
use messk.Incoming.History.Sync.{
  apply_normalized, apply_direct_history_record, apply_then, apply_records,
}

-- The keys of new rows are positive.
abbrev pub HasKeys : List (Moment × DirectHistoryRecord) → Type 0
HasKeys entries = All (λ (a : Moment × DirectHistoryRecord). 0 < a.0.next_id) entries

module _ (p : Platform) (preview : Text → Text) (P : Database → Type 0)
    (kept : IsKept preview P) where
  -- Of the database of a client, after a step.
  abbrev pub Leaves : Outcome Bool × Client → Type 0
  Leaves r = P r.1.db

  module _ (moment : Moment) (env : DirectEnvelope) where
    finish_edit-Leaves :
        (target : Text) (r : Outcome Text × SessionStore) (client : Client)
        → P client.db
        → Leaves (finish_history_edit p preview moment env target r client)
    finish_edit-Leaves target (done t, store) client h =
        edited-Kept preview P kept moment.now target t env.sender_pub_key client.db h
    finish_edit-Leaves target (null, store) client h = h
    finish_edit-Leaves target (throws, store) client h = h

    edit_existing-Leaves :
        (peer target : Text) (o : Option StoredMessage) (client : Client)
        → P client.db
        → Leaves (edit_existing p preview moment env peer target o client)
    edit_existing-Leaves peer target none client h = h
    edit_existing-Leaves peer target (some m) client h =
        if-property Leaves (has_edit m) _ _ (λ _. h) (λ _. finish_edit-Leaves target _ client h)

    edit-Leaves :
        (peer : Text) (is_from_me : Bool) (client : Client)
        → P client.db
        → Leaves (apply_direct_history_edit p preview moment env peer is_from_me client)
    unfolding apply_direct_history_edit
    edit-Leaves peer is_from_me client h =
        if-property Leaves (not (nonempty (target_of env or_else [])) || not (truthy env.payload)) _
          _ (λ _. h)
          (λ _.
            if-property Leaves is_from_me _ _ (λ _. h)
              (λ _.
                edit_existing-Leaves peer (target_of env or_else [])
                  (with_id (find_by_msg_id (target_of env or_else []) client.db.messages)) client
                  h))

    delete-Leaves :
        (actor : Text) (client : Client)
        → P client.db
        → P (apply_direct_history_delete p preview moment env actor client).db
    unfolding apply_direct_history_delete
    delete-Leaves actor client h =
        if-property (λ (c : Client). P c.db) (not (nonempty (target_of env or_else []))) _ _
          (λ _. h)
          (λ _.
            deleted-Kept preview P kept moment.now (target_of env or_else []) (some actor) client.db
              h)

    reaction-Leaves :
        (actor : Text) (client : Client)
        → P client.db
        → P (apply_direct_history_reaction p preview moment env actor client).db
    unfolding apply_direct_history_reaction
    reaction-Leaves actor client h =
        if-property (λ (c : Client). P c.db) (not (nonempty (target_of env or_else []))) _ _
          (λ _. h)
          (λ _.
            reacted-Kept preview P kept (target_of env or_else []) actor env.reaction client.db h)

    finish_message-Leaves :
        (entry : DirectHistoryRecord) (peer sender msg_id : Text) (r : Outcome Text × SessionStore)
        (client : Client)
        → 0 < moment.next_id
        → with_id (find_by_msg_id msg_id client.db.messages) ≡ none
        → P client.db
        → Leaves (finish_history_message p preview moment env entry peer sender msg_id r client)
    unfolding upsert_direct_contact
    finish_message-Leaves entry peer sender msg_id (done t, store) client fresh unknown h =
        if-property (λ (c : Client). P c.db) moment.can_send_immediately _ _
          (λ _. kept.add _ client.db fresh unknown h) (λ _. kept.add _ client.db fresh unknown h)
    finish_message-Leaves entry peer sender msg_id (null, store) client fresh unknown h = h
    finish_message-Leaves entry peer sender msg_id (throws, store) client fresh unknown h = h

    message-Leaves :
        (entry : DirectHistoryRecord) (peer sender msg_id : Text) (is_from_me : Bool)
        (o : Option StoredMessage) (client : Client)
        → 0 < moment.next_id
        → with_id (find_by_msg_id msg_id client.db.messages) ≡ o
        → P client.db
        → Leaves (apply_message p preview moment env entry peer sender msg_id is_from_me o client)
    message-Leaves entry peer sender msg_id is_from_me (some m) client fresh q h =
        raise_status-Kept p preview P kept moment env (history_status_for entry is_from_me) m client
          h
    message-Leaves entry peer sender msg_id is_from_me none client fresh q h =
        if-property Leaves (is_from_me || not (truthy env.payload)) _ _ (λ _. h)
          (λ _. finish_message-Leaves entry peer sender msg_id _ client fresh q h)

    by_type-Leaves :
        (entry : DirectHistoryRecord) (peer sender msg_id : Text) (is_from_me : Bool)
        (client : Client)
        → 0 < moment.next_id
        → P client.db
        → Leaves (apply_by_type p preview moment env entry peer sender msg_id is_from_me client)
    unfolding apply_by_type
    by_type-Leaves entry peer sender msg_id is_from_me client fresh h =
        if-property Leaves (same env.type (codes "edit")) _ _
          (λ _. edit-Leaves peer is_from_me client h)
          (λ _.
            if-property Leaves (same env.type (codes "delete")) _ _
              (λ _. delete-Leaves sender client h)
              (λ _.
                if-property Leaves (same env.type (codes "reaction")) _ _
                  (λ _. reaction-Leaves sender client h)
                  (λ _.
                    if-property Leaves
                      (same env.type (codes "pin") || same env.type (codes "unpin")) _ _
                      (λ _. subst P (sym (pin-db p preview P kept moment env client)) h)
                      (λ _.
                        if-property Leaves
                          (not (same env.type (codes "message"))
                            && not (same env.type (codes "offline_message")))
                          _ _ (λ _. h)
                          (λ _.
                            message-Leaves entry peer sender msg_id is_from_me _ client fresh refl
                              h)))))

    envelope-Leaves :
        (entry : DirectHistoryRecord) (client : Client)
        → 0 < moment.next_id
        → P client.db
        → Leaves (apply_envelope p preview moment env entry client)
    unfolding apply_envelope
    envelope-Leaves entry client fresh h =
        let sender = trim (env.sender_pub_key or_else []) in
        let recipient = trim (env.recipient_pub_key or_else []) in
        let msg_id = either_text env.msg_id (some entry.msg_id) or_else [] in
        if-property Leaves
          (not (nonempty sender) || not (nonempty recipient) || not (nonempty msg_id)) _ _ (λ _. h)
          (λ _.
            if-property Leaves
              (not (same recipient client.public_key) && not (same sender client.public_key)) _ _
              (λ _. h)
              (λ _.
                if-property Leaves (same sender recipient) _ _ (λ _. h)
                  (λ _.
                    by_type-Leaves entry _ sender msg_id (same sender client.public_key) client
                      fresh h)))

  record-Leaves :
      (moment : Moment) (entry : DirectHistoryRecord) (client : Client)
      → 0 < moment.next_id
      → P client.db
      → Leaves (apply_direct_history_record p preview moment entry client)
  unfolding apply_direct_history_record
  record-Leaves moment entry client fresh h = normalized-Leaves (normalize_history_envelope entry)
    where
      normalized-Leaves :
          (o : Option DirectEnvelope) → Leaves (apply_normalized p preview moment entry o client)
      normalized-Leaves none = h
      normalized-Leaves (some env) = envelope-Leaves moment env entry client fresh h

  then-Leaves :
      (next : Client → Outcome Bool × Client) (r : Outcome Bool × Client)
      → ((c : Client) → P c.db → Leaves (next c))
      → Leaves r
      → Leaves (apply_then p preview next r)
  then-Leaves next (done true, client) rest h = rest client h
  then-Leaves next (done false, client) rest h = h
  then-Leaves next (null, client) rest h = h
  then-Leaves next (throws, client) rest h = h

  pub records-Leaves :
      (entries : List (Moment × DirectHistoryRecord)) (client : Client)
      → HasKeys entries
      → P client.db
      → Leaves (apply_records p preview entries client)
  unfolding apply_records
  records-Leaves [] client keys h = h
  records-Leaves ((moment, entry) ∷ rest) client (key, keys) h =
      then-Leaves (apply_records p preview rest)
        (apply_direct_history_record p preview moment entry client)
        (λ c k. records-Leaves rest c keys k) (record-Leaves moment entry client key h)
