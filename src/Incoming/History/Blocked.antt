-- ===== src/Incoming/History/Blocked.antt =====
-- An edit that was read live, of a message that was deleted since.
use messk.Prelude.{
  ℕ, ◌<◌, ◌≡◌, sym, ap, ◌∙◌, Bool, true, false, Option, none, some, List, [], ◌∷◌, Text, codes,
  same, same_refl, nonempty, truthy, trim, ltb, ◌or_else◌, arith,
}
use messk.Ratchet.Platform.{Platform}
use messk.Ratchet.Step.{Outcome, done, null}
use messk.Sessions.{SessionStore}
use messk.Store.{StoredMessage, find_by_msg_id}
use messk.Incoming.{DirectEnvelope, Client, Moment, target_of}
use messk.Incoming.Direct.{decrypt_for}
use messk.Incoming.History.{
  DirectHistoryRecord, DirectHistoryResponse, normalize_history_envelope, finish_history_edit,
  apply_direct_history_edit, apply_by_type, apply_envelope,
}
use messk.Incoming.History.Sync.{
  Synchronizer, apply_direct_history_record, apply_normalized, apply_then, apply_records,
  sync_pages,
}
use messk.Incoming.History.Cursor.{sync_pages-refused}

-- An edit by somebody else for this client, of a stored message that counts as not edited.
pub record IsEditOf (env : DirectEnvelope) (sender : Text) (entry : DirectHistoryRecord)
    (client : Client) : Type 0 where
  pub target : Text
  pub message : StoredMessage
  pub normalized : normalize_history_envelope entry ≡ some env
  pub is_edit : env.type ≡ codes "edit"
  pub from : trim (env.sender_pub_key or_else []) ≡ sender
  pub sender_shown : nonempty sender ≡ true
  pub to : trim (env.recipient_pub_key or_else []) ≡ client.public_key
  pub mine_shown : nonempty client.public_key ≡ true
  pub others : same sender client.public_key ≡ false
  pub named : truthy env.msg_id ≡ true
  pub has_payload : truthy env.payload ≡ true
  pub targets : target_of env or_else [] ≡ target
  pub target_shown : nonempty target ≡ true
  pub stored : find_by_msg_id target client.db.messages ≡ some message
  pub keyed : 0 < message.id
  pub not_edited : message.edited_at ≡ none

truthy-nonempty : (o : Option Text) → truthy o ≡ true → nonempty (o or_else []) ≡ true
truthy-nonempty none h = absurd (cc)
truthy-nonempty (some t) h = h

finish-refused :
    (p : Platform) (preview : Text → Text) (moment : Moment) (env : DirectEnvelope)
    (client : Client) (target : Text) (r : Outcome Text × SessionStore)
    → r.0 ≡ null
    → (finish_history_edit p preview moment env target r client).0 ≡ done false
finish-refused p preview moment env client target (o, store) e =
    ap (λ o. (finish_history_edit p preview moment env target (o, store) client).0) e

module _ (p : Platform) (preview : Text → Text) (moment : Moment) (env : DirectEnvelope)
    (sender : Text) (entry : DirectHistoryRecord) (client : Client) where
  edit_by-refused :
      (e : IsEditOf env sender entry client)
      → (decrypt_for p preview moment env sender (env.payload or_else []) none client).0 ≡ null
      → (apply_direct_history_edit p preview moment env sender false client).0 ≡ done false
  unfolding apply_direct_history_edit
  edit_by-refused e unread =
      let has_key : ltb 0 e.message.id ≡ true = ground (arith, e.keyed) in
      simp (e.targets, e.target_shown, e.has_payload, e.stored, has_key, e.not_edited)
        (finish-refused p preview moment env client e.target _ unread)

  envelope-refused :
      (e : IsEditOf env sender entry client)
      → (apply_direct_history_edit p preview moment env sender false client).0 ≡ done false
      → (apply_envelope p preview moment env entry client).0 ≡ done false
  unfolding apply_envelope apply_by_type
  envelope-refused e refused =
      let has_id : nonempty (env.msg_id or_else []) ≡ true = truthy-nonempty env.msg_id e.named in
      simp
        (
          e.from,
          e.sender_shown,
          e.to,
          e.mine_shown,
          e.named,
          has_id,
          same_refl client.public_key,
          e.others,
          e.is_edit,
          same_refl (codes "edit"),
        )
        refused

  applies-refused :
      (e : IsEditOf env sender entry client)
      → (decrypt_for p preview moment env sender (env.payload or_else []) none client).0 ≡ null
      → (apply_direct_history_record p preview moment entry client).0 ≡ done false
  unfolding apply_direct_history_record
  applies-refused e unread =
      ap (λ o. (apply_normalized p preview moment entry o client).0) e.normalized
      ∙ envelope-refused e (edit_by-refused e unread)

-- A page begins with an edit by somebody else of a stored message that counts as not edited, as it does
-- after a deletion, and the text of the edit cannot be decrypted, as when it has been read before. Then
-- no synchronisation moves the cursor over that page, however many pages it may read.
pub deleted_edit-blocks :
    (p : Platform) (preview : Text → Text) (peer : Text) (fetch : ℕ → Option DirectHistoryResponse)
    (pages cursor : ℕ) (s : Synchronizer) (response : DirectHistoryResponse) (moment : Moment)
    (env : DirectEnvelope) (sender : Text) (entry : DirectHistoryRecord)
    (rest : List (Moment × DirectHistoryRecord))
    → fetch cursor ≡ some response
    → response.messages ≡ (moment, entry) ∷ rest
    → (e : IsEditOf env sender entry s.client)
    → (decrypt_for p preview moment env sender (env.payload or_else []) none s.client).0 ≡ null
    → (sync_pages p preview pages peer fetch cursor s).cursors ≡ s.cursors
unfolding apply_records
deleted_edit-blocks p preview peer fetch pages cursor s response moment env sender entry rest
      fetched first e unread =
    sync_pages-refused p preview peer fetch pages cursor s response fetched (λ applied.
      done_false-true (
        sym (
          refused_first (apply_records p preview rest)
            (apply_direct_history_record p preview moment entry s.client)
            (applies-refused p preview moment env sender entry s.client e unread))
        ∙ ap (λ entries. (apply_records p preview entries s.client).0) (sym first)
        ∙ applied))
  where
    refused_first :
        (next : Client → Outcome Bool × Client) (r : Outcome Bool × Client)
        → r.0 ≡ done false
        → (apply_then p preview next r).0 ≡ done false
    refused_first next (o, client) q = ap (λ o. (apply_then p preview next (o, client)).0) q

    done_false-true : ¬ (done false ≡ done true)
    done_false-true q = absurd (cc)
