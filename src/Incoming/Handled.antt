-- ===== src/Incoming/Handled.antt =====
-- What the message store keeps, the handlers of direct envelopes keep.
use messk.Prelude.{
  ◌≡◌, refl, sym, subst, ◌||◌, not, Option, none, some, [], Text, same, truthy, trim, ◌or_else◌,
  if◌then◌else◌, if-property, arith,
}
use messk.Prelude.Dict.{lookup}
use messk.Ratchet.Platform.{Platform}
use messk.Ratchet.Step.{Outcome, done, null, throws}
use messk.Sessions.{SessionStore}
use messk.Store.{Database, Status}
use messk.Incoming.{
  DirectEnvelope, Contact, Client, Moment, target_of, acknowledge_offline_envelope, drop_session,
  forget_session,
}
use messk.Incoming.Direct.{
  handle_edit, handle_delete, handle_reaction, handle_direct_pin_envelope, handle_session_repair,
  handle_receipt, finish_edit, finish_repair, pin_contact,
}
use messk.Incoming.Invariant.{
  IsKept, edited-Kept, deleted-Kept, reacted-Kept, status-Kept, acknowledge-db, reset_notice-db,
  drop_session-db,
}

module _ (p : Platform) (preview : Text → Text) (P : Database → Type 0) (kept : IsKept preview P)
    (moment : Moment) (env : DirectEnvelope) where
  -- Of the database of a client.
  abbrev Holds : Client → Type 0
  Holds client = P client.db

  pub acknowledged :
      (client : Client) → Holds client → Holds (acknowledge_offline_envelope moment env client)
  acknowledged client h = subst P (sym (acknowledge-db moment env client)) h

  pub dropped :
      (peer : Text) (client : Client) → Holds client → Holds (drop_session moment peer client)
  dropped peer client h = subst P (sym (drop_session-db moment peer client)) h

  finish_edit-Kept :
      (sender target : Text) (r : Outcome Text × SessionStore) (client : Client)
      → Holds client
      → Holds (finish_edit p preview moment env sender target r client)
  finish_edit-Kept sender target (done t, store) client h =
      acknowledged _ (edited-Kept preview P kept moment.now target t (some sender) client.db h)
  finish_edit-Kept sender target (null, store) client h =
      acknowledged _ (dropped sender (record client { store = store }) h)
  finish_edit-Kept sender target (throws, store) client h = h

  pub edit-Kept : (client : Client) → Holds client → Holds (handle_edit p preview moment env client)
  unfolding handle_edit
  edit-Kept client h =
      if-property Holds
        (not (truthy env.sender_pub_key)
          || not (truthy env.payload)
          || not (truthy env.msg_id)
          || not (truthy (target_of env)))
        client _ (λ _. h)
        (λ _.
          finish_edit-Kept (env.sender_pub_key or_else []) (target_of env or_else []) _ client h)

  pub delete-Kept :
      (client : Client) → Holds client → Holds (handle_delete p preview moment env client)
  unfolding handle_delete
  delete-Kept client h =
      if-property Holds (not (truthy env.msg_id) || not (truthy (target_of env))) client _ (λ _. h)
        (λ _. acknowledged _ (
          deleted-Kept preview P kept moment.now (target_of env or_else []) env.sender_pub_key
            client.db h))

  pub reaction-Kept :
      (client : Client) → Holds client → Holds (handle_reaction p preview moment env client)
  unfolding handle_reaction
  reaction-Kept client h =
      if-property Holds
        (not (truthy env.msg_id) || not (truthy (target_of env)) || not (truthy env.sender_pub_key))
        client _ (λ _. h)
        (λ _. acknowledged _ (
          reacted-Kept preview P kept (target_of env or_else []) (env.sender_pub_key or_else [])
            env.reaction client.db h))

  pin_contact-db :
      (peer : Text) (o : Option Contact) (client : Client)
      → (pin_contact p preview moment env peer o client).db ≡ client.db
  pin_contact-db peer none client = refl
  pin_contact-db peer (some c) client = refl

  pub pin-db :
      (client : Client) → (handle_direct_pin_envelope p preview moment env client).db ≡ client.db
  unfolding handle_direct_pin_envelope
  pin-db client = ground (
    arith,
    pin_contact-db
        (if same (trim (env.sender_pub_key or_else [])) client.public_key
          then trim (env.recipient_pub_key or_else [])
          else trim (env.sender_pub_key or_else []))
        (lookup
          (if same (trim (env.sender_pub_key or_else [])) client.public_key
            then trim (env.recipient_pub_key or_else [])
            else trim (env.sender_pub_key or_else []))
          client.contacts)
        client,
  )

  finish_repair-Kept :
      (sender : Text) (r : Outcome Text × SessionStore) (client : Client)
      → Holds client
      → Holds (finish_repair p preview moment env sender r client)
  finish_repair-Kept sender (done t, store) client h =
      acknowledged (record client { store = store }) h
  finish_repair-Kept sender (null, store) client h = acknowledged _ (
      subst P
        (sym
          (reset_notice-db moment sender (forget_session sender (record client { store = store }))))
        h)
  finish_repair-Kept sender (throws, store) client h = h

  pub repair-Kept :
      (client : Client) → Holds client → Holds (handle_session_repair p preview moment env client)
  unfolding handle_session_repair
  repair-Kept client h =
      if-property Holds
        (not (truthy env.sender_pub_key)
          || not (same (env.recipient_pub_key or_else []) client.public_key)
          || not (truthy env.payload))
        client _ (λ _. h)
        (λ _.
          finish_repair-Kept (env.sender_pub_key or_else []) _
            (forget_session (env.sender_pub_key or_else []) client) h)

  pub receipt-Kept :
      (status : Status) (client : Client)
      → Holds client
      → Holds (handle_receipt p preview moment env status client)
  unfolding handle_receipt
  receipt-Kept status client h =
      if-property Holds (not (truthy env.msg_id)) client _ (λ _. h)
        (λ _. status-Kept preview P kept (env.msg_id or_else []) status client.db h)
