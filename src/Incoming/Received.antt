-- ===== src/Incoming/Received.antt =====
-- Messages and copies of one's own devices, and the dispatch to all handlers.
use messk.Prelude.{
  ◌<◌, ◌≡◌, refl, sym, subst, ap, ◌∙◌, ◌&&◌, ◌||◌, not, Option, none, some, [], Text, codes, same,
  nonempty, truthy, trim, ltb, ◌or_else◌, if-property,
}
use messk.Ratchet.Platform.{Platform}
use messk.Ratchet.Step.{Outcome, done, null, throws}
use messk.Sessions.{SessionStore}
use messk.Payloads.{
  SelfSyncPayload, direct_message, direct_edit, direct_delete, direct_reaction,
  parse_self_sync_payload,
}
use messk.Store.{Database, StoredMessage, Status, delivered, read, find_by_msg_id}
use messk.Incoming.{DirectEnvelope, Client, Moment, upsert_direct_contact, has_arrived}
use messk.Incoming.Message.{
  handle_message, store_message, receive, finish_message, deliver_existing, mirror, message_id,
  is_sent, copy, deliver,
}
use messk.Incoming.SelfSync.{
  handle_self_sync, read_copy, apply_parsed, apply_payload, payload_id, with_id, raise_status,
  message_status_rank,
}
use messk.Incoming.Dispatch.{handle_direct, has_type}
use messk.Incoming.Invariant.{IsKept, receipt-db, copy-db}
use messk.Incoming.Handled.{
  acknowledged, dropped, edit-Kept, delete-Kept, reaction-Kept, pin-db, repair-Kept, receipt-Kept,
}

module _ (p : Platform) (preview : Text → Text) (P : Database → Type 0) (kept : IsKept preview P)
    (moment : Moment) (env : DirectEnvelope) where
  abbrev Holds : Client → Type 0
  Holds client = P client.db

  deliver-Kept :
      (m : StoredMessage) (client : Client)
      → Holds client
      → Holds (deliver p preview moment env m client)
  deliver-Kept m client h = kept.change m.id _ client.db (λ m. refl) (λ m. refl) (λ m. refl) h

  pub deliver_existing-Kept :
      (o : Option StoredMessage) (client : Client)
      → Holds client
      → Holds (deliver_existing p preview moment env o client)
  deliver_existing-Kept none client h = h
  deliver_existing-Kept (some m) client h =
      if-property Holds (ltb 0 m.id && not (has_arrived m.status))
        (deliver p preview moment env m client) client (λ _. deliver-Kept m client h) (λ _. h)

  mirror-Kept :
      (o : Option StoredMessage) (client : Client)
      → Holds client
      → Holds (mirror p preview moment env o client)
  mirror-Kept none client h = h
  mirror-Kept (some m) client h =
      if-property Holds (ltb 0 m.id && is_sent m.status) (deliver p preview moment env m client)
        client (λ _. deliver-Kept m client h) (λ _. h)

  store_message-Kept :
      (sender t : Text) (client : Client)
      → 0 < moment.next_id
      → with_id (find_by_msg_id (message_id p preview moment env) client.db.messages) ≡ none
      → Holds client
      → Holds (store_message p preview moment env sender t client)
  unfolding store_message upsert_direct_contact
  store_message-Kept sender t client fresh unknown h = kept.add _ client.db fresh unknown h

  finish_message-Kept :
      (sender : Text) (r : Outcome Text × SessionStore) (client : Client)
      → 0 < moment.next_id
      → with_id (find_by_msg_id (message_id p preview moment env) client.db.messages) ≡ none
      → Holds client
      → Holds (finish_message p preview moment env sender r client)
  finish_message-Kept sender (done t, store) client fresh unknown h =
      let stored = store_message p preview moment env sender t (record client { store = store }) in
      acknowledged p preview P kept moment env _ (
        subst P
          (sym (
            receipt-db p preview moment env sender (copy p preview moment env sender t stored)
            ∙ copy-db p preview moment env sender t stored))
          (store_message-Kept sender t (record client { store = store }) fresh unknown h))
  finish_message-Kept sender (null, store) client fresh unknown h =
      acknowledged p preview P kept moment env _
        (dropped p preview P kept moment env sender (record client { store = store }) h)
  finish_message-Kept sender (throws, store) client fresh unknown h = h

  receive-Kept :
      (sender : Text) (o : Option StoredMessage) (client : Client)
      → 0 < moment.next_id
      → find_by_msg_id (message_id p preview moment env) client.db.messages ≡ o
      → Holds client
      → Holds (receive p preview moment env sender o client)
  receive-Kept sender none client fresh q h =
      finish_message-Kept sender _ client fresh (ap with_id q) h
  receive-Kept sender (some m) client fresh q h = acknowledged p preview P kept moment env _ (
      subst P
        (sym (
          receipt-db p preview moment env sender
            (deliver_existing p preview moment env (some m) client)))
        (deliver_existing-Kept (some m) client h))

  message-Kept :
      (client : Client)
      → 0 < moment.next_id
      → Holds client
      → Holds (handle_message p preview moment env client)
  unfolding handle_message
  message-Kept client fresh h =
      let me = trim client.public_key in
      let sender = trim (env.sender_pub_key or_else []) in
      let recipient = trim (env.recipient_pub_key or_else []) in
      let existing = find_by_msg_id (message_id p preview moment env) client.db.messages in
      if-property Holds (not (nonempty sender) || not (nonempty recipient)) client _ (λ _. h)
        (λ _.
          if-property Holds (not (same recipient me) && not (same sender me)) client _ (λ _. h)
            (λ _.
              if-property Holds (same sender recipient) _ _
                (λ _.
                  acknowledged p preview P kept moment env _
                    (deliver_existing-Kept existing client h))
                (λ _.
                  if-property Holds (same sender me && not (same recipient me)) _ _
                    (λ _.
                      acknowledged p preview P kept moment env _ (mirror-Kept existing client h))
                    (λ _. receive-Kept sender existing client fresh refl h))))

  pub raise_status-Kept :
      (status : Status) (m : StoredMessage) (client : Client)
      → Holds client
      → Holds (raise_status preview status m client)
  unfolding raise_status
  raise_status-Kept status m client h =
      if-property Holds (ltb (message_status_rank m.status) (message_status_rank status)) _ client
        (λ _. kept.change m.id _ client.db (λ m. refl) (λ m. refl) (λ m. refl) h) (λ _. h)

  payload-Kept :
      (payload : SelfSyncPayload) (o : Option StoredMessage) (client : Client)
      → 0 < moment.next_id
      → with_id (find_by_msg_id (payload_id p preview moment env payload) client.db.messages) ≡ o
      → Holds client
      → Holds (apply_payload p preview moment env payload o client)
  unfolding upsert_direct_contact
  payload-Kept (direct_message i peer sender t x st) (some m) client fresh q h =
      acknowledged p preview P kept moment env _ (raise_status-Kept st m client h)
  payload-Kept (direct_message i peer sender t x st) none client fresh q h =
      acknowledged p preview P kept moment env _ (kept.add _ client.db fresh q h)
  payload-Kept (direct_edit i peer t x) (some m) client fresh q h =
      acknowledged p preview P kept moment env _
        (kept.change m.id _ client.db (λ m. refl) (λ m. refl) (λ m. refl) h)
  payload-Kept (direct_delete i peer x) (some m) client fresh q h =
      acknowledged p preview P kept moment env _
        (kept.change m.id _ client.db (λ m. refl) (λ m. refl) (λ m. refl) h)
  payload-Kept (direct_reaction i peer a r) (some m) client fresh q h =
      acknowledged p preview P kept moment env _
        (kept.change m.id _ client.db (λ m. refl) (λ m. refl) (λ m. refl) h)
  payload-Kept (direct_edit i peer t x) none client fresh q h = h
  payload-Kept (direct_delete i peer x) none client fresh q h = h
  payload-Kept (direct_reaction i peer a r) none client fresh q h = h

  parsed-Kept :
      (o : Option SelfSyncPayload) (client : Client)
      → 0 < moment.next_id
      → Holds client
      → Holds (apply_parsed p preview moment env o client)
  parsed-Kept none client fresh h = h
  parsed-Kept (some payload) client fresh h = payload-Kept payload _ client fresh refl h

  read_copy-Kept :
      (o : Option Text) (client : Client)
      → 0 < moment.next_id
      → Holds client
      → Holds (read_copy p preview moment env o client)
  read_copy-Kept none client fresh h = h
  read_copy-Kept (some t) client fresh h =
      if-property Holds (not (nonempty t)) client _ (λ _. h)
        (λ _. parsed-Kept (parse_self_sync_payload t) client fresh h)

  self_sync-Kept :
      (client : Client)
      → 0 < moment.next_id
      → Holds client
      → Holds (handle_self_sync p preview moment env client)
  unfolding handle_self_sync
  self_sync-Kept client fresh h =
      if-property Holds
        (not (truthy env.payload) || not (same (env.sender_pub_key or_else []) client.public_key))
        client _ (λ _. h) (λ _. read_copy-Kept _ client fresh h)

  -- Whatever the message store keeps, on adding a message whose id it does not have and on changing
  -- one, is kept by the handler of every direct envelope, of any content.
  pub handle_direct-Kept :
      (client : Client)
      → 0 < moment.next_id
      → Holds client
      → Holds (handle_direct p preview moment env client)
  unfolding handle_direct
  handle_direct-Kept client fresh h =
      if-property Holds (not (nonempty client.secret_key)) client _ (λ _. h)
        (λ _.
          if-property Holds (has_type env (codes "session_repair")) _ _
            (λ _. repair-Kept p preview P kept moment env client h)
            (λ _.
              if-property Holds (has_type env (codes "edit")) _ _
                (λ _. edit-Kept p preview P kept moment env client h)
                (λ _.
                  if-property Holds (has_type env (codes "delete")) _ _
                    (λ _. delete-Kept p preview P kept moment env client h)
                    (λ _.
                      if-property Holds (has_type env (codes "reaction")) _ _
                        (λ _. reaction-Kept p preview P kept moment env client h)
                        (λ _.
                          if-property Holds
                            (has_type env (codes "pin") || has_type env (codes "unpin")) _ _
                            (λ _.
                              acknowledged p preview P kept moment env _
                                (subst P (sym (pin-db p preview P kept moment env client)) h))
                            (λ _.
                              if-property Holds (has_type env (codes "self_sync")) _ _
                                (λ _. self_sync-Kept client fresh h)
                                (λ _.
                                  if-property Holds
                                    (has_type env (codes "message")
                                      || has_type env (codes "offline_message"))
                                    _ _ (λ _. message-Kept client fresh h)
                                    (λ _.
                                      if-property Holds
                                        (has_type env (codes "delivery_receipt")
                                          && same (env.recipient_pub_key or_else [])
                                              client.public_key)
                                        _ _
                                        (λ _.
                                          receipt-Kept p preview P kept moment env delivered client
                                            h)
                                        (λ _.
                                          if-property Holds
                                            (has_type env (codes "read_receipt")
                                              && same (env.recipient_pub_key or_else [])
                                                  client.public_key)
                                            _ client
                                            (λ _.
                                              receipt-Kept p preview P kept moment env read client
                                                h)
                                            (λ _. h))))))))))
