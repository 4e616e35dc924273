-- ===== src/Incoming/Invariant.antt =====
-- What the message store keeps, the handlers keep.
use messk.Prelude.{
  ℕ, ◌++◌, codes, ◌<◌, ◌≡◌, refl, ◌||◌, ◌&&◌, not, Option, none, some, [], Text, same, truthy, ltb,
  ◌or_else◌, if-property, arith,
}
use messk.Ratchet.Platform.{Platform}
use messk.Handshake.{encrypt_message}
use messk.Payloads.{SelfSyncPayload}
use messk.Payloads.Written.{stringify_self_sync}
use messk.Store.{
  Database, StoredMessage, Status, add_message_and_sync, update_message_and_sync, update_existing,
  update_message_by_msg_id, mark_message_edited, mark_message_deleted, apply_message_reaction,
  react_to, find_by_msg_id,
}
use messk.Incoming.{
  DirectEnvelope, Client, Moment, reply, offline_ack, delivery_receipt,
  acknowledge_offline_envelope, send_session_reset_notice, drop_session, forget_session,
  send_self_sync_direct_message, send_copy, payload_msg_id,
}
use messk.Incoming.Message.{receipt, copy, message_id}
use messk.Incoming.SelfSync.{with_id}

module _ (preview : Text → Text) where
  -- A property of the database that the two ways to write a message keep: a new row for an id that is
  -- not stored, and a change of a row that leaves its ids and its thread.
  pub record IsKept (P : Database → Type 0) : Type 0 where
    pub add :
        (m : StoredMessage) (db : Database)
        → 0 < m.id
        → with_id (find_by_msg_id m.msg_id db.messages) ≡ none
        → P db
        → P (add_message_and_sync preview m db)
    pub change :
        (id : ℕ) (changes : StoredMessage → StoredMessage) (db : Database)
        → ((m : StoredMessage) → (changes m).id ≡ m.id)
        → ((m : StoredMessage) → (changes m).msg_id ≡ m.msg_id)
        → ((m : StoredMessage) → (changes m).peer_public_key ≡ m.peer_public_key)
        → P db
        → P (update_message_and_sync preview id changes db)

module _ (preview : Text → Text) (P : Database → Type 0) (kept : IsKept preview P) where
  update_existing-Kept :
      (o : Option StoredMessage) (changes : StoredMessage → StoredMessage) (db : Database)
      → ((m : StoredMessage) → (changes m).id ≡ m.id)
      → ((m : StoredMessage) → (changes m).msg_id ≡ m.msg_id)
      → ((m : StoredMessage) → (changes m).peer_public_key ≡ m.peer_public_key)
      → P db
      → P (update_existing preview o changes db)
  update_existing-Kept none changes db i j k h = h
  update_existing-Kept (some m) changes db i j k h =
      if-property P (ltb 0 m.id) (update_message_and_sync preview m.id changes db) db
        (λ _. kept.change m.id changes db i j k h) (λ _. h)

  pub edited-Kept :
      (now : ℕ) (msg_id text : Text) (by : Option Text) (db : Database)
      → P db
      → P (mark_message_edited preview now msg_id text by db)
  unfolding mark_message_edited update_message_by_msg_id
  edited-Kept now msg_id text by db h =
      update_existing-Kept (find_by_msg_id msg_id db.messages) _ db (λ m. refl) (λ m. refl)
        (λ m. refl) h

  pub deleted-Kept :
      (now : ℕ) (msg_id : Text) (by : Option Text) (db : Database)
      → P db
      → P (mark_message_deleted preview now msg_id by db)
  unfolding mark_message_deleted update_message_by_msg_id
  deleted-Kept now msg_id by db h =
      update_existing-Kept (find_by_msg_id msg_id db.messages) _ db (λ m. refl) (λ m. refl)
        (λ m. refl) h

  react_to-Kept :
      (o : Option StoredMessage) (actor : Text) (reaction : Option Text) (db : Database)
      → P db
      → P (react_to preview o actor reaction db)
  react_to-Kept none actor reaction db h = h
  react_to-Kept (some m) actor reaction db h =
      update_existing-Kept (some m) _ db (λ m. refl) (λ m. refl) (λ m. refl) h

  pub reacted-Kept :
      (msg_id actor : Text) (reaction : Option Text) (db : Database)
      → P db
      → P (apply_message_reaction preview msg_id actor reaction db)
  unfolding apply_message_reaction
  reacted-Kept msg_id actor reaction db h =
      react_to-Kept (find_by_msg_id msg_id db.messages) actor reaction db h

  pub status-Kept :
      (msg_id : Text) (status : Status) (db : Database)
      → P db
      → P (update_message_by_msg_id preview msg_id (λ m. record m { status = status }) db)
  unfolding update_message_by_msg_id
  status-Kept msg_id status db h =
      update_existing-Kept (find_by_msg_id msg_id db.messages) _ db (λ m. refl) (λ m. refl)
        (λ m. refl) h

-- The steps that leave the table of messages alone.
pub acknowledge-db :
    (moment : Moment) (env : DirectEnvelope) (client : Client)
    → (acknowledge_offline_envelope moment env client).db ≡ client.db
unfolding acknowledge_offline_envelope
acknowledge-db moment env client =
    if-property (λ (c : Client). c.db ≡ client.db)
      (not (truthy env.msg_id) || not moment.can_send_immediately) client
      (reply (offline_ack (env.msg_id or_else [])) client) (λ _. refl) (λ _. refl)

pub reset_notice-db :
    (moment : Moment) (peer : Text) (client : Client)
    → (send_session_reset_notice moment peer client).db ≡ client.db
unfolding send_session_reset_notice
reset_notice-db moment peer client = ground arith

pub drop_session-db :
    (moment : Moment) (peer : Text) (client : Client)
    → (drop_session moment peer client).db ≡ client.db
drop_session-db moment peer client =
    ground (arith, reset_notice-db moment peer (forget_session peer client))

send_copy-db :
    (msg_id : Text) (o : Option Text) (client : Client) → (send_copy msg_id o client).db ≡ client.db
send_copy-db msg_id none client = refl
send_copy-db msg_id (some t) client = refl

pub self_sync-db :
    (p : Platform) (moment : Moment) (payload : SelfSyncPayload) (client : Client)
    → (send_self_sync_direct_message p moment payload client).db ≡ client.db
unfolding send_self_sync_direct_message
self_sync-db p moment payload client = ground (
  arith,
  send_copy-db (payload_msg_id payload ++ codes ":self")
      (encrypt_message p moment.nonce (stringify_self_sync payload) client.secret_key
        client.public_key)
      client,
)

module _ (p : Platform) (preview : Text → Text) (moment : Moment) (env : DirectEnvelope) where
  pub receipt-db :
      (sender : Text) (client : Client)
      → (receipt p preview moment env sender client).db ≡ client.db
  receipt-db sender client =
      if-property (λ (c : Client). c.db ≡ client.db)
        (moment.authenticated && not (same sender client.public_key))
        (reply (delivery_receipt sender (message_id p preview moment env)) client) client
        (λ _. refl) (λ _. refl)

  pub copy-db :
      (sender t : Text) (client : Client)
      → (copy p preview moment env sender t client).db ≡ client.db
  copy-db sender t client =
      if-property (λ (c : Client). c.db ≡ client.db) (same sender client.public_key) client _
        (λ _. refl) (λ _. self_sync-db p moment _ client)
