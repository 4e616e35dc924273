-- ===== src/Store/Steps.antt =====
-- The operations of the message store as steps between databases.
use messk.Prelude.{ℕ, ◌≡◌, refl, Option, none, some, Text, ltb, if-property}
use messk.Store.{
  StoredMessage, Database, add_message_and_sync, update_message_and_sync, update_message_by_msg_id,
  mark_message_edited, mark_message_deleted, apply_message_reaction, find_by_msg_id,
  update_existing, react_to, set_reaction,
}
use messk.Store.Synced.{IsSynced, add-IsSynced, update-IsSynced}

module _ (preview : Text → Text) where
  -- Calls of the store, one after the other. A change of a message leaves it in its thread, as all
  -- changes in the source do.
  pub data Steps : Database → Database → Type 0 where
    rest : {db : Database} → Steps db db
    add :
        {db db' : Database} (m : StoredMessage)
        → Steps (add_message_and_sync preview m db) db'
        → Steps db db'
    update :
        {db db' : Database} (id : ℕ) (changes : StoredMessage → StoredMessage)
        → ((m : StoredMessage) → (changes m).peer_public_key ≡ m.peer_public_key)
        → Steps (update_message_and_sync preview id changes db) db'
        → Steps db db'
    update_by_msg_id :
        {db db' : Database} (msg_id : Text) (changes : StoredMessage → StoredMessage)
        → ((m : StoredMessage) → (changes m).peer_public_key ≡ m.peer_public_key)
        → Steps (update_message_by_msg_id preview msg_id changes db) db'
        → Steps db db'
    edit :
        {db db' : Database} (now : ℕ) (msg_id text : Text) (by : Option Text)
        → Steps (mark_message_edited preview now msg_id text by db) db'
        → Steps db db'
    delete :
        {db db' : Database} (now : ℕ) (msg_id : Text) (by : Option Text)
        → Steps (mark_message_deleted preview now msg_id by db) db'
        → Steps db db'
    react :
        {db db' : Database} (msg_id actor : Text) (reaction : Option Text)
        → Steps (apply_message_reaction preview msg_id actor reaction db) db'
        → Steps db db'

  update_existing-IsSynced :
      (o : Option StoredMessage) (changes : StoredMessage → StoredMessage) (db : Database)
      → ((m : StoredMessage) → (changes m).peer_public_key ≡ m.peer_public_key)
      → IsSynced preview db
      → IsSynced preview (update_existing preview o changes db)
  update_existing-IsSynced none changes db keeps h = h
  update_existing-IsSynced (some m) changes db keeps h =
      if-property (IsSynced preview) (ltb 0 m.id) (update_message_and_sync preview m.id changes db)
        db (λ _. update-IsSynced preview m.id changes db keeps h) (λ _. h)

  pub update_by_msg_id-IsSynced :
      (msg_id : Text) (changes : StoredMessage → StoredMessage) (db : Database)
      → ((m : StoredMessage) → (changes m).peer_public_key ≡ m.peer_public_key)
      → IsSynced preview db
      → IsSynced preview (update_message_by_msg_id preview msg_id changes db)
  unfolding update_message_by_msg_id
  update_by_msg_id-IsSynced msg_id changes db =
      update_existing-IsSynced (find_by_msg_id msg_id db.messages) changes db

  react_to-IsSynced :
      (o : Option StoredMessage) (actor : Text) (reaction : Option Text) (db : Database)
      → IsSynced preview db
      → IsSynced preview (react_to preview o actor reaction db)
  react_to-IsSynced none actor reaction db h = h
  react_to-IsSynced (some m) actor reaction db h =
      update_existing-IsSynced (some m)
        (λ n. record n { reactions = set_reaction preview actor reaction m.reactions }) db
        (λ n. refl) h

  -- From statistics that fit the messages, no sequence of additions, changes that leave a message in its
  -- thread, edits, deletions and reactions leads to statistics that do not: each thread's unread count,
  -- preview and time are those of its messages.
  pub Steps-IsSynced :
      {db db' : Database} → Steps db db' → IsSynced preview db → IsSynced preview db'
  unfolding mark_message_edited mark_message_deleted apply_message_reaction
  Steps-IsSynced rest h = h
  Steps-IsSynced (add {db} m s) h = Steps-IsSynced s (add-IsSynced preview m db h)
  Steps-IsSynced (update {db} id changes keeps s) h =
      Steps-IsSynced s (update-IsSynced preview id changes db keeps h)
  Steps-IsSynced (update_by_msg_id {db} msg_id changes keeps s) h =
      Steps-IsSynced s (update_by_msg_id-IsSynced msg_id changes db keeps h)
  Steps-IsSynced (edit {db} now msg_id text by s) h =
      Steps-IsSynced s (update_by_msg_id-IsSynced msg_id _ db (λ m. refl) h)
  Steps-IsSynced (delete {db} now msg_id by s) h =
      Steps-IsSynced s (update_by_msg_id-IsSynced msg_id _ db (λ m. refl) h)
  Steps-IsSynced (react {db} msg_id actor reaction s) h =
      Steps-IsSynced s (react_to-IsSynced (find_by_msg_id msg_id db.messages) actor reaction db h)
