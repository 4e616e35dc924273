-- ===== src/Store/Synced.antt =====
-- The thread statistics against the messages.
use messk.Prelude.{
  if-property, is_some, ℕ, ◌≡◌, refl, ap, ◌∙◌, sym, Bool, true, false, Option, none, some, List, [],
  ◌∷◌, ◌++◌, Text, same, same_iff, nonempty, filter, if◌then◌else◌, arith, Option-cases, inl, inr,
}
use messk.Prelude.Dict.{Dict, lookup, lookup-insert, lookup-remove}
use messk.Store.{
  StoredMessage, ThreadStat, Database, stats_of, put_or_delete, in_thread, sync_thread_stats,
  update_row, find_by_id, update_message_and_sync, add_message_and_sync, find_by_msg_id,
}

module _ (preview : Text → Text) where
  -- Each thread's row is what its messages give.
  abbrev pub IsSynced : Database → Type 0
  IsSynced db =
      (t : Text)
      → nonempty t ≡ true
      → lookup t db.thread_stats ≡ stats_of preview db.identity (filter (in_thread t) db.messages)

  pub lookup-put_or_delete :
      (t k : Text) (o : Option ThreadStat) (stats : Dict ThreadStat)
      → lookup t (put_or_delete k o stats) ≡ (if same k t then o else lookup t stats)
  lookup-put_or_delete t k none stats = lookup-remove t k stats
  lookup-put_or_delete t k (some s) stats = lookup-insert t k s stats

  -- Only one thread's messages have changed.
  abbrev OthersSynced : Text → Database → Type 0
  OthersSynced k db =
      (t : Text)
      → nonempty t ≡ true
      → same k t ≡ false
      → lookup t db.thread_stats ≡ stats_of preview db.identity (filter (in_thread t) db.messages)

  sync-IsSynced :
      (k : Text) (db : Database) → OthersSynced k db → IsSynced (sync_thread_stats preview k db)
  unfolding sync_thread_stats
  sync-IsSynced k db h t written = ground (
    arith,
    same_iff k t,
    lookup-put_or_delete t k (stats_of preview db.identity (filter (in_thread k) db.messages))
        db.thread_stats,
    h t,
  )

update_row-missing :
    (id : ℕ) (changes : StoredMessage → StoredMessage) (ms : List StoredMessage)
    → find_by_id id ms ≡ none
    → update_row id changes ms ≡ ms
unfolding find_by_id update_row
update_row-missing id changes [] h = refl
update_row-missing id changes (m ∷ ms) h = ground (arith, update_row-missing id changes ms)

filter-update_row :
    (id : ℕ) (changes : StoredMessage → StoredMessage) (ms : List StoredMessage)
    (found : StoredMessage) (t : Text)
    → ((m : StoredMessage) → (changes m).peer_public_key ≡ m.peer_public_key)
    → find_by_id id ms ≡ some found
    → same found.peer_public_key t ≡ false
    → filter (in_thread t) (update_row id changes ms) ≡ filter (in_thread t) ms
unfolding find_by_id update_row
filter-update_row id changes [] found t keeps h other = refl
filter-update_row id changes (m ∷ ms) found t keeps h other =
    ground (arith, keeps m, filter-update_row id changes ms found t keeps)

filter-append :
    (p : StoredMessage → Bool) (ms : List StoredMessage) (m : StoredMessage)
    → p m ≡ false
    → filter p (ms ++ m ∷ []) ≡ filter p ms
filter-append p [] m h = rw h refl
filter-append p (n ∷ ms) m h = ground (arith, filter-append p ms m)

module _ (preview : Text → Text) where
  -- Adding a message keeps every thread's statistics right.
  pub add-IsSynced :
      (message : StoredMessage) (db : Database)
      → IsSynced preview db
      → IsSynced preview (add_message_and_sync preview message db)
  unfolding add_message_and_sync
  add-IsSynced message db h =
      if-property (IsSynced preview) (is_some (find_by_msg_id message.msg_id db.messages)) db _
        (λ _. h)
        (λ _.
          sync-IsSynced preview message.peer_public_key
            (record db { messages = db.messages ++ message ∷ [] })
            (λ t written other.
              h t written
              ∙ ap (stats_of preview db.identity)
                  (sym (filter-append (in_thread t) db.messages message other))))

  -- So does a change of a message that leaves it in its thread.
  pub update-IsSynced :
      (id : ℕ) (changes : StoredMessage → StoredMessage) (db : Database)
      → ((m : StoredMessage) → (changes m).peer_public_key ≡ m.peer_public_key)
      → IsSynced preview db
      → IsSynced preview (update_message_and_sync preview id changes db)
  unfolding update_message_and_sync
  update-IsSynced id changes db keeps h = elim (Option-cases (find_by_id id db.messages)) [
    | inl missing ↦ rw (missing, update_row-missing id changes db.messages missing) h
    | inr (found, q) ↦ rw q (
        sync-IsSynced preview found.peer_public_key
          (record db { messages = update_row id changes db.messages })
          (λ t written other.
            h t written
            ∙ ap (stats_of preview db.identity)
                (sym (filter-update_row id changes db.messages found t keeps q other))))
  ]
