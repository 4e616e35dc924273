-- ===== src/Store/Rebuild.antt =====
-- `rebuildAllThreadStats`, from an empty table of statistics.
use messk.Prelude.{
  ◌≡◌, refl, ◌∙◌, true, false, ◌&&◌, not, Option, none, List, [], ◌∷◌, Text, same_iff, nonempty,
  filter, map, includes, if◌then◌else◌, arith,
}
use messk.Prelude.Dict.{lookup}
use messk.Store.{
  StoredMessage, Database, stats_of, in_thread, sync_thread_stats, distinct, sync_each,
  sync_thread_stats_for_many, rebuild_all_thread_stats,
}
use messk.Store.Synced.{IsSynced, lookup-put_or_delete}

distinct-includes :
    (seen ts : List Text) (t : Text)
    → includes (distinct seen ts) t ≡ (includes ts t && not (includes seen t))
unfolding distinct includes
distinct-includes seen [] t = refl
distinct-includes seen (u ∷ us) t =
    ground (arith, same_iff u t, distinct-includes (u ∷ seen) us t, distinct-includes seen us t)

filter-includes :
    (ts : List Text) (t : Text)
    → nonempty t ≡ true
    → includes (filter nonempty ts) t ≡ includes ts t
unfolding includes
filter-includes [] t h = refl
filter-includes (u ∷ us) t h = ground (arith, same_iff u t, filter-includes us t h)

no_messages :
    (ms : List StoredMessage) (t : Text)
    → includes (map (λ m. m.peer_public_key) ms) t ≡ false
    → filter (in_thread t) ms ≡ []
unfolding includes
no_messages [] t h = refl
no_messages (m ∷ ms) t h = ground (arith, no_messages ms t)

module _ (preview : Text → Text) where
  sync_each-lookup :
      (ts : List Text) (db : Database) (t : Text)
      → nonempty t ≡ true
      → lookup t (sync_each preview ts db).thread_stats ≡ (
          if includes ts t
          then stats_of preview db.identity (filter (in_thread t) db.messages)
          else lookup t db.thread_stats)
  unfolding sync_thread_stats includes
  sync_each-lookup [] db t h = refl
  sync_each-lookup (u ∷ us) db t h = ground (
    arith,
    same_iff u t,
    sync_each-lookup us (sync_thread_stats preview u db) t h,
    lookup-put_or_delete preview t u
        (stats_of preview db.identity (filter (in_thread u) db.messages)) db.thread_stats,
  )

  sync_each-keeps :
      (ts : List Text) (db : Database)
      → ((sync_each preview ts db).identity ≡ db.identity)
        × ((sync_each preview ts db).messages ≡ db.messages)
  unfolding sync_thread_stats
  sync_each-keeps [] db = (refl, refl)
  sync_each-keeps (u ∷ us) db = ground (arith, sync_each-keeps us (sync_thread_stats preview u db))

  listed-or_empty :
      (ms : List StoredMessage) (t : Text)
      → nonempty t ≡ true
      → (me : Option Text)
      → (if includes
            (distinct [] (filter nonempty (distinct [] (map (λ m. m.peer_public_key) ms))))
            t
          then stats_of preview me (filter (in_thread t) ms)
          else none)
        ≡ stats_of preview me (filter (in_thread t) ms)
  unfolding stats_of includes
  listed-or_empty ms t h me =
      let peers = map (λ m. m.peer_public_key) ms in
      ground (
        arith,
        distinct-includes [] (filter nonempty (distinct [] peers)) t,
        filter-includes (distinct [] peers) t h,
        distinct-includes [] peers t,
        no_messages ms t,
      )

  -- After a rebuild, whatever the statistics were before, each thread's row is what its messages
  -- give, and a thread without messages has none.
  pub rebuild-IsSynced : (db : Database) → IsSynced preview (rebuild_all_thread_stats preview db)
  unfolding rebuild_all_thread_stats sync_thread_stats_for_many lookup stats_of
  rebuild-IsSynced db t h =
      let peers = map (λ m. m.peer_public_key) db.messages in
      let start = record db { thread_stats = [] } in
      let (me, kept) = sync_each-keeps (distinct [] (filter nonempty (distinct [] peers))) start in
      rw (me, kept)
        (sync_each-lookup (distinct [] (filter nonempty (distinct [] peers))) start t h
          ∙ listed-or_empty db.messages t h _)
