-- ===== src/Incoming/History/Cursor.antt =====
-- How far a synchronisation gets.
use messk.Prelude.{
  ℕ, zero, suc, ◌<◌, ◌≤◌, ◌≡◌, ◌≢◌, refl, sym, ap, ◌∙◌, Bool, true, false, Option, none, some, Text,
  List, [], ◌∷◌, ◌++◌, ltb, leb, length, ◌or_else◌, if◌then◌else◌, if-property, arith,
}
use messk.Prelude.Dict.{lookup, insert, lookup-insert_self}
use messk.Ratchet.Platform.{Platform}
use messk.Ratchet.Step.{Outcome, done, null, throws}
use messk.Incoming.{Client, Moment}
use messk.Incoming.History.{DirectHistoryRecord, DirectHistoryResponse}
use messk.Incoming.History.Sync.{
  Synchronizer, apply_records, apply_then, apply_direct_history_record, turn_page, read_page,
  sync_pages,
}

abbrev pub cursor_of : Text → Synchronizer → ℕ
cursor_of peer s = lookup peer s.cursors or_else 0

module _ (p : Platform) (preview : Text → Text) (peer : Text)
    (fetch : ℕ → Option DirectHistoryResponse) where
  pub sync_pages-refused :
      (pages cursor : ℕ) (s : Synchronizer) (response : DirectHistoryResponse)
      → fetch cursor ≡ some response
      → (apply_records p preview response.messages s.client).0 ≢ done true
      → (sync_pages p preview pages peer fetch cursor s).cursors ≡ s.cursors
  unfolding sync_pages
  sync_pages-refused zero cursor s response e refused = refl
  sync_pages-refused (suc pages) cursor s response e refused =
      ap
        (λ o. (read_page p preview (sync_pages p preview pages peer fetch) peer cursor o s).cursors)
        e
      ∙ stays (sync_pages p preview pages peer fetch) cursor s response
          (apply_records p preview response.messages s.client) refused
    where
      stays :
          (next : ℕ → Synchronizer → Synchronizer) (cursor : ℕ) (s : Synchronizer)
          (response : DirectHistoryResponse) (r : Outcome Bool × Client)
          → r.0 ≢ done true
          → (turn_page p preview next peer cursor response r s).cursors ≡ s.cursors
      stays next cursor s response (done true, client) refused = absurd (refused refl)
      stays next cursor s response (done false, client) refused = refl
      stays next cursor s response (null, client) refused = refl
      stays next cursor s response (throws, client) refused = refl

  then_assoc :
      (f g : Client → Outcome Bool × Client) (r : Outcome Bool × Client)
      → apply_then p preview (λ c. apply_then p preview g (f c)) r
        ≡ apply_then p preview g (apply_then p preview f r)
  then_assoc f g (done true, client) = refl
  then_assoc f g (done false, client) = refl
  then_assoc f g (null, client) = refl
  then_assoc f g (throws, client) = refl

  apply_records-append :
      (before rest : List (Moment × DirectHistoryRecord)) (client : Client)
      → apply_records p preview (before ++ rest) client
        ≡ apply_then p preview
            (apply_records p preview rest)
            (apply_records p preview before client)
  unfolding apply_records
  apply_records-append [] rest client = refl
  apply_records-append ((moment, entry) ∷ before) rest client =
      let r = apply_direct_history_record p preview moment entry client in
      ap (λ f. apply_then p preview f r) (λ i c. apply_records-append before rest c i)
      ∙ then_assoc (apply_records p preview before) (apply_records p preview rest) r

  then_refused :
      (next : Client → Outcome Bool × Client) (r : Outcome Bool × Client)
      → r.0 ≢ done true
      → apply_then p preview next r ≡ r
  then_refused next (done true, client) refused = absurd (refused refl)
  then_refused next (done false, client) refused = refl
  then_refused next (null, client) refused = refl
  then_refused next (throws, client) refused = refl

  apply_records-refused :
      (before rest : List (Moment × DirectHistoryRecord)) (moment : Moment)
      (entry : DirectHistoryRecord) (client middle : Client)
      → apply_records p preview before client ≡ (done true, middle)
      → (apply_direct_history_record p preview moment entry middle).0 ≢ done true
      → apply_records p preview (before ++ (moment, entry) ∷ rest) client
        ≡ apply_direct_history_record p preview moment entry middle
  unfolding apply_records
  apply_records-refused before rest moment entry client middle applied refused =
      apply_records-append before ((moment, entry) ∷ rest) client
      ∙ ap (apply_then p preview (apply_records p preview ((moment, entry) ∷ rest))) applied
      ∙ then_refused (apply_records p preview rest)
          (apply_direct_history_record p preview moment entry middle) refused

  -- If the first page's records before one are all applied, and that one is not, whether it is refused or
  -- throws, then the synchronisation is over, however many pages it may still read: the cursor stays where it was,
  -- and the client is as that record has left it, so that no record behind it has been looked at.
  pub sync_pages-stops :
      (pages cursor : ℕ) (s : Synchronizer) (response : DirectHistoryResponse)
      (before rest : List (Moment × DirectHistoryRecord)) (moment : Moment)
      (entry : DirectHistoryRecord) (middle : Client)
      → fetch cursor ≡ some response
      → response.messages ≡ before ++ (moment, entry) ∷ rest
      → apply_records p preview before s.client ≡ (done true, middle)
      → (apply_direct_history_record p preview moment entry middle).0 ≢ done true
      → sync_pages p preview (suc pages) peer fetch cursor s
        ≡ record s { client = (apply_direct_history_record p preview moment entry middle).1 }
  unfolding sync_pages
  sync_pages-stops pages cursor s response before rest moment entry middle e parts applied refused =
      let next = sync_pages p preview pages peer fetch in
      ap (λ o. read_page p preview next peer cursor o s) e
      ∙ ap
          (λ records.
            turn_page p preview next peer cursor response (apply_records p preview records s.client)
              s)
          parts
      ∙ ap (λ r. turn_page p preview next peer cursor response r s)
          (apply_records-refused before rest moment entry s.client middle applied refused)
      ∙ stays next cursor s response (apply_direct_history_record p preview moment entry middle)
          refused
    where
      stays :
          (next : ℕ → Synchronizer → Synchronizer) (cursor : ℕ) (s : Synchronizer)
          (response : DirectHistoryResponse) (r : Outcome Bool × Client)
          → r.0 ≢ done true
          → turn_page p preview next peer cursor response r s ≡ record s { client = r.1 }
      stays next cursor s response (done true, client) refused = absurd (refused refl)
      stays next cursor s response (done false, client) refused = refl
      stays next cursor s response (null, client) refused = refl
      stays next cursor s response (throws, client) refused = refl

  moved-rises :
      (next : ℕ → Synchronizer → Synchronizer) (s : Synchronizer) (response : DirectHistoryResponse)
      (client : Client)
      → ((c : ℕ) (s : Synchronizer) → c ≡ cursor_of peer s → c ≤ cursor_of peer (next c s))
      → (b : Bool)
      → response.next_cursor
        ≤ cursor_of peer (
            let moved = record s {
              client = client;
              cursors = insert peer response.next_cursor s.cursors;
            } in
            if b then moved else next response.next_cursor moved)
  moved-rises next s response client rises b =
      let here : response.next_cursor
          ≡ cursor_of peer
              (record s { client = client; cursors = insert peer response.next_cursor s.cursors }) =
        sym (
          ap (λ (o : Option ℕ). o or_else 0)
            (lookup-insert_self peer response.next_cursor s.cursors)) in
      if-property (λ (t : Synchronizer). response.next_cursor ≤ cursor_of peer t) b _ _
        (λ _. omega (arith, here)) (λ _. rises response.next_cursor _ here)

  turn_page-rises :
      (next : ℕ → Synchronizer → Synchronizer) (cursor : ℕ) (s : Synchronizer)
      (response : DirectHistoryResponse) (r : Outcome Bool × Client)
      → ((c : ℕ) (s : Synchronizer) → c ≡ cursor_of peer s → c ≤ cursor_of peer (next c s))
      → cursor ≡ cursor_of peer s
      → cursor ≤ cursor_of peer (turn_page p preview next peer cursor response r s)
  turn_page-rises next cursor s response (done true, client) rises here =
      if-property (λ (t : Synchronizer). cursor ≤ cursor_of peer t)
        (leb response.next_cursor cursor) _ _ (λ _. omega arith)
        (λ later.
          let far =
            moved-rises next s response client rises
              (ltb (length response.messages) response.limit) in
          let more : cursor < response.next_cursor = ground arith in omega arith)
  turn_page-rises next cursor s response (done false, client) rises here = omega arith
  turn_page-rises next cursor s response (null, client) rises here = omega arith
  turn_page-rises next cursor s response (throws, client) rises here = omega arith

  read_page-rises :
      (next : ℕ → Synchronizer → Synchronizer) (cursor : ℕ) (s : Synchronizer)
      (o : Option DirectHistoryResponse)
      → ((c : ℕ) (s : Synchronizer) → c ≡ cursor_of peer s → c ≤ cursor_of peer (next c s))
      → cursor ≡ cursor_of peer s
      → cursor ≤ cursor_of peer (read_page p preview next peer cursor o s)
  read_page-rises next cursor s none rises here = omega (arith, here)
  read_page-rises next cursor s (some response) rises here =
      turn_page-rises next cursor s response (apply_records p preview response.messages s.client)
        rises here

  -- The cursor never falls behind the one that a loop starts from.
  sync_pages-rises :
      (pages cursor : ℕ) (s : Synchronizer)
      → cursor ≡ cursor_of peer s
      → cursor ≤ cursor_of peer (sync_pages p preview pages peer fetch cursor s)
  unfolding sync_pages
  sync_pages-rises zero cursor s here = omega arith
  sync_pages-rises (suc pages) cursor s here =
      read_page-rises (sync_pages p preview pages peer fetch) cursor s (fetch cursor)
        (λ c t e. sync_pages-rises pages c t e) here

  -- If the records of the first page are all applied, and the page leads further, then afterwards the
  -- cursor is at least where the page leads, whatever happens on the pages behind it.
  pub sync_pages-reaches :
      (pages cursor : ℕ) (s : Synchronizer) (response : DirectHistoryResponse) (client : Client)
      → fetch cursor ≡ some response
      → apply_records p preview response.messages s.client ≡ (done true, client)
      → cursor < response.next_cursor
      → response.next_cursor ≤ cursor_of peer (sync_pages p preview (suc pages) peer fetch cursor s)
  unfolding sync_pages
  sync_pages-reaches pages cursor s response client e applied further =
      let next = sync_pages p preview pages peer fetch in
      let stays : leb response.next_cursor cursor ≡ false = ground arith in
      rw
        (ap (λ o. read_page p preview next peer cursor o s) e
          ∙ ap (λ r. turn_page p preview next peer cursor response r s) applied
          ∙ ap
              (λ b.
                if b
                then record s { client = client }
                else (let moved = record s {
                  client = client;
                  cursors = insert peer response.next_cursor s.cursors;
                } in
                    if ltb (length response.messages) response.limit
                    then moved
                    else next response.next_cursor moved))
              stays)
        (moved-rises next s response client (λ c t h. sync_pages-rises pages c t h)
          (ltb (length response.messages) response.limit))
