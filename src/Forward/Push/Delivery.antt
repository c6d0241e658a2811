-- ===== src/Forward/Push/Delivery.antt =====
-- What the cursor of the events has passed (fwDCS/internal/forwarder/forwarder.go).
use dcim_data_reader.Prelude.{
  ℕ, ◌≡◌, ◌∙◌, ◌≤◌, ◌<◌, ◌⊎◌, refl, sym, ap, subst, Bool, true, false, some, List, [], ◌++◌, String,
  arith, Bool-cases, inl, inr, ltb, Among, Among-append-left, Among-append-cases, Among-select, All,
  All-Among, All-of-Among, append-nil,
}
use dcim_data_reader.Forward.Rows.{FwdEvent}
use dcim_data_reader.Forward.Payload.{AggPayload}
use dcim_data_reader.Forward.Chunk.Split.{JsonLen}
use dcim_data_reader.Forward.Scope.{AggregatorConfig}
use dcim_data_reader.Forward.Post.{Aggregator}
use dcim_data_reader.Forward.Cursor.{get_cursor, pending, rows_since, next_cursor}
use dcim_data_reader.Forward.Cursor.Paging.{IsAscending, rows_since-pending, All-pending}
use dcim_data_reader.Forward.Action.{Db, World, Action}
use dcim_data_reader.Forward.Action.Laws.{Keeps, same_cursors, more_sent, Yields, bind-Invariant}
use dcim_data_reader.Forward.Queries.{Batch, batch_limit_of, read_cursor, query_batch}
use dcim_data_reader.Forward.Push.{advance, ship, finish_push, push_network}
use dcim_data_reader.Forward.Push.Keeps.{query_batch-Keeps, ship-Keeps, advance-sent}
use dcim_data_reader.Forward.Push.Queried.{IsQueried, EventsQueried, query_batch-EventsQueried}
use dcim_data_reader.Forward.Push.Advance.{Moves, advance-Moves}
use dcim_data_reader.Forward.Push.Shipping.{HasSent, IsSent, ship-HasSent, HasSent-IsSent}

module _ (V : Type 0) (cfg : AggregatorConfig) (rfc3339 : ℕ → String) (len : JsonLen V) (db : Db V)
    (agg : Aggregator V) where
  -- Every event up to the cursor of the events is in a chunk that was accepted.
  unfoldable pub IsDelivered : String → List FwdEvent → World V → Type 0
  unfolding IsSent
  IsDelivered net_id rows w =
      (ev : FwdEvent)
      → Among ev rows
      → ev.ts ≤ get_cursor "events" net_id w.cursors
      → IsSent V cfg rfc3339 len db agg ev w.sent

  more-IsSent :
      (ev : FwdEvent) (sent more sent' : List (AggPayload V))
      → sent' ≡ sent ++ more
      → IsSent V cfg rfc3339 len db agg ev sent
      → IsSent V cfg rfc3339 len db agg ev sent'
  unfolding IsSent
  more-IsSent ev sent more sent' e (c, (m, here)) =
      (c, (subst (Among c) (sym e) (Among-append-left c sent more m), here))

  kept-IsDelivered :
      {A : Type 0} (m : Action V A) (net_id : String) (rows : List FwdEvent) (w : World V)
      → Keeps same_cursors m
      → Keeps more_sent m
      → IsDelivered net_id rows w
      → IsDelivered net_id rows (m w).1
  unfolding IsDelivered Keeps
  kept-IsDelivered m net_id rows w cursors sent h ev among le =
      more-IsSent ev w.sent (sent w).0 (m w).1.sent (sent w).1
        (h ev among (subst (λ cs. ev.ts ≤ get_cursor "events" net_id cs) (cursors w) le))

  -- The query of the events, on the rows that the tables have.
  abbrev pub Reads : String → List FwdEvent → Type 0
  Reads net_id rows =
      (since limit : ℕ)
      → db.events_since net_id since limit ≡ some (rows_since (λ e. e.ts) since limit rows)

  -- A row between the cursor and the time of the last row of the batch is in the batch.
  in_batch :
      (net_id : String) (rows : List FwdEvent) (w : World V) (b : Batch V) (ev : FwdEvent)
      → IsAscending (λ e. e.ts) rows
      → Reads net_id rows
      → EventsQueried V cfg rfc3339 len db agg net_id w b
      → Among ev rows
      → let since = read_cursor V cfg rfc3339 len db agg "events" net_id w in
        since < ev.ts → ev.ts ≤ next_cursor (λ e. e.ts) since b.events → Among ev b.events
  unfolding IsQueried next_cursor pending
  in_batch net_id rows w b ev asc reads (inl none_read) m after le =
      let since = read_cursor V cfg rfc3339 len db agg "events" net_id w in
      let same : next_cursor (λ e. e.ts) since b.events ≡ since =
        ap (next_cursor (λ e. e.ts) since) none_read in
      absurd (omega (arith, same, le, after))
  in_batch net_id rows w b ev asc reads (inr read) m after le =
      let since = read_cursor V cfg rfc3339 len db agg "events" net_id w in
      let limit = batch_limit_of cfg in
      let batch : rows_since (λ e. e.ts) since limit rows ≡ b.events =
        cc (sym (reads since limit) ∙ read) in
      let next = next_cursor (λ e. e.ts) since (rows_since (λ e. e.ts) since limit rows) in
      let newer : Among ev (pending (λ e. e.ts) since rows) =
        Among-select (λ e. ltb since e.ts) ev rows m (ground (arith, after)) in
      elim (Among-append-cases ev (rows_since (λ e. e.ts) since limit rows)
        (pending (λ e. e.ts) next rows)
        (subst (Among ev) (sym (rows_since-pending (λ e. e.ts) since limit rows asc)) newer)) [
          | inl here ↦ subst (Among ev) batch here
          | inr later ↦
              let beyond : next < ev.ts =
                All-Among (λ e. next < e.ts) ev _ (All-pending (λ e. e.ts) next rows) later in
              let same : next ≡ next_cursor (λ e. e.ts) since b.events =
                ap (next_cursor (λ e. e.ts) since) batch in
              absurd (omega (arith, same, beyond, le))
        ]

  read_cursor-le :
      (net_id : String) (w : World V)
      → read_cursor V cfg rfc3339 len db agg "events" net_id w
        ≤ get_cursor "events" net_id w.cursors
  unfolding read_cursor
  read_cursor-le net_id w = ground arith

  advance-IsDelivered :
      (net_id : String) (rows : List FwdEvent) (w w' : World V) (b : Batch V)
      → IsAscending (λ e. e.ts) rows
      → Reads net_id rows
      → EventsQueried V cfg rfc3339 len db agg net_id w b
      → w'.cursors ≡ w.cursors
      → ((ev : FwdEvent) → Among ev b.events → IsSent V cfg rfc3339 len db agg ev w'.sent)
      → IsDelivered net_id rows w'
      → IsDelivered net_id rows (advance V cfg rfc3339 len db agg net_id b w')
  unfolding IsDelivered Moves
  advance-IsDelivered net_id rows w w' b asc reads queried same sent h ev m le =
      let since = read_cursor V cfg rfc3339 len db agg "events" net_id w in
      let old = read_cursor-le net_id w in
      let cursors = ap (get_cursor "events" net_id) same in
      let final = advance-sent V cfg rfc3339 len db agg net_id b w' in
      subst (IsSent V cfg rfc3339 len db agg ev) (sym final)
        (elim (advance-Moves V cfg rfc3339 len db agg net_id b w') [
          | inl stays ↦ h ev m (omega (arith, stays, le))
          | inr moved ↦
              let to = moved since in
              elim (Bool-cases (ltb since ev.ts)) [
                | inl newer ↦
                    let lt : since < ev.ts = ground (arith, newer) in
                    sent ev
                      (in_batch net_id rows w b ev asc reads queried m lt (omega (arith, to, le)))
                | inr older ↦
                    let back : ev.ts ≤ since = ground (arith, older) in
                    h ev m (omega (arith, back, old, cursors))
              ]
        ])

  finish_push-IsDelivered :
      (net_id : String) (rows : List FwdEvent) (w w1 w2 : World V) (b : Batch V) (shipped : Bool)
      → IsAscending (λ e. e.ts) rows
      → Reads net_id rows
      → EventsQueried V cfg rfc3339 len db agg net_id w b
      → w2.cursors ≡ w.cursors
      → HasSent V cfg rfc3339 len db agg net_id b w1 shipped w2
      → IsDelivered net_id rows w2
      → IsDelivered net_id rows (finish_push V cfg rfc3339 len db agg net_id b shipped w2).1
  unfolding finish_push
  finish_push-IsDelivered net_id rows w w1 w2 b false asc reads queried same sent h = h
  finish_push-IsDelivered net_id rows w w1 w2 b true asc reads queried same sent h =
      advance-IsDelivered net_id rows w w2 b asc reads queried same
        (λ ev m. HasSent-IsSent V cfg rfc3339 len db agg net_id b w1 w2 ev sent m) h

  push_network-IsDelivered :
      (force : Bool) (net_id : String) (rows : List FwdEvent) (w : World V)
      → IsAscending (λ e. e.ts) rows
      → Reads net_id rows
      → IsDelivered net_id rows w
      → IsDelivered net_id rows (push_network V cfg rfc3339 len db agg force net_id w).1
  unfolding push_network Keeps Yields
  push_network-IsDelivered force net_id rows w asc reads h =
      let query = query_batch V cfg rfc3339 len db agg force net_id in
      let w1 = (query w).1 in
      let cursors1 =
        query_batch-Keeps V cfg rfc3339 len db agg same_cursors (λ x g. refl) (λ x m. refl) force
          net_id in
      let sent1 =
        query_batch-Keeps V cfg rfc3339 len db agg more_sent (λ x g. ([], sym (append-nil x.sent)))
          (λ x m. (m, refl)) force net_id in
      let h1 = kept-IsDelivered query net_id rows w cursors1 sent1 h in
      bind-Invariant (IsDelivered net_id rows) query _ w h1 (λ b e.
        let shipping = ship V cfg rfc3339 len db agg net_id b in
        let cursors2 =
          ship-Keeps V cfg rfc3339 len db agg same_cursors (λ x g. refl) (λ x m. refl) net_id b in
        let sent2 =
          ship-Keeps V cfg rfc3339 len db agg more_sent (λ x g. ([], sym (append-nil x.sent)))
            (λ x m. (m, refl)) net_id b in
        let queried = query_batch-EventsQueried V cfg rfc3339 len db agg force net_id w b w1 e in
        bind-Invariant (IsDelivered net_id rows) shipping _ w1
          (kept-IsDelivered shipping net_id rows w1 cursors2 sent2 h1)
          (λ shipped e'.
            let w2 = (shipping w1).1 in
            finish_push-IsDelivered net_id rows w w1 w2 b shipped asc reads queried
              (cursors2 w1 ∙ cursors1 w)
              (ship-HasSent V cfg rfc3339 len db agg net_id b w1 shipped w2 e')
              (kept-IsDelivered shipping net_id rows w1 cursors2 sent2 h1)))

  -- An event that the cursor has not passed, or that is in a chunk that was accepted.
  unfoldable pub IsCovered : String → List FwdEvent → World V → Type 0
  unfolding IsSent
  IsCovered net_id rows w =
      All
        (λ ev.
          (get_cursor "events" net_id w.cursors < ev.ts)
          ⊎ IsSent V cfg rfc3339 len db agg ev w.sent)
        rows

  IsCovered-IsDelivered :
      (net_id : String) (rows : List FwdEvent) (w : World V)
      → IsCovered net_id rows w
      → IsDelivered net_id rows w
  unfolding IsCovered IsDelivered
  IsCovered-IsDelivered net_id rows w h ev m le = elim (All-Among _ ev rows h m) [
    | inl ahead ↦ absurd (omega (arith, ahead, le))
    | inr sent ↦ sent
  ]

  IsDelivered-IsCovered :
      (net_id : String) (rows : List FwdEvent) (w : World V)
      → IsDelivered net_id rows w
      → IsCovered net_id rows w
  unfolding IsCovered IsDelivered
  IsDelivered-IsCovered net_id rows w h = All-of-Among _ rows (λ ev m.
      elim (Bool-cases (ltb (get_cursor "events" net_id w.cursors) ev.ts)) [
        | inl ahead ↦ inl (ground (arith, ahead))
        | inr passed ↦ inr (h ev m (ground (arith, passed)))
      ])

  -- Where no two events of the tables have the same time and EventsSince gives the rows of the
  -- tables after a cursor, pushNetwork keeps, however it ends, that every event of the network
  -- is ahead of the cursor of the events or is in a chunk that the Aggregator has accepted.
  pub push_network-IsCovered :
      (force : Bool) (net_id : String) (rows : List FwdEvent) (w : World V)
      → IsAscending (λ e. e.ts) rows
      → Reads net_id rows
      → IsCovered net_id rows w
      → IsCovered net_id rows (push_network V cfg rfc3339 len db agg force net_id w).1
  push_network-IsCovered force net_id rows w asc reads h =
      let w' = (push_network V cfg rfc3339 len db agg force net_id w).1 in
      IsDelivered-IsCovered net_id rows w' (
        push_network-IsDelivered force net_id rows w asc reads
          (IsCovered-IsDelivered net_id rows w h))
