-- ===== src/Forward/Push/Queried.antt =====
-- Which events a batch has (fwDCS/internal/forwarder/forwarder.go).
use dcim_data_reader.Prelude.{
  ℕ, ◌≡◌, ◌∙◌, ◌⊎◌, refl, sym, ap, Bool, true, false, Option, none, some, List, [], String,
  if◌then◌else◌, arith, ok, inl, inr,
}
use dcim_data_reader.Forward.Rows.{FwdEvent}
use dcim_data_reader.Forward.Chunk.Split.{JsonLen}
use dcim_data_reader.Forward.Scope.{AggregatorConfig}
use dcim_data_reader.Forward.Post.{Aggregator}
use dcim_data_reader.Forward.Cursor.{get_cursor}
use dcim_data_reader.Forward.Action.{Db, World, Action, ask}
use dcim_data_reader.Forward.Action.Laws.{Keeps, same_cursors, Yields, bind-Yields, return-Yields}
use dcim_data_reader.Forward.Queries.{
  Batch, batch_limit_of, read_cursor, gate_opens, after_query, run_query, query_table, query_events,
  query_batch,
}
use dcim_data_reader.Forward.Push.Keeps.{
  query_devices-Keeps, query_metrics-Keeps, query_energy-Keeps, query_links-Keeps,
}

module _ (V : Type 0) (cfg : AggregatorConfig) (rfc3339 : ℕ → String) (len : JsonLen V) (db : Db V)
    (agg : Aggregator V) where
  -- A step that keeps the cursors, where it succeeds.
  Keeps-Yields :
      {A : Type 0} (m : Action V A) (w : World V)
      → Keeps same_cursors m
      → Yields m w (λ a w'. w'.cursors ≡ w.cursors)
  unfolding Keeps Yields
  Keeps-Yields m w keep a w' e = ap (λ r. r.1.cursors) (sym e) ∙ keep w

  -- The rows are those of a query after the cursor, or none.
  unfoldable pub IsQueried :
      {A : Type 0} → String → String → (ℕ → Option (List A)) → World V → List A → Type 0
  IsQueried table net_id rows_after w rows =
      (rows ≡ []) ⊎ (rows_after (read_cursor V cfg rfc3339 len db agg table net_id w) ≡ some rows)

  after_query-ok :
      {A : Type 0} (table net_id : String) (o : Option (List A)) (w w' : World V) (rows : List A)
      → after_query V cfg rfc3339 len db agg table net_id o w ≡ (ok rows, w')
      → o ≡ some rows
  unfolding after_query ask
  after_query-ok table net_id none w w' rows e = absurd (ground (arith, ap (λ r. r.0) e))
  after_query-ok table net_id (some xs) w w' rows e = cc (ap (λ r. r.0) e)

  gate_opens-cursors :
      (force : Bool) (table net_id : String) (w : World V)
      → (gate_opens V cfg rfc3339 len db agg force table net_id w).1.cursors ≡ w.cursors
  unfolding gate_opens
  gate_opens-cursors true table net_id w = refl
  gate_opens-cursors false table net_id w = refl

  read_cursor-eq :
      (table net_id : String) (w w' : World V)
      → w'.cursors ≡ w.cursors
      → read_cursor V cfg rfc3339 len db agg table net_id w'
        ≡ read_cursor V cfg rfc3339 len db agg table net_id w
  unfolding read_cursor
  read_cursor-eq table net_id w w' e =
      ap (λ rows. if db.reads_cursor table net_id then get_cursor table net_id rows else 0) e

  run_query-IsQueried :
      {A : Type 0} (asks : Bool) (table net_id : String) (rows_after : ℕ → Option (List A))
      (w w' : World V) (rows : List A)
      → run_query V cfg rfc3339 len db agg asks table net_id rows_after w ≡ (ok rows, w')
      → IsQueried table net_id rows_after w rows
  unfolding run_query IsQueried
  run_query-IsQueried true table net_id rows_after w w' rows e =
      inr (after_query-ok table net_id _ w w' rows e)
  run_query-IsQueried false table net_id rows_after w w' rows e = inl (cc (ap (λ r. r.0) e))

  query_events-IsQueried :
      (force : Bool) (net_id : String) (w : World V)
      → Yields (query_events V cfg rfc3339 len db agg force net_id) w (λ rows w'.
        IsQueried "events" net_id
          (λ since. db.events_since net_id since (batch_limit_of cfg))
          w
          rows)
  unfolding query_events query_table Yields IsQueried
  query_events-IsQueried force net_id w rows w2 e =
      let opened = gate_opens V cfg rfc3339 len db agg force "events" net_id w in
      let since =
        read_cursor-eq "events" net_id w opened.1 (gate_opens-cursors force "events" net_id w) in
      elim (run_query-IsQueried opened.0 "events" net_id
        (λ since. db.events_since net_id since (batch_limit_of cfg)) opened.1 w2 rows e) [
          | inl none_read ↦ inl none_read
          | inr read ↦
              inr (ap (λ c. db.events_since net_id c (batch_limit_of cfg)) (sym since) ∙ read)
        ]

  -- The events of the batch are those of a query after the cursor, or none.
  abbrev pub EventsQueried : String → World V → Batch V → Type 0
  EventsQueried net_id w b =
      IsQueried "events" net_id (λ since. db.events_since net_id since (batch_limit_of cfg)) w
        b.events

  IsQueried-eq :
      (net_id : String) (w w' : World V) (rows : List FwdEvent)
      → w'.cursors ≡ w.cursors
      → IsQueried "events" net_id
          (λ since. db.events_since net_id since (batch_limit_of cfg))
          w'
          rows
      → IsQueried "events" net_id
          (λ since. db.events_since net_id since (batch_limit_of cfg))
          w
          rows
  unfolding IsQueried
  IsQueried-eq net_id w w' rows e (inl none_read) = inl none_read
  IsQueried-eq net_id w w' rows e (inr read) = inr (
      ap (λ c. db.events_since net_id c (batch_limit_of cfg))
        (sym (read_cursor-eq "events" net_id w w' e))
      ∙ read)

  pub query_batch-EventsQueried :
      (force : Bool) (net_id : String) (w : World V)
      → Yields
          (query_batch V cfg rfc3339 len db agg force net_id)
          w
          (λ b w'. EventsQueried net_id w b)
  unfolding query_batch
  query_batch-EventsQueried force net_id w =
      bind-Yields _ _ w (λ a w'. w'.cursors ≡ w.cursors) _
        (Keeps-Yields _ w (
          query_devices-Keeps V cfg rfc3339 len db agg same_cursors (λ x g. refl) (λ x m. refl)
            force net_id))
        (λ ds w1 e1.
          bind-Yields _ _ w1 (λ a w'. w'.cursors ≡ w1.cursors) _
            (Keeps-Yields _ w1 (
              query_metrics-Keeps V cfg rfc3339 len db agg same_cursors (λ x g. refl) (λ x m. refl)
                force net_id))
            (λ ms w2 e2.
              bind-Yields _ _ w2 (λ a w'. w'.cursors ≡ w2.cursors) _
                (Keeps-Yields _ w2 (
                  query_energy-Keeps V cfg rfc3339 len db agg same_cursors (λ x g. refl)
                    (λ x m. refl) force net_id))
                (λ es w3 e3.
                  bind-Yields _ _ w3 (λ a w'. w'.cursors ≡ w3.cursors) _
                    (Keeps-Yields _ w3 (
                      query_links-Keeps V cfg rfc3339 len db agg same_cursors (λ x g. refl)
                        (λ x m. refl) force net_id))
                    (λ ls w4 e4.
                      bind-Yields _ _ w4 _ _ (query_events-IsQueried force net_id w4)
                        (λ evs w5 queried.
                          return-Yields _ w5 (λ b w'. EventsQueried net_id w b)
                            (IsQueried-eq net_id w w4 evs (e4 ∙ e3 ∙ e2 ∙ e1) queried))))))
