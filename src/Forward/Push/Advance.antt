-- ===== src/Forward/Push/Advance.antt =====
-- How the cursor of the events moves (fwDCS/internal/forwarder/forwarder.go).
use dcim_data_reader.Prelude.{
  ℕ, ◌≡◌, ◌∙◌, ◌⊎◌, refl, sym, ap, true, false, none, some, List, String, str_eq, arith, Bool-cases,
  Option-cases, inl, inr, last, eq_iff,
}
use dcim_data_reader.Forward.Rows.{FwdEvent}
use dcim_data_reader.Forward.Chunk.Split.{JsonLen}
use dcim_data_reader.Forward.Scope.{AggregatorConfig}
use dcim_data_reader.Forward.Post.{Aggregator}
use dcim_data_reader.Forward.Cursor.{get_cursor, get_cursor-set_cursor, next_cursor}
use dcim_data_reader.Forward.Action.{Db, World}
use dcim_data_reader.Forward.Queries.{Batch}
use dcim_data_reader.Forward.Push.{write_cursor, advance_table, advance}

module _ (V : Type 0) (cfg : AggregatorConfig) (rfc3339 : ℕ → String) (len : JsonLen V) (db : Db V)
    (agg : Aggregator V) where
  next_cursor-last :
      (since : ℕ) (rows : List FwdEvent) (row : FwdEvent)
      → last rows ≡ some row
      → next_cursor (λ e. e.ts) since rows ≡ row.ts
  unfolding next_cursor
  next_cursor-last since rows row e = rw (next_cursor, e) refl

  -- The cursor of the events after their table is advanced.
  unfoldable pub Moves : String → List FwdEvent → World V → World V → Type 0
  Moves net_id rows w w' =
      (get_cursor "events" net_id w'.cursors ≡ get_cursor "events" net_id w.cursors)
      ⊎ ((since : ℕ) → get_cursor "events" net_id w'.cursors ≡ next_cursor (λ e. e.ts) since rows)

  write_cursor-get :
      (net_id : String) (t : ℕ) (w : World V)
      → let w' = write_cursor V cfg rfc3339 len db agg "events" net_id t w in
        (get_cursor "events" net_id w'.cursors ≡ get_cursor "events" net_id w.cursors)
        ⊎ (get_cursor "events" net_id w'.cursors ≡ t)
  unfolding write_cursor
  write_cursor-get net_id t w = elim (Bool-cases (db.writes_cursor "events" net_id)) [
    | inl e ↦
        let same : str_eq net_id net_id ≡ true = ground (arith, eq_iff net_id net_id) in
        inr
          (rw e (get_cursor-set_cursor "events" net_id "events" net_id t w.cursors ∙ rw same refl))
    | inr e ↦ inl (rw e refl)
  ]

  advance_table-none :
      {A : Type 0} (name net_id : String) (ts : A → ℕ) (rows : List A) (w : World V)
      → last rows ≡ none
      → advance_table V cfg rfc3339 len db agg name net_id ts rows w ≡ w
  unfolding advance_table
  advance_table-none name net_id ts rows w e = rw (advance_table, e) refl

  advance_table-some :
      {A : Type 0} (name net_id : String) (ts : A → ℕ) (rows : List A) (row : A) (w : World V)
      → last rows ≡ some row
      → advance_table V cfg rfc3339 len db agg name net_id ts rows w
        ≡ write_cursor V cfg rfc3339 len db agg name net_id (ts row) w
  unfolding advance_table
  advance_table-some name net_id ts rows row w e = rw (advance_table, e) refl

  advance_events-Moves :
      (net_id : String) (rows : List FwdEvent) (w : World V)
      → Moves net_id rows w
          (advance_table V cfg rfc3339 len db agg "events" net_id (λ e. e.ts) rows w)
  unfolding Moves
  advance_events-Moves net_id rows w = elim (Option-cases (last rows)) [
    | inl e ↦ inl (
        ap (λ x. get_cursor "events" net_id x.cursors)
          (advance_table-none "events" net_id (λ e. e.ts) rows w e))
    | inr (row, e) ↦
        let step =
          ap (λ x. get_cursor "events" net_id x.cursors)
            (advance_table-some "events" net_id (λ e. e.ts) rows row w e) in
        elim (write_cursor-get net_id row.ts w) [
          | inl stays ↦ inl (step ∙ stays)
          | inr moved ↦ inr (λ since. step ∙ moved ∙ sym (next_cursor-last since rows row e))
        ]
  ]

  advance_table-other :
      {A : Type 0} (name net_id : String) (ts : A → ℕ) (rows : List A) (w : World V)
      → str_eq name "events" ≡ false
      → get_cursor "events" net_id
          (advance_table V cfg rfc3339 len db agg name net_id ts rows w).cursors
        ≡ get_cursor "events" net_id w.cursors
  unfolding write_cursor
  advance_table-other name net_id ts rows w other = elim (Option-cases (last rows)) [
    | inl e ↦
        ap (λ x. get_cursor "events" net_id x.cursors) (advance_table-none name net_id ts rows w e)
    | inr (row, e) ↦
        ap (λ x. get_cursor "events" net_id x.cursors)
          (advance_table-some name net_id ts rows row w e)
        ∙ elim (Bool-cases (db.writes_cursor name net_id)) [
          | inl writes ↦
              rw writes (
                get_cursor-set_cursor name net_id "events" net_id (ts row) w.cursors
                ∙ rw other refl)
          | inr fails ↦ rw fails refl
        ]
  ]

  pub advance-Moves :
      (net_id : String) (b : Batch V) (w : World V)
      → Moves net_id b.events w (advance V cfg rfc3339 len db agg net_id b w)
  unfolding advance Moves
  advance-Moves net_id b w =
      let w1 =
        advance_table V cfg rfc3339 len db agg "devices" net_id (λ d. d.updated_at) b.devices w in
      let w2 = advance_table V cfg rfc3339 len db agg "metrics" net_id (λ m. m.ts) b.metrics w1 in
      let w3 = advance_table V cfg rfc3339 len db agg "energy" net_id (λ e. e.ts) b.energy w2 in
      let w4 =
        advance_table V cfg rfc3339 len db agg "topology" net_id (λ l. l.updated_at) b.links w3 in
      let same : get_cursor "events" net_id w4.cursors ≡ get_cursor "events" net_id w.cursors =
        advance_table-other "topology" net_id (λ l. l.updated_at) b.links w3 refl
        ∙ advance_table-other "energy" net_id (λ e. e.ts) b.energy w2 refl
        ∙ advance_table-other "metrics" net_id (λ m. m.ts) b.metrics w1 refl
        ∙ advance_table-other "devices" net_id (λ d. d.updated_at) b.devices w refl in
      elim (advance_events-Moves net_id b.events w4) [
        | inl stays ↦ inl (stays ∙ same)
        | inr moved ↦ inr moved
      ]
