-- ===== src/Forward/Cursor/Paging.antt =====
-- What the rounds of query and cursor deliver (fwDCS/internal/store/forward.go).
use dcim_data_reader.Prelude.{
  ℕ, zero, suc, ◌≤◌, ◌<◌, ◌≡◌, ◌∙◌, refl, sym, ap, subst, true, false, List, [], ◌∷◌, ◌++◌, arith,
  ltb, inl, inr, Bool-cases, take, All, All-weaken,
}
use dcim_data_reader.Forward.Cursor.{pending, rows_since, next_cursor}

module _ {Row : Type 0} (ts : Row → ℕ) where
  -- No two rows have the same time, and the older one stands first.
  unfoldable pub IsAscending : List Row → Type 0
  IsAscending [] = Unit
  IsAscending (row ∷ rows) = All (λ later. ts row < ts later) rows × IsAscending rows

  pending-later :
      (c : ℕ) (rows : List Row) → All (λ row. c < ts row) rows → pending ts c rows ≡ rows
  unfolding pending
  pending-later c [] h = refl
  pending-later c (row ∷ rows) (lt, h) =
      let here : ltb c (ts row) ≡ true = ground (arith, lt) in
      rw here (ap (λ rest. row ∷ rest) (pending-later c rows h))

  pending-old :
      (c : ℕ) (row : Row) (rows : List Row)
      → ts row ≤ c
      → pending ts c (row ∷ rows) ≡ pending ts c rows
  unfolding pending
  pending-old c row rows le = let here : ltb c (ts row) ≡ false = ground (arith, le) in rw here refl

  next_cursor-any :
      (c c' : ℕ) (row : Row) (rows : List Row)
      → next_cursor ts c (row ∷ rows) ≡ next_cursor ts c' (row ∷ rows)
  unfolding next_cursor
  next_cursor-any c c' row [] = refl
  next_cursor-any c c' row (row' ∷ rows) = next_cursor-any c c' row' rows

  next_cursor-cons :
      (c : ℕ) (row : Row) (rows : List Row)
      → next_cursor ts c (row ∷ rows) ≡ next_cursor ts (ts row) rows
  unfolding next_cursor
  next_cursor-cons c row [] = refl
  next_cursor-cons c row (row' ∷ rows) = next_cursor-any c (ts row) row' rows

  pub le-next_cursor :
      (c : ℕ) (batch : List Row)
      → All (λ row. c < ts row) batch
      → IsAscending batch
      → c ≤ next_cursor ts c batch
  unfolding IsAscending next_cursor
  le-next_cursor c [] h asc = omega arith
  le-next_cursor c (row ∷ rows) (lt, h) (above, asc) =
      let later = le-next_cursor (ts row) rows above asc in
      let step = next_cursor-cons c row rows in rw step (omega (arith, later, lt))

  All-take : (P : Row → Type 0) (n : ℕ) (rows : List Row) → All P rows → All P (take n rows)
  All-take P zero rows h = tt
  All-take P (suc n) [] h = tt
  All-take P (suc n) (row ∷ rows) (p, h) = (p, All-take P n rows h)

  take-IsAscending : (n : ℕ) (rows : List Row) → IsAscending rows → IsAscending (take n rows)
  unfolding IsAscending
  take-IsAscending zero rows h = tt
  take-IsAscending (suc n) [] h = tt
  take-IsAscending (suc n) (row ∷ rows) (above, h) =
      (All-take (λ later. ts row < ts later) n rows above, take-IsAscending n rows h)

  -- Behind a cursor before all rows, a batch is followed by what is pending behind its cursor.
  take-pending :
      (n c : ℕ) (rows : List Row)
      → All (λ row. c < ts row) rows
      → IsAscending rows
      → take n rows ++ pending ts (next_cursor ts c (take n rows)) rows ≡ rows
  unfolding IsAscending next_cursor pending
  take-pending zero c rows h asc = pending-later c rows h
  take-pending (suc n) c [] h asc = refl
  take-pending (suc n) c (row ∷ rows) h (above, asc) =
      let c' = next_cursor ts (ts row) (take n rows) in
      let le =
        le-next_cursor (ts row) (take n rows) (All-take (λ later. ts row < ts later) n rows above)
          (take-IsAscending n rows asc) in
      ap (λ rest. row ∷ rest)
        (ap (λ x. take n rows ++ pending ts x (row ∷ rows)) (next_cursor-cons c row (take n rows))
          ∙ ap (λ rest. take n rows ++ rest) (pending-old c' row rows le)
          ∙ take-pending n (ts row) rows above asc)

  pub All-pending : (c : ℕ) (rows : List Row) → All (λ row. c < ts row) (pending ts c rows)
  unfolding pending
  All-pending c [] = tt
  All-pending c (row ∷ rows) = elim (Bool-cases (ltb c (ts row))) [
    | inl e ↦ rw e (ground (arith, e), All-pending c rows)
    | inr e ↦ rw e (All-pending c rows)
  ]

  pending-All :
      (P : Row → Type 0) (c : ℕ) (rows : List Row) → All P rows → All P (pending ts c rows)
  unfolding pending
  pending-All P c [] h = tt
  pending-All P c (row ∷ rows) (p, h) = elim (Bool-cases (ltb c (ts row))) [
    | inl e ↦ rw e (p, pending-All P c rows h)
    | inr e ↦ rw e (pending-All P c rows h)
  ]

  pending-IsAscending :
      (c : ℕ) (rows : List Row) → IsAscending rows → IsAscending (pending ts c rows)
  unfolding pending IsAscending
  pending-IsAscending c [] h = tt
  pending-IsAscending c (row ∷ rows) (above, h) = elim (Bool-cases (ltb c (ts row))) [
    | inl e ↦
        rw e (pending-All (λ later. ts row < ts later) c rows above, pending-IsAscending c rows h)
    | inr e ↦ rw e (pending-IsAscending c rows h)
  ]

  -- The batch and what is pending behind its cursor, from what is pending before.
  abbrev Delivers : ℕ → ℕ → List Row → List Row → Type 0
  Delivers since limit rows ps =
      take limit ps ++ pending ts (next_cursor ts since (take limit ps)) rows ≡ ps

  -- Where no two rows have the same time and the older ones stand first, the batch of a query
  -- followed by what is pending behind the cursor of its last row is what was pending before:
  -- no row is skipped and none is read twice.
  pub rows_since-pending :
      (since limit : ℕ) (rows : List Row)
      → IsAscending rows
      → let batch = rows_since ts since limit rows in
        batch ++ pending ts (next_cursor ts since batch) rows ≡ pending ts since rows
  unfolding rows_since IsAscending
  rows_since-pending since zero [] asc = refl
  rows_since-pending since (suc limit) [] asc = refl
  rows_since-pending since limit (row ∷ rows) (above, asc) =
      elim (Bool-cases (ltb since (ts row))) [
        | inl e ↦
            let lt : since < ts row = ground (arith, e) in
            let all : All (λ r. since < ts r) (row ∷ rows) =
              (lt, All-weaken (λ r. ts row < ts r) _ rows (λ r gt. omega arith) above) in
            subst (Delivers since limit (row ∷ rows)) (sym (pending-later since (row ∷ rows) all))
              (take-pending limit since (row ∷ rows) all (above, asc))
        | inr e ↦
            let old : ts row ≤ since = ground (arith, e) in
            let ps = pending ts since rows in
            let c' = next_cursor ts since (take limit ps) in
            let le =
              le-next_cursor since (take limit ps)
                (All-take (λ r. since < ts r) limit ps (All-pending since rows))
                (take-IsAscending limit ps (pending-IsAscending since rows asc)) in
            subst (Delivers since limit (row ∷ rows)) (sym (pending-old since row rows old)) (
              ap (λ rest. take limit ps ++ rest) (pending-old c' row rows (omega (arith, le, old)))
              ∙ rows_since-pending since limit rows asc)
      ]
