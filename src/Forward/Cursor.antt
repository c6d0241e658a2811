-- ===== src/Forward/Cursor.antt =====
-- The cursors of the forwarder and the queries behind a cursor (fwDCS/internal/store/forward.go). The
-- tables are lists of rows; a query takes those that its joins give for the tenant, as its ORDER BY
-- orders them.
pub mod Paging
use dcim_data_reader.Prelude.{
  ℕ, ◌<◌, ◌≡◌, ◌∙◌, refl, Bool, true, false, ◌&&◌, Option, none, some, List, [], ◌∷◌, ◌++◌, String,
  str_eq, eq_iff, arith, ltb, if◌then◌else◌, select, take, last,
}

-- A row of forwarder_cursors.
pub record CursorRow : Type 0 where
  pub name : String
  pub network_id : String
  pub cursor : ℕ

unfoldable pub is_cursor : String → String → CursorRow → Bool
is_cursor name net_id row = str_eq row.name name && str_eq row.network_id net_id

-- GetForwarderCursor on rows that can be read: the zero time where there is none.
unfoldable pub get_cursor : String → String → List CursorRow → ℕ
unfolding is_cursor
get_cursor name net_id [] = 0
get_cursor name net_id (row ∷ rows) =
    let later = get_cursor name net_id rows in
    if is_cursor name net_id row then row.cursor else later

-- SetForwarderCursor.
unfoldable pub set_cursor : String → String → ℕ → List CursorRow → List CursorRow
unfolding is_cursor
set_cursor name net_id t [] = record { name = name; network_id = net_id; cursor = t } ∷ []
set_cursor name net_id t (row ∷ rows) =
    let later = set_cursor name net_id t rows in
    if is_cursor name net_id row then record row { cursor = t } ∷ rows else row ∷ later

pub get_cursor-set_cursor :
    (name net_id other other_net : String) (t : ℕ) (rows : List CursorRow)
    → get_cursor other other_net (set_cursor name net_id t rows) ≡ (
        if str_eq name other && str_eq net_id other_net then t else get_cursor other other_net rows)
unfolding get_cursor set_cursor is_cursor
get_cursor-set_cursor name net_id other other_net t [] = ground arith
get_cursor-set_cursor name net_id other other_net t (row ∷ rows) = ground (
  arith,
  eq_iff row.name name,
  eq_iff row.name other,
  eq_iff name other,
  eq_iff row.network_id net_id,
  eq_iff row.network_id other_net,
  eq_iff net_id other_net,
  get_cursor-set_cursor name net_id other other_net t rows,
)

module _ {Row : Type 0} (ts : Row → ℕ) where
  -- The rows whose time is after the cursor.
  unfoldable pub pending : ℕ → List Row → List Row
  pending since rows = select (λ row. ltb since (ts row)) rows

  -- DevicesUpdatedSince, MetricsSince, EnergySince, TopologyLinksSince and EventsSince: the rows after
  -- the cursor, the oldest first, up to the limit.
  unfoldable pub rows_since : ℕ → ℕ → List Row → List Row
  unfolding pending
  rows_since since limit rows = take limit (pending since rows)

  -- The cursor after a batch.
  unfoldable pub next_cursor : ℕ → List Row → ℕ
  next_cursor since batch = elim (last batch) [ none ↦ since | some row ↦ ts row ]
