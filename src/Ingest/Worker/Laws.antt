-- ===== src/Ingest/Worker/Laws.antt =====
-- What the ingest workers make of packets (fwDCS/internal/ingest/worker.go).
use dcim_data_reader.Prelude.{
  ℕ, ◌<◌, ◌≡◌, ◌∙◌, refl, sym, ap, subst, arith, Bool, true, false, Option, none, some, List, [],
  ◌∷◌, ◌++◌, str_eq, leb, length, Bool-cases, Option-cases, inl, inr,
}
use dcim_data_reader.Ingest.Packet.{Texts, Packet, normalize, IsRecent, normalize-IsRecent}
use dcim_data_reader.Ingest.Dedup.{Redis}
use dcim_data_reader.Ingest.Worker.{Store, Pipeline}
use dcim_data_reader.Ingest.Worker.Process.{
  Worker, Rows, process, process_metric, route, handle_packet, flush_rows, flush_if, is_incomplete,
  metric_row,
}
use dcim_data_reader.Ingest.Worker.Rows.{IngestConfig, MetricRow, EnergyRow}

-- One row, or none.
abbrev pub row_of : {A : Type 0} → Option A → List A
row_of none = []
row_of (some a) = a ∷ []

append_nil : {A : Type 0} (xs : List A) → xs ++ [] ≡ xs
append_nil [] = refl
append_nil (x ∷ xs) = ap (λ ys. x ∷ ys) (append_nil xs)

append_assoc : {A : Type 0} (xs ys zs : List A) → (xs ++ ys) ++ zs ≡ xs ++ (ys ++ zs)
append_assoc [] ys zs = refl
append_assoc (x ∷ xs) ys zs = ap (λ ws. x ∷ ws) (append_assoc xs ys zs)

module _ (V : Type 0) (texts : Texts) (store : Store V) (redis : Redis) where
  open store use {correlate_link, reachable}

  -- The row is of a device, and has the time and the value of the packet.
  pub record IsRowOf (pkt : Packet V) (row : MetricRow V) : Type 0 where
    pub device : str_eq row.device_id "" ≡ false
    pub same_time : row.ts ≡ pkt.timestamp_ns
    pub same_value : row.value ≡ pkt.value

  process_metric-IsRowOf :
      (now : ℕ) (pkt : Packet V) (p : Pipeline V texts store) (row : MetricRow V)
      → (process_metric V texts store redis now pkt p).0 ≡ some row
      → IsRowOf pkt row
  unfolding process_metric metric_row
  process_metric-IsRowOf now pkt p row h = record {
    device = ground arith;
    same_time = ground arith;
    same_value = ground arith;
  }

  route_metric :
      (now : ℕ) (pkt : Packet V) (p : Pipeline V texts store) (row : MetricRow V)
      → (route V texts store redis now pkt p).0 ≡ some row
      → (process_metric V texts store redis now pkt p).0 ≡ some row
  unfolding route
  route_metric now pkt p row h = ground arith

  process_row :
      (cfg : IngestConfig) (now : ℕ) (pkt : Packet V) (w : Worker V texts store redis)
      (row : MetricRow V)
      → (process V texts store redis cfg now pkt w).0 ≡ some row
      → ((route V texts store redis now (normalize V texts now pkt) w.pipeline).0 ≡ some row)
        × (is_incomplete V texts store redis pkt ≡ false)
  unfolding process
  process_row cfg now pkt w row h = ground arith

  normalize-value : (now : ℕ) (pkt : Packet V) → (normalize V texts now pkt).value ≡ pkt.value
  unfolding normalize
  normalize-value now pkt = refl

  route-IsRowOf :
      (now : ℕ) (pkt : Packet V) (p : Pipeline V texts store) (row : MetricRow V)
      → (route V texts store redis now pkt p).0 ≡ some row
      → IsRowOf pkt row
  unfolding route
  route-IsRowOf now pkt p row h =
      process_metric-IsRowOf now pkt p row (route_metric now pkt p row h)

  -- A metric row that process makes has a device, the value of its packet, and a time that is
  -- at most 24 hours old and at most 5 minutes ahead; its packet has an id, a source and a
  -- name.
  pub process-IsRowOf :
      (cfg : IngestConfig) (now : ℕ) (pkt : Packet V) (w : Worker V texts store redis)
      (row : MetricRow V)
      → (process V texts store redis cfg now pkt w).0 ≡ some row
      → (str_eq row.device_id "" ≡ false)
        × (row.value ≡ pkt.value)
        × IsRecent V now row.ts
        × (is_incomplete V texts store redis pkt ≡ false)
  process-IsRowOf cfg now pkt w row h =
      let n = normalize V texts now pkt in
      let routed = process_row cfg now pkt w row h in
      let good = route-IsRowOf now n w.pipeline row routed.0 in
      (
        good.device,
        good.same_value ∙ normalize-value now pkt,
        subst (IsRecent V now) (sym good.same_time) (normalize-IsRecent V texts now pkt),
        routed.1,
      )

  -- The rows of a worker that are buffered or handed over, in their order.
  abbrev pub all_rows : Rows V texts store redis → List (MetricRow V)
  all_rows r = r.written ++ r.rows

  abbrev pub all_energy_rows : Rows V texts store redis → List (EnergyRow V)
  all_energy_rows r = r.energy_written ++ r.energy_rows

  -- Fewer rows are buffered than fill a buffer.
  pub record IsBuffered (cfg : IngestConfig) (r : Rows V texts store redis) : Type 0 where
    pub rows_room : length r.rows < cfg.buffer_rows
    pub energy_room : length r.energy_rows < cfg.buffer_rows

  flush-IsBuffered :
      (cfg : IngestConfig) (r : Rows V texts store redis)
      → 0 < cfg.buffer_rows
      → length r.energy_rows < cfg.buffer_rows
      → IsBuffered cfg (flush_if V texts store redis (leb cfg.buffer_rows (length r.rows)) r)
  unfolding flush_rows
  flush-IsBuffered cfg r positive e = elim (Bool-cases (leb cfg.buffer_rows (length r.rows))) [
    | inl full ↦ rw full (record { rows_room = positive; energy_room = positive })
    | inr room ↦ rw room (record { rows_room = ground arith; energy_room = e })
  ]

  flush-energy_IsBuffered :
      (cfg : IngestConfig) (r : Rows V texts store redis)
      → 0 < cfg.buffer_rows
      → length r.rows < cfg.buffer_rows
      → IsBuffered cfg (flush_if V texts store redis (leb cfg.buffer_rows (length r.energy_rows)) r)
  unfolding flush_rows
  flush-energy_IsBuffered cfg r positive e =
      elim (Bool-cases (leb cfg.buffer_rows (length r.energy_rows))) [
        | inl full ↦ rw full (record { rows_room = positive; energy_room = positive })
        | inr room ↦ rw room (record { rows_room = e; energy_room = ground arith })
      ]

  flush-all_rows :
      (full : Bool) (r : Rows V texts store redis)
      → (all_rows (flush_if V texts store redis full r) ≡ all_rows r)
        × (all_energy_rows (flush_if V texts store redis full r) ≡ all_energy_rows r)
  unfolding flush_rows
  flush-all_rows true r = (append_nil (all_rows r), append_nil (all_energy_rows r))
  flush-all_rows false r = (refl, refl)

  -- With a buffer of at least one row, a packet that is no energy packet keeps the rows that a
  -- worker buffers below the size of its buffer, and loses none: the metric rows handed over
  -- and buffered, in order, are those before it and then the row of the packet, if it has one,
  -- and the energy rows are those before it.
  pub handle_packet-rows :
      (cfg : IngestConfig) (now : ℕ) (pkt : Packet V) (w : Worker V texts store redis)
      (r : Rows V texts store redis)
      → 0 < cfg.buffer_rows
      → IsBuffered cfg r
      → str_eq pkt.kind "energy" ≡ false
      → IsBuffered cfg (handle_packet V texts store redis cfg now pkt (w, r)).1
        × (all_rows (handle_packet V texts store redis cfg now pkt (w, r)).1
            ≡ all_rows r ++ row_of (process V texts store redis cfg now pkt w).0)
        × (all_energy_rows (handle_packet V texts store redis cfg now pkt (w, r)).1
            ≡ all_energy_rows r)
  unfolding handle_packet
  handle_packet-rows cfg now pkt w r positive h metric =
      elim (Option-cases (process V texts store redis cfg now pkt w).0) [
        | inl none_made ↦
            rw (handle_packet, metric, none_made) (h, sym (append_nil (all_rows r)), refl)
        | inr (row, made) ↦
            let more : Rows V texts store redis = record r { rows = r.rows ++ row ∷ [] } in
            let full = leb cfg.buffer_rows (length more.rows) in
            rw (handle_packet, metric, made)
              (
                flush-IsBuffered cfg more positive h.energy_room,
                (flush-all_rows full more).0 ∙ sym (append_assoc r.written r.rows (row ∷ [])),
                (flush-all_rows full more).1,
              )
      ]
