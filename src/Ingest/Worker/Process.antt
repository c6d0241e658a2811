-- ===== src/Ingest/Worker/Process.antt =====
-- process, processEnergy and the batches of workerLoop (fwDCS/internal/ingest/worker.go).
use dcim_data_reader.Prelude.{
  ℕ, Bool, false, not, ◌&&◌, ◌||◌, Option, none, some, List, [], ◌∷◌, ◌++◌, String, str_eq,
  if◌then◌else◌, leb, length,
}
use dcim_data_reader.Ingest.Packet.{Texts, Packet, meta_at, normalize}
use dcim_data_reader.Ingest.Dedup.{Redis, is_duplicate, duplicate, failed}
use dcim_data_reader.Ingest.Worker.{
  Store, Pipeline, lookup_or_register, first_by_ip, write_device_state, write_threshold,
  handle_link_trap,
}
use dcim_data_reader.Ingest.Worker.Rows.{
  MetricRow, EnergyRow, IngestConfig, map_without, energy_keys, metric_keys, or_text,
}
use dcim_data_reader.Ingest.Worker.Interfaces.{lookup_or_upsert_interface, write_interface_address}

module _ (V : Type 0) (texts : Texts) (store : Store V) (redis : Redis) where
  open store use {write_topology_link, write_event}

  -- `none` for a nil Deduper.
  pub record Worker : Type 0 where
    pub pipeline : Pipeline V texts store
    pub dedup : Option redis.State

  abbrev pub is_trap : Packet V → Bool
  is_trap pkt = str_eq pkt.kind "trap" || str_eq pkt.kind "event" || str_eq pkt.kind "alarm"

  -- Whether the packet is dropped as a duplicate, and Redis afterwards. An error lets it through.
  unfoldable pub seen_before :
      IngestConfig → Packet V → Option redis.State → Bool × Option redis.State
  seen_before cfg pkt none = (false, none)
  seen_before cfg pkt (some s) =
      let (verdict, s') = is_duplicate redis pkt.id pkt.source_id pkt.nonce s in
      let wanted =
        if is_trap pkt
        then cfg.dedup_events
        else if str_eq pkt.kind "metric"
        then cfg.dedup_metrics
        else false in
      let dup : Bool = elim verdict [ duplicate d ↦ d | failed e ↦ false ] in
      if wanted then (dup, some s') else (false, some s)

  -- The case of traps, alarms and events.
  unfoldable pub process_trap : ℕ → Packet V → Pipeline V texts store → Pipeline V texts store
  process_trap now pkt p =
      let (id, p') = lookup_or_register V texts store now pkt p in
      let found =
        first_by_ip V texts store pkt
          (pkt.source_id
            ∷ meta_at V "source_ip" pkt
            ∷ meta_at V "device_ip" pkt
            ∷ meta_at V "mgmt_ip" pkt
            ∷ [])
          p'.db in
      let named = meta_at V "hostname" pkt in
      let by_ip : String × String = elim found [
        | none ↦ ("", named)
        | some (i, h) ↦ (i, or_text h named)
      ] in
      let (device_id, host) = if str_eq id "" then by_ip else (id, named) in
      let (taken, p'') = handle_link_trap V texts store device_id host pkt p' in
      let plain : Pipeline V texts store = record p' {
        db = write_event device_id host pkt p'.db;
      } in
      if not (str_eq device_id "") && (str_eq pkt.name "linkDown" || str_eq pkt.name "linkUp")
      then if taken then p'' else plain
      else plain

  -- The metric's row.
  unfoldable pub metric_row : String → String → Packet V → MetricRow V
  metric_row device_id iface_id pkt = record {
    device_id = device_id;
    ts = pkt.timestamp_ns;
    metric_name = pkt.name;
    tag = pkt.tag;
    value = pkt.value;
    attributes = map_without metric_keys pkt.meta;
    collector_agent =
        or_text (if texts.has_prefix "idr-" pkt.reader_id then "IDR" else "EDR")
          (meta_at V "collector_agent" pkt);
    collector_protocol = or_text "SNMP" (meta_at V "collector_protocol" pkt);
    interface_id = iface_id;
  }

  unfoldable pub process_metric :
      ℕ → Packet V → Pipeline V texts store → Option (MetricRow V) × Pipeline V texts store
  unfolding metric_row
  process_metric now pkt p =
      let (device_id, p') = lookup_or_register V texts store now pkt p in
      let (iface_id, p'') = lookup_or_upsert_interface V texts store now device_id pkt p' in
      if str_eq device_id ""
      then (none, p')
      else if texts.has_prefix "interface." pkt.name && not (str_eq pkt.tag "")
      then (some (metric_row device_id iface_id pkt), p'')
      else (some (metric_row device_id "" pkt), p')

  -- The switch over the kinds.
  unfoldable pub route :
      ℕ → Packet V → Pipeline V texts store → Option (MetricRow V) × Pipeline V texts store
  route now pkt p =
      if str_eq pkt.kind "topology"
      then (none, record p { db = write_topology_link pkt p.db })
      else if str_eq pkt.kind "interface_address"
      then (none, write_interface_address V texts store now pkt p)
      else if str_eq pkt.kind "device_state"
      then (none, write_device_state V texts store now pkt p)
      else if str_eq pkt.kind "threshold"
      then (none, write_threshold V texts store now pkt p)
      else if is_trap pkt
      then (none, process_trap now pkt p)
      else process_metric now pkt p

  abbrev pub is_incomplete : Packet V → Bool
  is_incomplete pkt = str_eq pkt.id "" || str_eq pkt.source_id "" || str_eq pkt.name ""

  -- process: the row of a metric packet.
  unfoldable pub process : IngestConfig → ℕ → Packet V → Worker → Option (MetricRow V) × Worker
  unfolding seen_before route
  process cfg now pkt w =
      let (dup, dedup') = seen_before cfg pkt w.dedup in
      let (row, pipeline') = route now (normalize V texts now pkt) w.pipeline in
      if is_incomplete pkt
      then (none, w)
      else if dup
      then (none, record w { dedup = dedup' })
      else (row, record { pipeline = pipeline'; dedup = dedup' })

  energy_row : String → Packet V → EnergyRow V
  energy_row device_id pkt =
      let is_circuit = texts.has_prefix "Ckt" pkt.tag in
      let is_phase = str_eq pkt.tag "PhA" || str_eq pkt.tag "PhB" || str_eq pkt.tag "PhC" in
      record {
        device_id = device_id;
        ts = pkt.timestamp_ns;
        metric_name = pkt.name;
        tag = pkt.tag;
        circuit = if is_circuit then pkt.tag else "";
        phase = if not is_circuit && is_phase then pkt.tag else "";
        value = pkt.value;
        attributes = map_without energy_keys pkt.meta;
        collector_agent = or_text "EDR" (meta_at V "collector_agent" pkt);
        collector_protocol = or_text "BACNET" (meta_at V "collector_protocol" pkt);
      }

  -- processEnergy.
  unfoldable pub process_energy : ℕ → Packet V → Worker → Option (EnergyRow V) × Worker
  unfolding energy_row
  process_energy now pkt w =
      let n = normalize V texts now pkt in
      let (device_id, pipeline') = lookup_or_register V texts store now n w.pipeline in
      let after : Worker = record w { pipeline = pipeline' } in
      if is_incomplete pkt
      then (none, w)
      else if str_eq device_id ""
      then (none, after)
      else (some (energy_row device_id n), after)

  -- The rows that a worker buffers, and those that it has handed to the database.
  pub record Rows : Type 0 where
    pub rows : List (MetricRow V)
    pub energy_rows : List (EnergyRow V)
    pub written : List (MetricRow V)
    pub energy_written : List (EnergyRow V)

  unfoldable pub flush_rows : Rows → Rows
  flush_rows r = record {
    rows = [];
    energy_rows = [];
    written = r.written ++ r.rows;
    energy_written = r.energy_written ++ r.energy_rows;
  }

  abbrev pub flush_if : Bool → Rows → Rows
  flush_if full r = if full then flush_rows r else r

  -- A packet of a batch in workerLoop.
  unfoldable pub handle_packet : IngestConfig → ℕ → Packet V → Worker × Rows → Worker × Rows
  unfolding flush_rows
  handle_packet cfg now pkt (w, r) =
      let (energy, we) = process_energy now pkt w in
      let (metric, wm) = process cfg now pkt w in
      if str_eq pkt.kind "energy"
      then elim energy [
        | none ↦ (we, r)
        | some row ↦
            let more = r.energy_rows ++ row ∷ [] in
            (we, flush_if (leb cfg.buffer_rows (length more)) (record r { energy_rows = more }))
      ]
      else elim metric [
        | none ↦ (wm, r)
        | some row ↦
            let more = r.rows ++ row ∷ [] in
            (wm, flush_if (leb cfg.buffer_rows (length more)) (record r { rows = more }))
      ]
