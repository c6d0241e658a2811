-- ===== src/Tests/Worker.antt =====
-- The theorems on the ingest workers at a database of one device (fwDCS/internal/ingest/worker.go).
use dcim_data_reader.Prelude.{
  ℕ, suc, if◌then◌else◌, ◌≡◌, refl, arith, true, false, none, some, [], ◌∷◌, ◌++◌, inr, String,
  str_eq,
}
use dcim_data_reader.Prelude.Dict.{lookup}
use dcim_data_reader.Ingest.Packet.{Texts, Packet, IsRecent, meta_at, normalize}
use dcim_data_reader.Ingest.Links.{LinkRow}
use dcim_data_reader.Ingest.Cache.{get}
use dcim_data_reader.Ingest.Worker.{Store, Pipeline, handle_link_trap, lookup_or_register}
use dcim_data_reader.Ingest.Worker.Process.{
  Worker, Rows, process, process_metric, route, handle_packet, is_incomplete,
}
use dcim_data_reader.Ingest.Worker.Rows.{IngestConfig, MetricRow, map_without}
use dcim_data_reader.Ingest.Worker.Laws.{
  process-IsRowOf, handle_packet-rows, IsBuffered, all_rows, all_energy_rows, row_of,
}
use dcim_data_reader.Ingest.Worker.LinkTraps.{handle_link_trap-again}
use dcim_data_reader.Tests.Dedup.{list_redis}

abbrev plain_texts : Texts
plain_texts = record { trim = λ text. text; has_prefix = λ prefix text. false; atoi = λ text. none }

abbrev a_row : LinkRow
a_row = record {
  link_id = "l1";
  layer = "";
  src_device_id = "d1";
  src_hostname = "sw1";
  src_port = "3";
  dst_device_id = "d2";
  dst_hostname = "sw2";
  dst_port = "4";
}

-- The peer's row of the same link.
abbrev peer_row : LinkRow
peer_row = record {
  link_id = "l2";
  layer = "";
  src_device_id = "d2";
  src_hostname = "sw2";
  src_port = "4";
  dst_device_id = "d1";
  dst_hostname = "sw1";
  dst_port = "3";
}

-- The number of writes; every packet is of the device "d1".
abbrev a_store : Store ℕ
a_store = record {
  State = ℕ;
  device_by_source = λ pkt s. "d1";
  device_by_ip = λ pkt ip s. none;
  upsert_device = λ pkt s. (true, suc s);
  upsert_interface = λ d n i spd op adm s. ("i1", suc s);
  interface_by_index = λ d i s. "";
  upsert_interface_address = λ i a f s. suc s;
  set_power_state = λ d n s. suc s;
  upsert_threshold = λ d r n s. suc s;
  write_topology_link = λ pkt s. suc s;
  write_event = λ d h pkt s. suc s;
  correlate_link = λ d i n s. some (some (if str_eq d "d1" then a_row else peer_row));
  reachable = λ s. true;
  int_of = λ v. v;
}

abbrev a_packet : String → String → Packet ℕ
a_packet kind name = record {
  id = "p1";
  org_id = "";
  datacenter_id = "";
  floor_id = "";
  network_id = "";
  group_id = "";
  source_id = "sw1";
  reader_id = "";
  timestamp_ns = 1;
  name = name;
  tag = "";
  value = 5;
  meta = [];
  kind = kind;
  nonce = 1;
}

abbrev a_pipeline : Pipeline ℕ plain_texts a_store
a_pipeline = record {
  db = 0;
  links =
      record { layer = "network"; src_device_id = "d1"; dst_device_id = "d2"; is_active = true }
      ∷ [];
  dev_cache = record { cap = 2; ttl = 0; entries = [] };
  if_cache = record { cap = 2; ttl = 0; entries = [] };
}

handle_link_trap-again_example :
    let p' =
      (handle_link_trap ℕ plain_texts a_store "d1" "sw1"
        (a_packet "trap" "linkDown")
        a_pipeline).1 in
    handle_link_trap ℕ plain_texts a_store "d2" "sw2" (a_packet "trap" "linkDown") p' ≡ (true, p')
handle_link_trap-again_example =
    handle_link_trap-again ℕ plain_texts a_store "d1" "d2" "sw1" "sw2" (a_packet "trap" "linkDown")
      (a_packet "trap" "linkDown") a_pipeline a_row peer_row refl refl (refl, inr (refl, refl)) refl
      refl refl

abbrev a_worker : Worker ℕ plain_texts a_store list_redis
a_worker = record { pipeline = a_pipeline; dedup = none }

abbrev ingest_config : IngestConfig
ingest_config = record { buffer_rows = 2; dedup_metrics = false; dedup_events = true }

abbrev a_metric : Packet ℕ
a_metric = a_packet "metric" "cpu.load"

abbrev a_metric_row : MetricRow ℕ
a_metric_row = record {
  device_id = "d1";
  ts = 1;
  metric_name = "cpu.load";
  tag = "";
  value = 5;
  attributes = [];
  collector_agent = "EDR";
  collector_protocol = "SNMP";
  interface_id = "";
}

row_made :
    (process ℕ plain_texts a_store list_redis ingest_config 2 a_metric a_worker).0
    ≡ some a_metric_row
unfolding process route process_metric lookup_or_register normalize meta_at get map_without lookup
row_made = refl

process-IsRowOf_example :
    (str_eq a_metric_row.device_id "" ≡ false)
    × (a_metric_row.value ≡ a_metric.value)
    × IsRecent ℕ 2 a_metric_row.ts
    × (is_incomplete ℕ plain_texts a_store list_redis a_metric ≡ false)
process-IsRowOf_example =
    process-IsRowOf ℕ plain_texts a_store list_redis ingest_config 2 a_metric a_worker a_metric_row
      row_made

abbrev one_row : Rows ℕ plain_texts a_store list_redis
one_row = record { rows = a_metric_row ∷ []; energy_rows = []; written = []; energy_written = [] }

handle_packet-rows_example :
    let after =
      (handle_packet ℕ plain_texts a_store list_redis ingest_config 2 a_metric
        (a_worker, one_row)).1 in
    IsBuffered ℕ plain_texts a_store list_redis ingest_config after
    × (all_rows ℕ plain_texts a_store list_redis after
        ≡ (a_metric_row ∷ [])
          ++ row_of (process ℕ plain_texts a_store list_redis ingest_config 2 a_metric a_worker).0)
    × (all_energy_rows ℕ plain_texts a_store list_redis after ≡ [])
handle_packet-rows_example =
    handle_packet-rows ℕ plain_texts a_store list_redis ingest_config 2 a_metric a_worker one_row
      (omega arith) (record { rows_room = omega arith; energy_room = omega arith }) refl
