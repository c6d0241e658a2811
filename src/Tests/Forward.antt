-- ===== src/Tests/Forward.antt =====
-- Sample runs of the forwarder.
use dcim_data_reader.Prelude.{
  ℕ, ◌+◌, ◌*◌, ◌<◌, ◌≤◌, ◌≡◌, refl, true, false, none, some, List, [], ◌∷◌, ◌++◌, map, String,
  length, decimal, zero, inl, arith, concat_map, All, Among, max, suc,
}
use dcim_data_reader.Forward.Rows.{FwdDevice, FwdMetric, FwdEvent, FwdTopologyLink}
use dcim_data_reader.Forward.Payload.{AggDevice, AggPayload}
use dcim_data_reader.Forward.Convert.{Hydration, agg_device, agg_event, agg_topo_link}
use dcim_data_reader.Forward.Chunk.Split.{JsonLen, split_device}
use dcim_data_reader.Forward.Chunk.Split.Bounds.{IsFragment, split_device-IsFragment}
use dcim_data_reader.Forward.Chunk.{base, device_chunks, chunk_payload}
use dcim_data_reader.Forward.Chunk.Shape.{IsBounded, IsDeviceChunk}
use dcim_data_reader.Forward.Chunk.Order.{IsTailed, chunk_payload-IsTailed}
use dcim_data_reader.Forward.Chunk.Laws.{chunk_payload-contents, chunk_payload-IsBounded}
use dcim_data_reader.Forward.Scope.{
  AggregatorConfig, ScopeKey, device_scope, event_scope, build_payloads,
}
use dcim_data_reader.Forward.Scope.Laws.{scope_payload, build_payloads-scopes}
use dcim_data_reader.Forward.Gate.{max_idle_skips, interval_of, should_poll}
use dcim_data_reader.Forward.Gate.Laws.{ask, tell, run_calls, asked, run_calls-should_poll}
use dcim_data_reader.Forward.Post.{
  Aggregator, AggResponse, Reply, reply, network_error, post_with_retry, http_status,
}
use dcim_data_reader.Forward.Post.Laws.{Accepts, IsRetried, replies_before, post_with_retry-Accepts}
use dcim_data_reader.Forward.Cursor.{get_cursor, pending, rows_since, next_cursor}
use dcim_data_reader.Forward.Cursor.Paging.{IsAscending, rows_since-pending}
use dcim_data_reader.Forward.Action.{Db, World, post_failed}
use dcim_data_reader.Forward.Tables.{Tables, db_of}
use dcim_data_reader.Forward.Push.{push_network}
use dcim_data_reader.Forward.Commands.{
  PullResponse, Control, answered, pull_ui_commands, ui_cursor_name,
}
use dcim_data_reader.Forward.Commands.Laws.{pull_ui_commands_lost}
use dcim_data_reader.Forward.Push.Keeps.{push_network-err}
use dcim_data_reader.Forward.Push.Delivery.{IsCovered, push_network-IsCovered}

abbrev device : String → String → FwdDevice ℕ
device id host = record {
  id = id;
  datacenter_id = "";
  floor_id = "";
  hostname = host;
  device_type = "switch";
  vendor = "";
  model_name = "";
  os_name = "";
  os_version = "";
  sys_oid = "";
  sys_descr = "";
  sys_location = "";
  mgmt_ip = "";
  prod_ip = "";
  loopback_ip = "";
  oob_ip = "";
  snmp_enabled = false;
  gnmi_enabled = false;
  snmp_port = 0;
  snmp_version = 0;
  gnmi_port = 0;
  collector_agent = "";
  is_reachable = true;
  country = "";
  datacenter_city = "";
  datacenter = "";
  room = "";
  rack_row = none;
  rack_num = none;
  rack_unit = none;
  power_draw_w = none;
  power_state = none;
  device_role = "";
  role_confidence = none;
  role_source = "";
  role_overridden = false;
  updated_at = 5;
}

abbrev metric : String → FwdMetric ℕ
metric id = record {
  device_id = id;
  interface_id = "";
  metric_name = "if.in";
  value = 7;
  tag = "";
  attributes = "";
  collector_agent = "";
  collector_protocol = "";
  interface_name = "";
  ts = 6;
}

abbrev link : FwdTopologyLink
link = record {
  id = "l";
  src_datacenter_id = "";
  src_floor_id = "";
  layer = "";
  src_device_id = "";
  src_interface_id = "";
  src_hostname = "sw1";
  src_port_name = "";
  dst_device_id = "";
  dst_interface_id = "";
  dst_hostname = "sw2";
  dst_port_name = "";
  link_speed_mbps = none;
  link_type = "";
  protocol = "";
  relation = "";
  is_active = false;
  updated_at = 4;
}

abbrev event : String → ℕ → FwdEvent
event id ts = record {
  id = id;
  device_id = "";
  datacenter_id = "";
  floor_id = "";
  hostname = "sw1";
  kind = "trap";
  event_name = "";
  severity = "";
  trap_oid = "";
  source_ip = "";
  collector_agent = "";
  src_port_name = "";
  dst_device_id = "";
  dst_hostname = "";
  dst_port_name = "";
  link_id = "";
  ts = ts;
  payload = "";
}

abbrev cfg : AggregatorConfig
cfg = record {
  interval_ms = 5000;
  batch_limit = 2;
  idle_interval_ms = 60000;
  event_debounce_ms = 0;
  org_id = "org";
  network_id = "net";
  group_id = "grp";
  default_datacenter_id = "";
  default_floor_id = "f1";
}

-- Two samples fill a device, and one link or event a chunk.
abbrev lens : JsonLen ℕ
lens = record {
  device = λ d. 100 + 300000 * (length d.metrics + length d.energy_metrics);
  metric = λ m. 300000;
  energy = λ e. 300000;
  link = λ l. 300000;
  event = λ e. 300000;
}

abbrev sample : Hydration (decimal 20) ℕ
sample = record {
  ifaces_by_device = [];
  addrs_by_iface = [];
  metrics_by_device = ("1", metric "1" ∷ metric "1" ∷ []) ∷ [];
  energy_by_device = [];
}

abbrev big : AggDevice ℕ
big = agg_device (decimal 20) ℕ sample (device "1" "sw1")

abbrev payload : AggPayload ℕ
payload = record {
  org_id = "org";
  datacenter_id = "unknown";
  floor_id = "f1";
  network_id = "net";
  group_id = "grp";
  devices = agg_device (decimal 20) ℕ sample (device "2" "sw2") ∷ big ∷ [];
  topology_links = agg_topo_link link ∷ [];
  events = agg_event (decimal 20) (event "e" 1) ∷ [];
}

-- The plain device, the two fragments of the other, the link, and the event.
chunk_count : length (chunk_payload ℕ lens payload) ≡ 5
unfolding chunk_payload agg_device split_device
chunk_count = refl

chunk_payload-contents_example :
    let chunks = chunk_payload ℕ lens payload in
    let devices = concat_map (λ c. c.devices) chunks in
    (concat_map (λ d. d.metrics) devices ≡ concat_map (λ d. d.metrics) payload.devices)
    × (concat_map (λ d. d.energy_metrics) devices
        ≡ concat_map (λ d. d.energy_metrics) payload.devices)
    × (concat_map (λ d. d.interfaces) devices ≡ concat_map (λ d. d.interfaces) payload.devices)
    × (concat_map (λ c. c.topology_links) chunks ≡ payload.topology_links)
    × (concat_map (λ c. c.events) chunks ≡ payload.events)
chunk_payload-contents_example = chunk_payload-contents ℕ lens payload

chunk_payload-IsBounded_example :
    All
      (λ c. (base ℕ lens c ≡ base ℕ lens payload) × IsBounded ℕ lens c)
      (chunk_payload ℕ lens payload)
chunk_payload-IsBounded_example = chunk_payload-IsBounded ℕ lens payload

chunk_payload-IsTailed_example :
    All (IsDeviceChunk ℕ lens payload) (device_chunks ℕ lens payload)
    × IsTailed ℕ lens payload (device_chunks ℕ lens payload) (chunk_payload ℕ lens payload)
chunk_payload-IsTailed_example = chunk_payload-IsTailed ℕ lens payload

split_device-IsFragment_example :
    All (IsFragment ℕ lens big 400000) (split_device ℕ lens big 400000)
split_device-IsFragment_example = split_device-IsFragment ℕ lens big 400000

abbrev elsewhere : FwdDevice ℕ
elsewhere = record (device "3" "sw3") { datacenter_id = "dc2" }

-- Its ends are in two data centers.
abbrev cross_link : FwdTopologyLink
cross_link = record link { dst_hostname = "sw3" }

build_payloads-scopes_example :
    let ds = device "1" "sw1" ∷ device "2" "sw2" ∷ elsewhere ∷ [] in
    let tls = link ∷ cross_link ∷ [] in
    let evs = event "e" 1 ∷ [] in
    let payloads = build_payloads ℕ cfg "net" (decimal 20) sample ds tls evs in
    let whole = scope_payload ℕ cfg "net" (decimal 20) sample ds tls evs in
    All (λ p. (k : ScopeKey) × (p ≡ whole k)) payloads
    × All (λ d. Among (whole (device_scope ℕ cfg "net" d)) payloads) ds
    × All (λ ev. Among (whole (event_scope ℕ cfg "net" ev)) payloads) evs
build_payloads-scopes_example =
    build_payloads-scopes ℕ cfg "net" (decimal 20) sample
      (device "1" "sw1" ∷ device "2" "sw2" ∷ elsewhere ∷ []) (link ∷ cross_link ∷ [])
      (event "e" 1 ∷ [])

run_calls-should_poll_example :
    let m = max_idle_skips cfg in
    let calls = ask "devices" "net" ∷ tell "devices" "net" false ∷ [] in
    (i : ℕ) × ((suc i * interval_of cfg ≤ max cfg.idle_interval_ms (interval_of cfg))
      × ((should_poll m "devices" "net" (asked m "devices" "net" i (run_calls m calls []))).0
          ≡ true))
run_calls-should_poll_example =
    run_calls-should_poll cfg (ask "devices" "net" ∷ tell "devices" "net" false ∷ []) "devices"
      "net"

abbrev done : AggResponse
done = record { success = true; message = ""; devices = 1; topology_links = 0; events = 0 }

-- No answer, a 503, and then a success.
abbrev answer : ℕ → Reply
answer zero = network_error
answer (suc zero) = reply 503 none
answer (suc (suc n)) = reply 200 (some done)

abbrev slow : Aggregator ℕ
slow = record {
  marshals = λ p. true;
  builds_request = true;
  stops = λ p n. false;
  answers = λ p n. answer n;
}

post_with_retry-Accepts_example :
    (k : ℕ) × ((k < 3)
      × (Accepts done (slow.answers payload k) × All IsRetried (replies_before ℕ slow payload k)))
unfolding post_with_retry
post_with_retry-Accepts_example = post_with_retry-Accepts ℕ slow payload done refl

abbrev events : List FwdEvent
events = event "a" 3 ∷ event "b" 5 ∷ event "c" 9 ∷ []

events-IsAscending : IsAscending (λ e. e.ts) events
unfolding IsAscending
events-IsAscending = ((omega arith, (omega arith, tt)), ((omega arith, tt), (tt, tt)))

rows_since-pending_example :
    let batch = rows_since (λ e. e.ts) 3 1 events in
    batch ++ pending (λ e. e.ts) (next_cursor (λ e. e.ts) 3 batch) events
    ≡ pending (λ e. e.ts) 3 events
rows_since-pending_example = rows_since-pending (λ e. e.ts) 3 1 events events-IsAscending

-- Two events of one time, and a limit of one: the second is never read.
tie_skipped :
    let rows = event "a" 3 ∷ event "b" 3 ∷ [] in
    let batch = rows_since (λ e. e.ts) 0 1 rows in
    rows_since (λ e. e.ts) (next_cursor (λ e. e.ts) 0 batch) 1 rows ≡ []
unfolding rows_since next_cursor pending
tie_skipped = refl

abbrev tables : Tables ℕ
tables = record {
  devices = ("net", device "1" "sw1") ∷ [];
  interfaces = [];
  addresses = [];
  metrics = [];
  energy = [];
  links = [];
  events = map (λ ev. ("net", ev)) events;
}

abbrev db : Db ℕ
db = db_of ℕ tables

abbrev fresh : World ℕ
fresh = record { gates = []; cursors = []; sent = []; commands = [] }

abbrev down : Aggregator ℕ
down = record {
  marshals = λ p. true;
  builds_request = true;
  stops = λ p n. false;
  answers = λ p n. reply 413 none;
}

push_network-err_example :
    (push_network ℕ cfg (decimal 20) lens db down false "net" fresh).1.cursors ≡ fresh.cursors
unfolding push_network max_idle_skips rows_since db_of
push_network-err_example =
    push_network-err ℕ cfg (decimal 20) lens db down false "net" fresh
      (push_network ℕ cfg (decimal 20) lens db down false "net" fresh).1
      (post_failed (http_status 413)) refl

push_network-IsCovered_example :
    IsCovered ℕ cfg
      (decimal 20)
      lens
      db
      slow
      "net"
      events
      (push_network ℕ cfg (decimal 20) lens db slow false "net" fresh).1
unfolding IsCovered get_cursor db_of
push_network-IsCovered_example =
    push_network-IsCovered ℕ cfg (decimal 20) lens db slow false "net" events fresh
      events-IsAscending (λ since limit. refl)
      (inl (omega arith), (inl (omega arith), (inl (omega arith), tt)))

-- The limit is two: the cursor of the events is at the second one.
cursor_moved :
    get_cursor "events" "net"
      (push_network ℕ cfg (decimal 20) lens db slow false "net" fresh).1.cursors
    ≡ 5
unfolding push_network db_of max_idle_skips rows_since build_payloads agg_device chunk_payload
    post_with_retry get_cursor
cursor_moved = refl

abbrev answer_to_pull : PullResponse
answer_to_pull = record {
  ui_changes = record { mgmt_ip = "10.0.0.1"; field = "room"; new_value = "r2" } ∷ [];
  ui_changes_cursor = "now";
}

-- The Aggregator answers, and the database stores no command.
abbrev no_inserts : Control
no_inserts = record {
  commands_updated_since = λ since limit. [];
  thresholds_updated_since = λ net_id since limit. [];
  post = λ req. answered 200 (some answer_to_pull);
  parse_time = λ text. some 8;
  format_time = λ t. "";
  reads_cursor = λ name. true;
  writes_cursor = λ name. true;
  inserts = λ cmds. false;
}

pull_ui_commands_lost_example :
    let w' = pull_ui_commands ℕ cfg no_inserts "net" fresh in
    (w'.commands ≡ []) × (get_cursor ui_cursor_name "net" w'.cursors ≡ 8)
pull_ui_commands_lost_example =
    pull_ui_commands_lost ℕ cfg no_inserts "net" fresh 200 8 answer_to_pull refl refl refl refl refl
