-- ===== src/Forward/Queries.antt =====
-- What a push reads: the queries of pushNetwork of fwDCS/internal/forwarder/forwarder.go behind
-- their gates, the devices that only have new samples or are at the ends of links, and their
-- interfaces and addresses.
use dcim_data_reader.Prelude.{
  ℕ, ◌*◌, Bool, true, false, ◌||◌, Option, none, some, List, [], ◌∷◌, ◌++◌, map, String, str_eq,
  ltb, length, if◌then◌else◌, ok,
}
use dcim_data_reader.Forward.Rows.{
  FwdDevice, FwdInterface, FwdAddress, FwdMetric, FwdEnergy, FwdTopologyLink, FwdEvent,
}
use dcim_data_reader.Forward.Payload.{AggPayload}
use dcim_data_reader.Forward.Chunk.Split.{JsonLen}
use dcim_data_reader.Forward.Convert.{Hydration, group_rows}
use dcim_data_reader.Forward.Scope.{AggregatorConfig, build_payloads}
use dcim_data_reader.Forward.Gate.{max_idle_skips, should_poll, record_poll}
use dcim_data_reader.Forward.Post.{Aggregator}
use dcim_data_reader.Forward.Cursor.{get_cursor}
use dcim_data_reader.Forward.Action.{Db, World, Action, return, ◌>>=◌, ask}

-- The rows that the five queries of a push give.
pub record Batch (V : Type 0) : Type 0 where
  pub devices : List (FwdDevice V)
  pub metrics : List (FwdMetric V)
  pub energy : List (FwdEnergy V)
  pub links : List FwdTopologyLink
  pub events : List FwdEvent

unfoldable pub batch_limit_of : AggregatorConfig → ℕ
batch_limit_of cfg = if ltb 0 cfg.batch_limit then cfg.batch_limit else 1000

is_listed : String → List String → Bool
is_listed id [] = false
is_listed id (x ∷ xs) = str_eq id x || is_listed id xs

-- addExtra, for the keys of a map.
unfoldable pub add_extras :
    {A : Type 0} → List String → List (String × A) → List String → List String
unfolding is_listed
add_extras changed [] extra = extra
add_extras changed (entry ∷ m) extra =
    add_extras changed m (
      if is_listed entry.0 changed || is_listed entry.0 extra then extra else extra ++ entry.0 ∷ [])

add_host : String → List String → List String
unfolding is_listed
add_host host hosts = if str_eq host "" || is_listed host hosts then hosts else hosts ++ host ∷ []

-- The hosts at the ends of the links.
unfoldable pub link_hosts : List FwdTopologyLink → List String → List String
unfolding add_host
link_hosts [] hosts = hosts
link_hosts (tl ∷ tls) hosts =
    link_hosts tls (add_host tl.dst_hostname (add_host tl.src_hostname hosts))

module _ (V : Type 0) where
  device_ids : List (FwdDevice V) → List String
  device_ids ds = map (λ d. d.id) ds

  -- The devices that are not yet among the others.
  unfoldable pub add_unseen : List (FwdDevice V) → List (FwdDevice V) → List (FwdDevice V)
  unfolding is_listed device_ids
  add_unseen [] all = all
  add_unseen (d ∷ ds) all =
      add_unseen ds (if is_listed d.id (device_ids all) then all else all ++ d ∷ [])

module _ (V : Type 0) (cfg : AggregatorConfig) (rfc3339 : ℕ → String) (len : JsonLen V) (db : Db V)
    (agg : Aggregator V) where
  -- GetForwarderCursor, whose error is dropped.
  unfoldable pub read_cursor : String → String → World V → ℕ
  unfolding get_cursor
  read_cursor name net_id w =
      if db.reads_cursor name net_id then get_cursor name net_id w.cursors else 0

  -- `force || f.shouldPoll(table, netID)`
  unfoldable pub gate_opens : Bool → String → String → World V → Bool × World V
  unfolding should_poll
  gate_opens true table net_id w = (true, w)
  gate_opens false table net_id w =
      let (asks, gates) = should_poll (max_idle_skips cfg) table net_id w.gates in
      (asks, record w { gates = gates })

  unfoldable pub after_query : {A : Type 0} → String → String → Option (List A) → Action V (List A)
  unfolding ask record_poll
  after_query table net_id none w = ask table none w
  after_query table net_id (some rows) w = (
    ok rows,
    record w {
      gates = record_poll (max_idle_skips cfg) table net_id (ltb 0 (length rows)) w.gates;
    },
  )

  -- The query of a table, where it is asked.
  unfoldable pub run_query :
      {A : Type 0} → Bool → String → String → (ℕ → Option (List A)) → Action V (List A)
  unfolding after_query read_cursor
  run_query true table net_id rows_after w =
      after_query table net_id (rows_after (read_cursor table net_id w)) w
  run_query false table net_id rows_after w = (ok [], w)

  unfoldable pub query_table :
      {A : Type 0} → Bool → String → String → (ℕ → Option (List A)) → Action V (List A)
  unfolding gate_opens run_query
  query_table force table net_id rows_after w =
      let (asks, w') = gate_opens force table net_id w in run_query asks table net_id rows_after w'

  unfoldable pub query_devices : Bool → String → Action V (List (FwdDevice V))
  unfolding query_table batch_limit_of
  query_devices force net_id =
      query_table force "devices" net_id
        (λ since. db.devices_updated_since net_id since (batch_limit_of cfg))

  unfoldable pub query_metrics : Bool → String → Action V (List (FwdMetric V))
  unfolding query_table batch_limit_of
  query_metrics force net_id =
      query_table force "metrics" net_id
        (λ since. db.metrics_since net_id since (batch_limit_of cfg * 50))

  unfoldable pub query_energy : Bool → String → Action V (List (FwdEnergy V))
  unfolding query_table batch_limit_of
  query_energy force net_id =
      query_table force "energy" net_id
        (λ since. db.energy_since net_id since (batch_limit_of cfg * 50))

  unfoldable pub query_links : Bool → String → Action V (List FwdTopologyLink)
  unfolding query_table batch_limit_of
  query_links force net_id =
      query_table force "topology" net_id
        (λ since. db.topology_links_since net_id since (batch_limit_of cfg))

  unfoldable pub query_events : Bool → String → Action V (List FwdEvent)
  unfolding query_table batch_limit_of
  query_events force net_id =
      query_table force "events" net_id (λ since. db.events_since net_id since (batch_limit_of cfg))

  unfoldable pub query_batch : Bool → String → Action V (Batch V)
  unfolding query_devices query_metrics query_energy query_links query_events ◌>>=◌ return
  query_batch force net_id = do
    devices ← query_devices force net_id
    metrics ← query_metrics force net_id
    energy ← query_energy force net_id
    links ← query_links force net_id
    events ← query_events force net_id
    return (record {
      devices = devices;
      metrics = metrics;
      energy = energy;
      links = links;
      events = events;
    })

  unfoldable pub query_ends : String → List FwdTopologyLink → Action V (List (FwdDevice V))
  unfolding ask link_hosts
  query_ends net_id links =
      let hosts = link_hosts links [] in
      ask "link-endpoint devices" (db.devices_by_hostnames net_id hosts)

  -- The devices of the links, where there are links.
  unfoldable pub endpoint_devices :
      String → List FwdTopologyLink → List (FwdDevice V) → Action V (List (FwdDevice V))
  unfolding query_ends return ◌>>=◌ add_unseen
  endpoint_devices net_id [] all = return all
  endpoint_devices net_id (tl ∷ tls) all = do
    found ← query_ends net_id (tl ∷ tls)
    return (add_unseen V found all)

  -- The devices that only have new samples.
  unfoldable pub query_extra : Batch V → Action V (List (FwdDevice V))
  unfolding ask add_extras group_rows device_ids
  query_extra b =
      let changed = device_ids V b.devices in
      let with_metrics = add_extras changed (group_rows (λ m. m.device_id) b.metrics []) [] in
      let extra = add_extras changed (group_rows (λ e. e.device_id) b.energy []) with_metrics in
      ask "extra devices" (db.devices_by_ids extra)

  unfoldable pub changed_and_extra : Batch V → Action V (List (FwdDevice V))
  unfolding query_extra return ◌>>=◌
  changed_and_extra b = do found ← query_extra b; return (b.devices ++ found)

  unfoldable pub query_ifaces : List (FwdDevice V) → Action V (List FwdInterface)
  unfolding ask device_ids
  query_ifaces all = ask "interfaces" (db.interfaces_by_device_ids (device_ids V all))

  unfoldable pub query_addrs : List FwdInterface → Action V (List FwdAddress)
  unfolding ask
  query_addrs ifaces =
      let ids = map (λ i. i.id) ifaces in ask "addresses" (db.addresses_by_interface_ids ids)

  -- The maps that buildPayloads is given.
  unfoldable pub hydration : Batch V → List FwdInterface → List FwdAddress → Hydration rfc3339 V
  unfolding group_rows
  hydration b ifaces addrs = record {
    ifaces_by_device = group_rows (λ i. i.device_id) ifaces [];
    addrs_by_iface = group_rows (λ a. a.interface_id) addrs [];
    metrics_by_device = group_rows (λ m. m.device_id) b.metrics [];
    energy_by_device = group_rows (λ e. e.device_id) b.energy [];
  }

  -- The payloads of a batch with its devices.
  unfoldable pub payloads_of :
      String → Batch V → List (FwdDevice V) → Action V (List (AggPayload V))
  unfolding query_ifaces query_addrs hydration return ◌>>=◌ build_payloads
  payloads_of net_id b all = do
    ifaces ← query_ifaces all
    addrs ← query_addrs ifaces
    return (build_payloads V cfg net_id rfc3339 (hydration b ifaces addrs) all b.links b.events)
