-- ===== src/Ingest/Worker.antt =====
-- The ingest pipeline of fwDCS/internal/ingest/worker.go: what a worker does with a packet. The
-- database is an interface; what its methods answer comes from queries.
pub mod Rows
pub mod Interfaces
pub mod Process
pub mod Laws
pub mod LinkTraps
use dcim_data_reader.Prelude.{
  ℕ, ◌*◌, Bool, true, false, Option, none, some, List, [], ◌∷◌, String, str_eq, str_append,
  if◌then◌else◌, ◌==◌,
}
use dcim_data_reader.Prelude.Dict.{insert}
use dcim_data_reader.Ingest.Cache.{Lru, get, put, new_lru_with_ttl, flush}
use dcim_data_reader.Ingest.Packet.{Texts, Packet, meta_at}
use dcim_data_reader.Ingest.Links.{LinkRow, TopologyLink, set_link_active}

-- The methods of store.DB that the workers call, without the rows of topology_links that link traps
-- change. A write that fails may leave the database as it was.
pub record Store (V : Type 0) : Type 1 where
  pub State : Type 0
  -- DeviceIDBySource of the packet's scope and source; "" where there is none.
  pub device_by_source : Packet V → State → String
  -- DeviceByIP in the packet's scope: the id and the host name.
  pub device_by_ip : Packet V → String → State → Option (String × String)
  -- Whether it succeeds.
  pub upsert_device : Packet V → State → Bool × State
  -- By device, name, index, speed, operational and administrative status; "" after an error.
  pub upsert_interface : String → String → ℕ → ℕ → ℕ → ℕ → State → String × State
  pub interface_by_index : String → ℕ → State → String
  pub upsert_interface_address : String → String → String → State → State
  pub set_power_state : String → ℕ → State → State
  pub upsert_threshold : String → String → ℕ → State → State
  pub write_topology_link : Packet V → State → State
  pub write_event : String → String → Packet V → State → State
  -- CorrelateLinkByPort of a device, an index and a name of an interface; `none` is an error.
  pub correlate_link : String → Option ℕ → String → State → Option (Option LinkRow)
  -- Whether SetLinkActive gets through to the database.
  pub reachable : State → Bool
  -- int(pkt.Value)
  pub int_of : V → ℕ

module _ (V : Type 0) (texts : Texts) (store : Store V) where
  open store use {
    State, device_by_source, device_by_ip, upsert_device, upsert_interface, interface_by_index,
    upsert_interface_address, set_power_state, upsert_threshold, write_event, correlate_link,
    reachable, int_of,
  }

  pub record Pipeline : Type 0 where
    pub db : State
    pub links : List TopologyLink
    pub dev_cache : Lru
    pub if_cache : Lru

  -- NewPipeline; the time-to-live in seconds is 0 where it is not positive.
  unfoldable pub new_pipeline : ℕ → State → List TopologyLink → Pipeline
  new_pipeline ttl_seconds db links =
      let ttl = if ttl_seconds == 0 then 60 else ttl_seconds in
      record {
        db = db;
        links = links;
        dev_cache = new_lru_with_ttl 10_000 (ttl * 1_000_000_000);
        if_cache = new_lru_with_ttl 100_000 (ttl * 1_000_000_000);
      }

  -- FlushCaches: the numbers of entries dropped.
  unfoldable pub flush_caches : Pipeline → (ℕ × ℕ) × Pipeline
  flush_caches p =
      let (devices, dev_cache') = flush p.dev_cache in
      let (interfaces, if_cache') = flush p.if_cache in
      ((devices, interfaces), record p { dev_cache = dev_cache'; if_cache = if_cache' })

  unfoldable pub dev_key : Packet V → String
  dev_key pkt = str_append pkt.org_id (
      str_append "|" (
        str_append pkt.datacenter_id (
          str_append "|" (
            str_append pkt.floor_id (
              str_append "|" (
                str_append pkt.network_id
                  (str_append "|" (str_append pkt.group_id (str_append "|" pkt.source_id)))))))))

  abbrev is_uptime : Packet V → Bool
  is_uptime pkt = str_eq pkt.name "system.uptime_centiseconds"

  -- `_ = p.db.UpsertDevice(ctx, pkt)`, at a packet that carries the uptime.
  refresh : Packet V → Pipeline → Pipeline
  refresh pkt p = if is_uptime pkt then record p { db = (upsert_device pkt p.db).1 } else p

  cache_device : ℕ → String → String → Pipeline → Pipeline
  cache_device now key id p = record p { dev_cache = put now key id p.dev_cache }

  -- lookupOrRegister, once the cache has missed.
  register : ℕ → Packet V → Pipeline → String × Pipeline
  unfolding refresh cache_device
  register now pkt p =
      let key = dev_key pkt in
      let known = device_by_source pkt p.db in
      let (success, db') = upsert_device pkt p.db in
      let registered : Pipeline = record p { db = db' } in
      let id = device_by_source pkt db' in
      if str_eq known ""
      then if str_eq pkt.kind "metric"
        then if success
          then if str_eq id "" then ("", registered) else (id, cache_device now key id registered)
          else ("", registered)
        else ("", p)
      else (known, refresh pkt (cache_device now key known p))

  unfoldable pub lookup_or_register : ℕ → Packet V → Pipeline → String × Pipeline
  unfolding refresh register
  lookup_or_register now pkt p =
      let (hit, dev_cache') = get now (dev_key pkt) p.dev_cache in
      let looked : Pipeline = record p { dev_cache = dev_cache' } in
      elim hit [ none ↦ register now pkt looked | some id ↦ (id, refresh pkt looked) ]

  -- The first of the addresses that are not empty at which DeviceByIP finds a device.
  unfoldable pub first_by_ip : Packet V → List String → State → Option (String × String)
  first_by_ip pkt [] db = none
  first_by_ip pkt (ip ∷ ips) db =
      let later = first_by_ip pkt ips db in
      if str_eq ip ""
      then later
      else elim (device_by_ip pkt ip db) [ none ↦ later | some d ↦ some d ]

  unfoldable pub resolve_device_id : ℕ → Packet V → Pipeline → String × Pipeline
  resolve_device_id now pkt p =
      let (id, p') = lookup_or_register now pkt p in
      let found =
        first_by_ip pkt
          (pkt.source_id
            ∷ meta_at V "mgmt_ip" pkt
            ∷ meta_at V "device_ip" pkt
            ∷ meta_at V "source_ip" pkt
            ∷ [])
          p'.db in
      if str_eq id "" then (elim found [ none ↦ "" | some d ↦ d.0 ], p') else (id, p')

  unfoldable pub write_device_state : ℕ → Packet V → Pipeline → Pipeline
  write_device_state now pkt p =
      let (id, p') = resolve_device_id now pkt p in
      if str_eq id ""
      then p'
      else if str_eq pkt.name "power_state"
      then record p' { db = set_power_state id (int_of pkt.value) p'.db }
      else p'

  unfoldable pub write_threshold : ℕ → Packet V → Pipeline → Pipeline
  write_threshold now pkt p =
      let (id, p') = resolve_device_id now pkt p in
      if str_eq id ""
      then p'
      else record p' { db = upsert_threshold id pkt.name (int_of pkt.value) p'.db }

  -- The ifIndex of a link trap, which is -1 where it has none.
  pub trap_index : Packet V → Option ℕ
  trap_index pkt =
      let text = meta_at V "vb.1.3.6.1.2.1.2.2.1.1.1" pkt in
      if str_eq text "" then none else texts.atoi (texts.trim text)

  -- The packet of a link event, with the link's own direction.
  with_link : String → LinkRow → Packet V → Packet V
  with_link reporter row pkt = record pkt {
    meta = insert "link_id" row.link_id (
        insert "dst_port_name" row.dst_port (
          insert "dst_hostname" row.dst_hostname (
            insert "dst_device_id" row.dst_device_id
              (insert "src_port_name" row.src_port (insert "reported_by" reporter pkt.meta)))));
  }

  -- The traps that are correlated with a row.
  unfoldable pub link_trap_at : LinkRow → String → Packet V → Pipeline → Bool × Pipeline
  unfolding with_link
  link_trap_at row host pkt p =
      let (changed, links') = set_link_active row (str_eq pkt.name "linkDown") p.links in
      if reachable p.db
      then if changed
        then (
          true,
          record p {
            links = links';
            db = write_event row.src_device_id row.src_hostname (with_link host row pkt) p.db;
          },
        )
        else (true, record p { links = links' })
      else (false, p)

  -- handleLinkTrap: whether it has taken the trap.
  unfoldable pub handle_link_trap : String → String → Packet V → Pipeline → Bool × Pipeline
  unfolding link_trap_at trap_index
  handle_link_trap device_id host pkt p =
      elim (correlate_link device_id (trap_index pkt) (meta_at V "vb.1.3.6.1.2.1.2.2.1.2.1" pkt)
        p.db) [
          | none ↦ (false, p)
          | some none ↦ (false, p)
          | some (some row) ↦ link_trap_at row host pkt p
        ]
