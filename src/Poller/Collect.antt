-- ===== src/Poller/Collect.antt =====
-- The tiers of SNMP work (fwEDR/internal/snmp/metrics.go): which walks Collect runs for a tier and a
-- type of device, and which of their errors it passes on.
use dcim_data_reader.Prelude.{
  ℕ, Bool, true, false, ◌||◌, List, [], ◌++◌, String, str_eq, if◌then◌else◌,
}

pub data Tier : Type 0 where
  fast medium slow topology environment server_health : Tier

-- `int(tier)`
abbrev pub tier_index : Tier → ℕ
tier_index fast = 0
tier_index medium = 1
tier_index slow = 2
tier_index topology = 3
tier_index environment = 4
tier_index server_health = 5

abbrev pub is_fast : Tier → Bool
is_fast fast = true
is_fast medium = false
is_fast slow = false
is_fast topology = false
is_fast environment = false
is_fast server_health = false

module _ (Packet : Type 0) where
  -- What a walk gives: packets, or an error, and whether its text says that it is a timeout.
  pub data Walk : Type 0 where
    answers : List Packet → Walk
    fails : Bool → Walk

  -- The walks of a device: collectSystem, collectInterfacesStatus, and so on.
  pub record Device : Type 0 where
    pub system : Walk
    pub interfaces_status : Walk
    pub interface_addresses : List Packet
    pub interfaces_counters : Walk
    pub server_hr : Walk
    pub ucd : Walk
    pub ups : Walk
    pub sensors : Walk
    pub pdu : Walk
    pub generator : Walk
    pub server_temp : Walk
    pub ups_temp : Walk
    pub ups_enterprise : Walk
    pub lldp : Walk

  -- `if p, err := ...; err == nil { pkts = append(pkts, p...) }`
  best_effort : Walk → List Packet
  best_effort (answers pkts) = pkts
  best_effort (fails timeout) = []

  and_then : Walk → List Packet → Walk
  and_then (answers pkts) more = answers (pkts ++ more)
  and_then (fails timeout) more = fails timeout

  slow_extras : String → Device → List Packet
  unfolding best_effort
  slow_extras device_type d =
      if str_eq device_type "server"
      then best_effort d.server_hr ++ best_effort d.ucd
      else if str_eq device_type "ups"
      then best_effort d.ups
      else if str_eq device_type "sensor"
      then best_effort d.sensors
      else []

  environment_packets : String → Device → List Packet
  unfolding best_effort
  environment_packets device_type d =
      if str_eq device_type "sensor"
      then best_effort d.sensors
      else if str_eq device_type "pdu" || str_eq device_type "floor_pdu"
      then best_effort d.pdu
      else if str_eq device_type "generator"
      then best_effort d.generator
      else if str_eq device_type "server"
      then best_effort d.server_temp
      else if str_eq device_type "ups"
      then best_effort d.ups_temp ++ best_effort d.ups_enterprise
      else []

  is_lldp_type : String → Bool
  is_lldp_type device_type =
      str_eq device_type "router"
      || str_eq device_type "switch"
      || str_eq device_type "firewall"
      || str_eq device_type "load_balancer"
      || str_eq device_type "oob_switch"

  unfoldable pub collect : Tier → String → Device → Walk
  unfolding best_effort and_then slow_extras environment_packets is_lldp_type
  collect fast device_type d = d.system
  collect medium device_type d = and_then d.interfaces_status d.interface_addresses
  collect slow device_type d = and_then d.interfaces_counters (slow_extras device_type d)
  collect environment device_type d = answers (environment_packets device_type d)
  collect server_health device_type d =
      answers (if str_eq device_type "server" then best_effort d.ucd else [])
  collect topology device_type d =
      answers (if is_lldp_type device_type then best_effort d.lldp else [])
