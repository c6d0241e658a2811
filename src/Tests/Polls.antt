-- ===== src/Tests/Polls.antt =====
-- The theorems on polls and walks at a poller of one device (fwEDR/internal/poller/poller.go).
use dcim_data_reader.Prelude.{
  ℕ, ◌+◌, ◌≤◌, ◌<◌, ◌≡◌, ◌↔◌, refl, true, false, none, some, List, [], ◌∷◌, String, if◌then◌else◌,
}
use dcim_data_reader.Prelude.Dict.{lookup}
use dcim_data_reader.Target.{Target}
use dcim_data_reader.Poller.Breaker.{CircuitBreaker, tripped, new_breaker}
use dcim_data_reader.Poller.Health.{paused}
use dcim_data_reader.Poller.Collect.{Device, answers, fails, fast, medium, topology, slow}
use dcim_data_reader.Poller.Sockets.{
  SocketConfig, effective_cap, heavy_cap, heavy_cap-effective_cap,
}
use dcim_data_reader.Poller.Poll.{
  PollConfig, Poller, Meets, breaker_key, poll_snmp, admit, with_breaker, get_breaker,
}
use dcim_data_reader.Poller.Poll.Isolation.{poll_all, poll_all-live_breakers}
use dcim_data_reader.Poller.Poll.Accounting.{IsSized, counted, reaches, poll_snmp-counted}
use dcim_data_reader.Poller.Poll.BestEffort.{poll_snmp-closes}

abbrev pub a_target : Target
a_target = record {
  ip = "10.0.0.7";
  mgmt_ip = "10.0.0.7";
  prod_ip = "";
  loopback_ip = "";
  oob_ip = "";
  gnmi_ip = "10.0.0.7";
  hostname = "sw1";
  device_type = "switch";
  vendor = "generic";
  labels = [];
  snmp_version = 2;
  community = "public";
  caps = 1;
  active_circuits = 0;
  datacenter_id = "";
  floor_id = "";
  model_name = "";
  country = "";
  datacenter_name = "";
  datacenter_city = "";
  room = "";
  floor = "";
  rack_row = 0;
  rack_num = 0;
  rack_unit = 0;
}

abbrev no_hash : String → ℕ
no_hash text = 0

abbrev two_sockets : SocketConfig
two_sockets = record { max_concurrent = 2; shards = 0; shard_base_port = 0 }

abbrev poll_config : PollConfig
poll_config = record {
  sockets = two_sockets;
  breaker_threshold = 2;
  fast_breaker_threshold = 5;
  breaker_cooldown = 10;
  mgmt_port = 0;
  walk_medium = true;
  walk_topology = true;
  walk_slow = true;
  walk_sensors = false;
  walk_server_health = false;
}

abbrev six : List ℕ
six = 0 ∷ 0 ∷ 0 ∷ 0 ∷ 0 ∷ 0 ∷ []

abbrev a_poller : Poller ℕ no_hash
a_poller = record {
  cfg = poll_config;
  live_breakers = [];
  heavy_breakers = [];
  conns = [];
  sessions = 1;
  limiter = none;
  gate = some false;
  health = record { total = 1; pause_until = 0 };
  metrics = record {
    ok_polls = six;
    timeouts = six;
    failures = six;
    breaker_opens = 0;
    mgmt_confirmed = 0;
  };
  throttle = record { window = 0; entries = [] };
  out = [];
}

-- A device of which only the system group answers.
abbrev slow_device : Device ℕ
slow_device = record {
  system = answers (7 ∷ []);
  interfaces_status = fails true;
  interface_addresses = [];
  interfaces_counters = fails true;
  server_hr = fails true;
  ucd = fails true;
  ups = fails true;
  sensors = fails true;
  pdu = fails true;
  generator = fails true;
  server_temp = fails true;
  ups_temp = fails true;
  ups_enterprise = fails true;
  lldp = fails true;
}

abbrev meets : Meets ℕ no_hash
meets = record {
  started = 1;
  ended = 2;
  token = true;
  heavy_slot = true;
  socket = true;
  connected = true;
  device = slow_device;
  deadline = false;
  mgmt_answers = false;
  taken = 9;
}

poll_all-live_breakers_example :
    (poll_all ℕ no_hash
      (record { meets = meets; target = a_target; tier = medium }
        ∷ record { meets = meets; target = a_target; tier = slow }
        ∷ [])
      a_poller).live_breakers
    ≡ []
poll_all-live_breakers_example =
    poll_all-live_breakers ℕ no_hash
      (record { meets = meets; target = a_target; tier = medium }
        ∷ record { meets = meets; target = a_target; tier = slow }
        ∷ [])
      a_poller (refl, (refl, tt))

a_poller-IsSized : IsSized a_poller.metrics
a_poller-IsSized = record { ok_sized = refl; timeouts_sized = refl; failures_sized = refl }

poll_snmp-counted_example :
    counted (poll_snmp ℕ no_hash meets a_target fast a_poller).1.metrics
    ≡ counted a_poller.metrics + (if reaches ℕ no_hash meets a_target fast a_poller then 1 else 0)
poll_snmp-counted_example =
    poll_snmp-counted ℕ no_hash meets a_target fast a_poller a_poller-IsSized

is_reached : reaches ℕ no_hash meets a_target topology a_poller ≡ true
unfolding reaches admit with_breaker get_breaker tripped paused lookup new_breaker
is_reached = refl

poll_snmp-closes_example :
    (b : CircuitBreaker) × (lookup
        (breaker_key a_target)
        (poll_snmp ℕ no_hash meets a_target topology a_poller).1.heavy_breakers
      ≡ some b)
    × (b.fails ≡ 0)
    × (b.open_until ≡ 0)
poll_snmp-closes_example =
    poll_snmp-closes ℕ no_hash meets a_target topology a_poller refl is_reached refl

heavy_cap-effective_cap_example :
    (1 ≤ heavy_cap (effective_cap two_sockets))
    × (heavy_cap (effective_cap two_sockets) ≤ effective_cap two_sockets)
    × ((heavy_cap (effective_cap two_sockets) < effective_cap two_sockets)
        ↔ (1 < effective_cap two_sockets))
    × (1 < 0 → effective_cap two_sockets ≤ 0)
    × (0 < 2 → effective_cap two_sockets ≤ 2)
heavy_cap-effective_cap_example = heavy_cap-effective_cap two_sockets
