-- ===== src/Forward/Chunk/Split.antt =====
-- splitDevice of fwDCS/internal/forwarder/forwarder.go: a device whose samples are too many for a
-- POST, in fragments.
pub mod Laws
pub mod Bounds
use dcim_data_reader.Prelude.{
  ℕ, ◌+◌, Bool, false, ◌&&◌, none, List, [], ◌∷◌, ◌++◌, ltb, length, if◌then◌else◌,
}
use dcim_data_reader.Forward.Payload.{AggDevice, AggMetric, AggEnergyMetric, AggTopoLink, AggEvent}

-- jsonLen at the types that it is called at.
pub record JsonLen (V : Type 0) : Type 0 where
  pub device : AggDevice V → ℕ
  pub metric : AggMetric V → ℕ
  pub energy : AggEnergyMetric V → ℕ
  pub link : AggTopoLink → ℕ
  pub event : AggEvent → ℕ

module _ (V : Type 0) (len : JsonLen V) where
  -- The device without its samples.
  unfoldable pub bare : AggDevice V → AggDevice V
  bare d = record d { metrics = []; energy_metrics = [] }

  -- What identifies the device in a later fragment.
  unfoldable pub stub : AggDevice V → AggDevice V
  stub d = record {
    id = d.id;
    hostname = d.hostname;
    device_type = d.device_type;
    vendor = "";
    model_name = "";
    os_name = "";
    os_version = "";
    sys_oid = "";
    sys_description = "";
    sys_location = "";
    mgmt_ip = "";
    prod_ip = "";
    loopback_ip = "";
    oob_ip = "";
    snmp_enabled = false;
    gnmi_enabled = false;
    snmp_port = 0;
    snmp_version = 0;
    gnmi_port = 0;
    collector_agent = "";
    is_reachable = d.is_reachable;
    country = "";
    datacenter_city = "";
    datacenter = "";
    room = "";
    rack_row = none;
    rack_num = none;
    rack_unit = none;
    power_draw_w = none;
    power_state = none;
    device_role = "";
    role_confidence = none;
    role_source = "";
    role_overridden = false;
    interfaces = [];
    metrics = [];
    energy_metrics = [];
  }

  -- The variables of the loops.
  pub record Splitting : Type 0 where
    pub frags : List (AggDevice V)
    pub cur : AggDevice V
    pub cur_bytes : ℕ

  unfoldable pub samples : AggDevice V → ℕ
  samples d = length d.metrics + length d.energy_metrics

  -- The closure `flush`.
  unfoldable pub flush : AggDevice V → Splitting → Splitting
  unfolding stub
  flush d s = record {
    frags = s.frags ++ s.cur ∷ [];
    cur = stub d;
    cur_bytes = len.device (stub d);
  }

  -- A fragment with a sample and so many bytes more, after a flush where they do not fit.
  unfoldable pub room_for : AggDevice V → ℕ → ℕ → Splitting → Splitting
  unfolding flush samples
  room_for d budget bytes s =
      if ltb 0 (samples s.cur) && ltb budget (s.cur_bytes + bytes) then flush d s else s

  unfoldable pub add_metric : AggMetric V → ℕ → Splitting → Splitting
  add_metric m bytes s = record s {
    cur = record s.cur { metrics = s.cur.metrics ++ m ∷ [] };
    cur_bytes = s.cur_bytes + bytes;
  }

  unfoldable pub add_energy : AggEnergyMetric V → ℕ → Splitting → Splitting
  add_energy e bytes s = record s {
    cur = record s.cur { energy_metrics = s.cur.energy_metrics ++ e ∷ [] };
    cur_bytes = s.cur_bytes + bytes;
  }

  unfoldable pub split_metrics : AggDevice V → ℕ → List (AggMetric V) → Splitting → Splitting
  unfolding room_for add_metric
  split_metrics d budget [] s = s
  split_metrics d budget (m ∷ ms) s =
      let bytes = len.metric m in
      split_metrics d budget ms (add_metric m bytes (room_for d budget bytes s))

  unfoldable pub split_energy : AggDevice V → ℕ → List (AggEnergyMetric V) → Splitting → Splitting
  unfolding room_for add_energy
  split_energy d budget [] s = s
  split_energy d budget (e ∷ es) s =
      let bytes = len.energy e in
      split_energy d budget es (add_energy e bytes (room_for d budget bytes s))

  unfoldable pub split_device : AggDevice V → ℕ → List (AggDevice V)
  unfolding bare split_metrics split_energy
  split_device d budget =
      let head : Splitting = record { frags = []; cur = bare d; cur_bytes = len.device (bare d) } in
      let s = split_energy d budget d.energy_metrics (split_metrics d budget d.metrics head) in
      s.frags ++ s.cur ∷ []
