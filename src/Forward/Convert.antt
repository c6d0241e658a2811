-- ===== src/Forward/Convert.antt =====
-- The rows as they are sent (buildPayloads of fwDCS/internal/forwarder/forwarder.go). `rfc3339` is the
-- text of a time; a JSON text that is empty or `{}` is left out.
use dcim_data_reader.Prelude.{
  ℕ, ◌||◌, Option, none, some, List, [], ◌∷◌, ◌++◌, map, String, str_eq, if◌then◌else◌,
}
use dcim_data_reader.Prelude.Dict.{lookup, insert}
use dcim_data_reader.Forward.Rows.{
  FwdDevice, FwdInterface, FwdAddress, FwdMetric, FwdEnergy, FwdTopologyLink, FwdEvent,
}
use dcim_data_reader.Forward.Payload.{
  AggAddress, AggInterface, AggMetric, AggEnergyMetric, AggDevice, AggTopoLink, AggEvent,
}

-- `json.RawMessage(text)` where there is one to send.
unfoldable pub raw_message : String → Option String
raw_message text = if str_eq text "" || str_eq text "{}" then none else some text

unfoldable pub or_nil : {A : Type 0} → Option (List A) → List A
or_nil none = []
or_nil (some xs) = xs

-- `for _, row := range rows { m[key(row)] = append(m[key(row)], row) }`
unfoldable pub group_rows :
    {A : Type 0} → (A → String) → List A → List (String × List A) → List (String × List A)
unfolding or_nil insert lookup
group_rows key [] m = m
group_rows key (row ∷ rows) m =
    group_rows key rows (insert (key row) (or_nil (lookup (key row) m) ++ row ∷ []) m)

-- `m[key]`, the nil slice where there is none.
unfoldable pub rows_of : {A : Type 0} → String → List (String × List A) → List A
unfolding or_nil lookup
rows_of key m = or_nil (lookup key m)

unfoldable pub agg_address : FwdAddress → AggAddress
agg_address addr = record {
  id = addr.id;
  interface_id = addr.interface_id;
  address = addr.address;
  address_family = addr.address_family;
  is_primary = addr.is_primary;
  vrf = addr.vrf;
}

unfoldable pub agg_interface : List (String × List FwdAddress) → FwdInterface → AggInterface
unfolding agg_address rows_of
agg_interface addrs_by_iface iface = record {
  id = iface.id;
  device_id = iface.device_id;
  interface_name = iface.interface_name;
  interface_index = iface.interface_index;
  description = iface.description;
  type = iface.type;
  mac_address = iface.mac_address;
  speed_mbps = iface.speed_mbps;
  admin_status = iface.admin_status;
  operational_status = iface.operational_status;
  access_vlan_id = iface.access_vlan_id;
  mtu_bytes = iface.mtu_bytes;
  addresses = map agg_address (rows_of iface.id addrs_by_iface);
}

unfoldable pub agg_topo_link : FwdTopologyLink → AggTopoLink
agg_topo_link tl = record {
  id = tl.id;
  layer = tl.layer;
  src_device_id = tl.src_device_id;
  src_interface_id = tl.src_interface_id;
  src_hostname = tl.src_hostname;
  src_port_name = tl.src_port_name;
  dst_device_id = tl.dst_device_id;
  dst_interface_id = tl.dst_interface_id;
  dst_hostname = tl.dst_hostname;
  dst_port_name = tl.dst_port_name;
  link_speed_mbps = tl.link_speed_mbps;
  link_type = tl.link_type;
  protocol = tl.protocol;
  relation = tl.relation;
  is_active = tl.is_active;
}

module _ (rfc3339 : ℕ → String) where
  unfoldable pub agg_event : FwdEvent → AggEvent
  unfolding raw_message
  agg_event ev = record {
    id = ev.id;
    device_id = ev.device_id;
    hostname = ev.hostname;
    kind = ev.kind;
    event_name = ev.event_name;
    severity = ev.severity;
    trap_oid = ev.trap_oid;
    source_ip = ev.source_ip;
    collector_agent = ev.collector_agent;
    src_port_name = ev.src_port_name;
    dst_device_id = ev.dst_device_id;
    dst_hostname = ev.dst_hostname;
    dst_port_name = ev.dst_port_name;
    link_id = ev.link_id;
    ts = rfc3339 ev.ts;
    payload = raw_message ev.payload;
  }

  module _ (V : Type 0) where
    unfoldable pub agg_metric : FwdMetric V → AggMetric V
    unfolding raw_message
    agg_metric m = record {
      device_id = m.device_id;
      interface_id = m.interface_id;
      metric_name = m.metric_name;
      value = m.value;
      tag = m.tag;
      attributes = raw_message m.attributes;
      collector_agent = m.collector_agent;
      collector_protocol = m.collector_protocol;
      interface_name = m.interface_name;
      ts = rfc3339 m.ts;
    }

    unfoldable pub agg_energy_metric : FwdEnergy V → AggEnergyMetric V
    unfolding raw_message
    agg_energy_metric e = record {
      device_id = e.device_id;
      metric_name = e.metric_name;
      value = e.value;
      tag = e.tag;
      circuit = e.circuit;
      phase = e.phase;
      attributes = raw_message e.attributes;
      collector_agent = e.collector_agent;
      collector_protocol = e.collector_protocol;
      ts = rfc3339 e.ts;
    }

    -- What the rows of a push give for a device.
    pub record Hydration : Type 0 where
      pub ifaces_by_device : List (String × List FwdInterface)
      pub addrs_by_iface : List (String × List FwdAddress)
      pub metrics_by_device : List (String × List (FwdMetric V))
      pub energy_by_device : List (String × List (FwdEnergy V))

    unfoldable pub agg_device : Hydration → FwdDevice V → AggDevice V
    unfolding agg_interface agg_metric agg_energy_metric rows_of
    agg_device h d = record {
      id = d.id;
      hostname = d.hostname;
      device_type = d.device_type;
      vendor = d.vendor;
      model_name = d.model_name;
      os_name = d.os_name;
      os_version = d.os_version;
      sys_oid = d.sys_oid;
      sys_description = d.sys_descr;
      sys_location = d.sys_location;
      mgmt_ip = d.mgmt_ip;
      prod_ip = d.prod_ip;
      loopback_ip = d.loopback_ip;
      oob_ip = d.oob_ip;
      snmp_enabled = d.snmp_enabled;
      gnmi_enabled = d.gnmi_enabled;
      snmp_port = d.snmp_port;
      snmp_version = d.snmp_version;
      gnmi_port = d.gnmi_port;
      collector_agent = d.collector_agent;
      is_reachable = d.is_reachable;
      country = d.country;
      datacenter_city = d.datacenter_city;
      datacenter = d.datacenter;
      room = d.room;
      rack_row = d.rack_row;
      rack_num = d.rack_num;
      rack_unit = d.rack_unit;
      power_draw_w = d.power_draw_w;
      power_state = d.power_state;
      device_role = d.device_role;
      role_confidence = d.role_confidence;
      role_source = d.role_source;
      role_overridden = d.role_overridden;
      interfaces = map (agg_interface h.addrs_by_iface) (rows_of d.id h.ifaces_by_device);
      metrics = map agg_metric (rows_of d.id h.metrics_by_device);
      energy_metrics = map agg_energy_metric (rows_of d.id h.energy_by_device);
    }
