-- ===== src/Forward/Rows.antt =====
-- The rows that the forwarder reads from the database (fwDCS/internal/store/forward.go). `V` is the
-- type of the values, float64; a time is a number of nanoseconds, 0 the zero time.Time; the integer
-- columns are not negative, and a pointer is an option.
use dcim_data_reader.Prelude.{ℕ, Bool, Option, String}

pub record FwdDevice (V : Type 0) : Type 0 where
  pub id : String
  pub datacenter_id : String
  pub floor_id : String
  pub hostname : String
  pub device_type : String
  pub vendor : String
  pub model_name : String
  pub os_name : String
  pub os_version : String
  pub sys_oid : String
  pub sys_descr : String
  pub sys_location : String
  pub mgmt_ip : String
  pub prod_ip : String
  pub loopback_ip : String
  pub oob_ip : String
  pub snmp_enabled : Bool
  pub gnmi_enabled : Bool
  pub snmp_port : ℕ
  pub snmp_version : ℕ
  pub gnmi_port : ℕ
  pub collector_agent : String
  pub is_reachable : Bool
  pub country : String
  pub datacenter_city : String
  pub datacenter : String
  pub room : String
  pub rack_row : Option ℕ
  pub rack_num : Option ℕ
  pub rack_unit : Option ℕ
  pub power_draw_w : Option ℕ
  pub power_state : Option ℕ
  pub device_role : String
  pub role_confidence : Option V
  pub role_source : String
  pub role_overridden : Bool
  pub updated_at : ℕ

pub record FwdInterface : Type 0 where
  pub id : String
  pub device_id : String
  pub interface_name : String
  pub interface_index : Option ℕ
  pub description : String
  pub type : String
  pub mac_address : String
  pub speed_mbps : Option ℕ
  pub admin_status : ℕ
  pub operational_status : ℕ
  pub access_vlan_id : Option ℕ
  pub mtu_bytes : Option ℕ

pub record FwdAddress : Type 0 where
  pub id : String
  pub interface_id : String
  pub address : String
  pub address_family : String
  pub is_primary : Bool
  pub vrf : String

pub record FwdMetric (V : Type 0) : Type 0 where
  pub device_id : String
  pub interface_id : String
  pub metric_name : String
  pub value : V
  pub tag : String
  pub attributes : String
  pub collector_agent : String
  pub collector_protocol : String
  pub interface_name : String
  pub ts : ℕ

pub record FwdEnergy (V : Type 0) : Type 0 where
  pub device_id : String
  pub metric_name : String
  pub value : V
  pub tag : String
  pub circuit : String
  pub phase : String
  pub scope : String
  pub attributes : String
  pub collector_agent : String
  pub collector_protocol : String
  pub ts : ℕ

pub record FwdTopologyLink : Type 0 where
  pub id : String
  pub src_datacenter_id : String
  pub src_floor_id : String
  pub layer : String
  pub src_device_id : String
  pub src_interface_id : String
  pub src_hostname : String
  pub src_port_name : String
  pub dst_device_id : String
  pub dst_interface_id : String
  pub dst_hostname : String
  pub dst_port_name : String
  pub link_speed_mbps : Option ℕ
  pub link_type : String
  pub protocol : String
  pub relation : String
  pub is_active : Bool
  pub updated_at : ℕ

pub record FwdEvent : Type 0 where
  pub id : String
  pub device_id : String
  pub datacenter_id : String
  pub floor_id : String
  pub hostname : String
  pub kind : String
  pub event_name : String
  pub severity : String
  pub trap_oid : String
  pub source_ip : String
  pub collector_agent : String
  pub src_port_name : String
  pub dst_device_id : String
  pub dst_hostname : String
  pub dst_port_name : String
  pub link_id : String
  pub ts : ℕ
  pub payload : String
