-- ===== src/Target.antt =====
-- The polled device (fwEDR/internal/target/target.go): how a Target is made from its configuration
-- and the agent's SNMP defaults, its capability flags, and its host name. The mutex makes each
-- operation one step.
pub mod Assets
pub mod Laws
use dcim_data_reader.Prelude.{
  ℕ, ◌+◌, ◌-◌, ◌^◌, Bool, true, false, not, List, ◌==◌, str_eq, if◌then◌else◌, String, bit_or,
  bit_set,
}

-- config.TargetConfig, as far as FromConfig reads it.
pub record TargetConfig : Type 0 where
  pub ip : String
  pub mgmt_ip : String
  pub prod_ip : String
  pub loopback_ip : String
  pub oob_ip : String
  pub gnmi_ip : String
  pub hostname : String
  pub device_type : String
  pub vendor : String
  pub labels : List (String × String)
  pub snmp_version : ℕ
  pub community : String
  pub gnmi_enabled : Bool
  pub bacnet_enabled : Bool
  pub active_circuits : ℕ
  pub datacenter_id : String
  pub floor_id : String
  pub model_name : String
  pub country : String
  pub datacenter_name : String
  pub datacenter_city : String
  pub room : String
  pub floor : String
  pub rack_row : ℕ
  pub rack_num : ℕ
  pub rack_unit : ℕ

-- config.SNMPConfig, as far as FromConfig reads it.
pub record SnmpConfig : Type 0 where
  pub version : ℕ
  pub community : String

-- A Capability is a uint8 of flags; each flag is the number of its bit.
abbrev pub cap_snmp : ℕ
cap_snmp = 0

abbrev pub cap_gnmi : ℕ
cap_gnmi = 1

abbrev pub cap_bacnet : ℕ
cap_bacnet = 2

pub record Target : Type 0 where
  pub ip : String
  pub mgmt_ip : String
  pub prod_ip : String
  pub loopback_ip : String
  pub oob_ip : String
  pub gnmi_ip : String
  pub hostname : String
  pub device_type : String
  pub vendor : String
  pub labels : List (String × String)
  pub snmp_version : ℕ
  pub community : String
  pub caps : ℕ
  pub active_circuits : ℕ
  pub datacenter_id : String
  pub floor_id : String
  pub model_name : String
  pub country : String
  pub datacenter_name : String
  pub datacenter_city : String
  pub room : String
  pub floor : String
  pub rack_row : ℕ
  pub rack_num : ℕ
  pub rack_unit : ℕ

abbrev pub default_to : String → String → String
default_to default text = if str_eq text "" then default else text

-- `caps |= flag`
abbrev pub with_flag : Bool → ℕ → ℕ → ℕ
with_flag enabled flag caps = if enabled then bit_or (2 ^ flag) caps else caps

unfoldable pub from_config : TargetConfig → SnmpConfig → Target
from_config tc global =
    let mgmt_ip = default_to tc.ip tc.mgmt_ip in
    record {
      ip = tc.ip;
      mgmt_ip = mgmt_ip;
      prod_ip = tc.prod_ip;
      loopback_ip = tc.loopback_ip;
      oob_ip = tc.oob_ip;
      gnmi_ip = default_to mgmt_ip tc.gnmi_ip;
      hostname = tc.hostname;
      device_type = tc.device_type;
      vendor = default_to "generic" tc.vendor;
      labels = tc.labels;
      snmp_version = if tc.snmp_version == 0 then global.version else tc.snmp_version;
      community = default_to global.community tc.community;
      caps =
          with_flag tc.bacnet_enabled cap_bacnet
            (with_flag tc.gnmi_enabled cap_gnmi (2 ^ cap_snmp));
      active_circuits = tc.active_circuits;
      datacenter_id = tc.datacenter_id;
      floor_id = tc.floor_id;
      model_name = tc.model_name;
      country = tc.country;
      datacenter_name = tc.datacenter_name;
      datacenter_city = tc.datacenter_city;
      room = tc.room;
      floor = tc.floor;
      rack_row = tc.rack_row;
      rack_num = tc.rack_num;
      rack_unit = tc.rack_unit;
    }

-- Has, at one flag.
unfoldable pub has : ℕ → Target → Bool
has flag t = bit_set t.caps flag

-- ClearCap, at one flag: `t.Caps &^= c`.
unfoldable pub clear_cap : ℕ → Target → Target
unfolding has
clear_cap flag t = record t { caps = if has flag t then t.caps - 2 ^ flag else t.caps }

unfoldable pub source_id : Target → String
source_id t = if str_eq t.hostname "" then t.ip else t.hostname

unfoldable pub set_hostname : String → Target → Target
set_hostname name t = if str_eq name "" then t else record t { hostname = name }

pub record AssetSnapshot : Type 0 where
  pub model_name : String
  pub country : String
  pub datacenter_name : String
  pub datacenter_city : String
  pub room : String
  pub rack_row : ℕ
  pub rack_num : ℕ
  pub rack_unit : ℕ

unfoldable pub asset : Target → AssetSnapshot
asset t = record {
  model_name = t.model_name;
  country = t.country;
  datacenter_name = t.datacenter_name;
  datacenter_city = t.datacenter_city;
  room = t.room;
  rack_row = t.rack_row;
  rack_num = t.rack_num;
  rack_unit = t.rack_unit;
}
