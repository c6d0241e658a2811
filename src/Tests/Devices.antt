-- ===== src/Tests/Devices.antt =====
-- The theorems on object tables and targets at concrete inputs (fwEDR/internal/bacnet/objects.go,
-- fwEDR/internal/target/target.go).
use dcim_data_reader.Prelude.{◌≡◌, refl, true, false, List, [], ◌∷◌, some, inl, inr, String}
use dcim_data_reader.Bacnet.Objects.{
  ObjMeta, obj, obj_analog_input, objects_for, panel_objects, meta_index,
}
use dcim_data_reader.Bacnet.Objects.Laws.{Among, meta_index-objects_for}
use dcim_data_reader.Target.{TargetConfig, SnmpConfig}

abbrev energy_meter : ObjMeta
energy_meter = obj obj_analog_input 1002 "energy.energy_kwh" ""

energy_meter_there : Among energy_meter (objects_for 2 true)
unfolding objects_for panel_objects
energy_meter_there = inr (inl refl)

meta_index-objects_for_example : meta_index (objects_for 2 true) 0 1002 ≡ some energy_meter
meta_index-objects_for_example = meta_index-objects_for 2 true energy_meter energy_meter_there

abbrev a_config : TargetConfig
a_config = record {
  ip = "10.0.0.7";
  mgmt_ip = "";
  prod_ip = "";
  loopback_ip = "";
  oob_ip = "";
  gnmi_ip = "";
  hostname = "";
  device_type = "ups";
  vendor = "";
  labels = [];
  snmp_version = 0;
  community = "";
  gnmi_enabled = false;
  bacnet_enabled = true;
  active_circuits = 0;
  datacenter_id = "";
  floor_id = "";
  model_name = "";
  country = "";
  datacenter_name = "";
  datacenter_city = "";
  room = "";
  floor = "";
  rack_row = 0;
  rack_num = 0;
  rack_unit = 0;
}

abbrev snmp_defaults : SnmpConfig
snmp_defaults = record { version = 2; community = "public" }

abbrev two_names : List String
two_names = "ups-1" ∷ "" ∷ []
