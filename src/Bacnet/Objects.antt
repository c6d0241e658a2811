-- ===== src/Bacnet/Objects.antt =====
-- The object tables of the BACnet devices (fwEDR/internal/bacnet/objects.go).
pub mod Plant
pub mod Laws
use dcim_data_reader.Prelude.{
  str_append, decimal, ℕ, zero, suc, ◌+◌, ◌*◌, ◌/◌, ◌%◌, Bool, true, false, ◌&&◌, Option, none,
  some, List, [], ◌∷◌, ◌++◌, ltb, ◌==◌, if◌then◌else◌, String,
}

abbrev pub obj_analog_input : ℕ
obj_analog_input = 0

abbrev pub obj_binary_input : ℕ
obj_binary_input = 3

-- objMeta. Its scale is 1 in every row.
pub record ObjMeta : Type 0 where
  pub obj_type : ℕ
  pub inst : ℕ
  pub name : String
  pub tag : String
  pub scale : ℕ

abbrev pub obj : ℕ → ℕ → String → String → ObjMeta
obj obj_type inst name tag = record {
  obj_type = obj_type;
  inst = inst;
  name = name;
  tag = tag;
  scale = 1;
}

unfoldable pub panel_objects : List ObjMeta
panel_objects =
    obj obj_analog_input 1001 "energy.active_power_kw" ""
    ∷ obj obj_analog_input 1002 "energy.energy_kwh" ""
    ∷ obj obj_analog_input 1003 "energy.voltage_v" "PhA"
    ∷ obj obj_analog_input 1004 "energy.voltage_v" "PhB"
    ∷ obj obj_analog_input 1005 "energy.voltage_v" "PhC"
    ∷ obj obj_analog_input 1006 "energy.current_a" "PhA"
    ∷ obj obj_analog_input 1007 "energy.current_a" "PhB"
    ∷ obj obj_analog_input 1008 "energy.current_a" "PhC"
    ∷ obj obj_analog_input 1009 "energy.frequency_hz" ""
    ∷ obj obj_analog_input 1010 "energy.power_factor" ""
    ∷ obj obj_analog_input 1011 "energy.voltage_thd_percent" ""
    ∷ obj obj_analog_input 1012 "energy.current_thd_percent" ""
    ∷ obj obj_analog_input 1013 "energy.harmonic_current_percent" "H3"
    ∷ obj obj_analog_input 1014 "energy.harmonic_current_percent" "H5"
    ∷ obj obj_analog_input 1015 "energy.harmonic_current_percent" "H7"
    ∷ obj obj_analog_input 1016 "energy.harmonic_current_percent" "H9"
    ∷ obj obj_binary_input 1020 "energy.alarm_overcurrent" ""
    ∷ obj obj_binary_input 1021 "energy.alarm_voltage_imbalance" ""
    ∷ obj obj_binary_input 1022 "energy.alarm_high_thd" ""
    ∷ obj obj_binary_input 1023 "energy.alarm_phase_loss" ""
    ∷ obj obj_binary_input 1024 "energy.alarm_sensor_fault" ""
    ∷ []

unfoldable pub circuit_offsets : List (ℕ × String)
circuit_offsets =
    (1, "energy.circuit_current_a")
    ∷ (2, "energy.circuit_power_kw")
    ∷ (3, "energy.circuit_energy_kwh")
    ∷ (4, "energy.circuit_power_factor")
    ∷ (5, "energy.circuit_current_thd_percent")
    ∷ []

-- fmt.Sprintf("Ckt%02d", ckt)
unfoldable pub circuit_label : ℕ → String
unfolding decimal
circuit_label ckt =
    let digits = decimal (suc ckt) ckt in
    str_append "Ckt" (if ltb ckt 10 then str_append "0" digits else digits)

-- The objects of one circuit.
unfoldable pub circuit_rows : ℕ → List (ℕ × String) → List ObjMeta
circuit_rows ckt [] = []
circuit_rows ckt ((offset, name) ∷ offsets) =
    obj obj_analog_input ((ckt + 1) * 1000 + offset) name (circuit_label ckt)
    ∷ circuit_rows ckt offsets

-- The circuits from `ckt` on, `n` of them.
unfoldable pub circuits_from : ℕ → ℕ → List ObjMeta
unfolding circuit_rows
circuits_from ckt zero = []
circuits_from ckt (suc n) = circuit_rows ckt circuit_offsets ++ circuits_from (ckt + 1) n

unfoldable pub circuit_objects : ℕ → List ObjMeta
unfolding circuits_from
circuit_objects circuits = circuits_from 1 circuits

unfoldable pub objects_for : ℕ → Bool → List ObjMeta
unfolding circuit_objects
objects_for circuits read_circuits =
    if read_circuits && ltb 0 circuits
    then panel_objects ++ circuit_objects circuits
    else panel_objects

-- The map of metaIndex, in which a later object takes the place of an earlier one of the same type
-- and instance: what stands at a key after the objects have been put in.
unfoldable pub meta_at : ℕ → ℕ → List ObjMeta → Option ObjMeta → Option ObjMeta
meta_at obj_type inst [] found = found
meta_at obj_type inst (o ∷ objs) found =
    let at_key = o.obj_type == obj_type && o.inst == inst in
    meta_at obj_type inst objs (if at_key then some o else found)

unfoldable pub meta_index : List ObjMeta → ℕ → ℕ → Option ObjMeta
unfolding meta_at
meta_index objs obj_type inst = meta_at obj_type inst objs none
