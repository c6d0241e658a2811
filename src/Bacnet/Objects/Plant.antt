-- ===== src/Bacnet/Objects/Plant.antt =====
-- The object tables of the chiller-plant devices (fwEDR/internal/bacnet/plant_objects.go).
use dcim_data_reader.Prelude.{Bool, true, false, none, some, List, [], ◌∷◌, String}
use dcim_data_reader.Prelude.Dict.{lookup}
use dcim_data_reader.Bacnet.Objects.{ObjMeta, obj, obj_analog_input, obj_binary_input}

unfoldable pub chiller_objects : List ObjMeta
chiller_objects =
    obj obj_analog_input 1 "cooling.chw_supply_temp_c" ""
    ∷ obj obj_analog_input 2 "cooling.chw_return_temp_c" ""
    ∷ obj obj_analog_input 3 "cooling.chw_setpoint_c" ""
    ∷ obj obj_analog_input 4 "cooling.chw_flow_lps" ""
    ∷ obj obj_analog_input 5 "cooling.cond_supply_temp_c" ""
    ∷ obj obj_analog_input 6 "cooling.cond_return_temp_c" ""
    ∷ obj obj_analog_input 7 "cooling.compressor_load_pct" ""
    ∷ obj obj_analog_input 8 "cooling.active_power_kw" ""
    ∷ obj obj_analog_input 9 "cooling.cooling_capacity_kw" ""
    ∷ obj obj_analog_input 10 "cooling.cop" ""
    ∷ obj obj_analog_input 11 "cooling.evap_pressure_kpa" ""
    ∷ obj obj_analog_input 12 "cooling.cond_pressure_kpa" ""
    ∷ obj obj_analog_input 13 "cooling.run_hours_h" ""
    ∷ obj obj_binary_input 1 "cooling.chiller_running" ""
    ∷ obj obj_binary_input 2 "cooling.alarm_high_pressure" ""
    ∷ obj obj_binary_input 3 "cooling.alarm_low_evap_temp" ""
    ∷ obj obj_binary_input 4 "cooling.alarm_flow_loss" ""
    ∷ []

unfoldable pub pump_objects : List ObjMeta
pump_objects =
    obj obj_analog_input 1 "cooling.pump_speed_pct" ""
    ∷ obj obj_analog_input 2 "cooling.pump_flow_lps" ""
    ∷ obj obj_analog_input 3 "cooling.discharge_pressure_kpa" ""
    ∷ obj obj_analog_input 4 "cooling.suction_pressure_kpa" ""
    ∷ obj obj_analog_input 5 "cooling.diff_pressure_kpa" ""
    ∷ obj obj_analog_input 6 "cooling.motor_power_kw" ""
    ∷ obj obj_analog_input 7 "cooling.motor_temp_c" ""
    ∷ obj obj_analog_input 8 "cooling.vfd_frequency_hz" ""
    ∷ obj obj_analog_input 9 "cooling.run_hours_h" ""
    ∷ obj obj_binary_input 1 "cooling.pump_running" ""
    ∷ obj obj_binary_input 2 "cooling.alarm_fault" ""
    ∷ obj obj_binary_input 3 "cooling.alarm_low_flow" ""
    ∷ []

unfoldable pub cooling_tower_objects : List ObjMeta
cooling_tower_objects =
    obj obj_analog_input 1 "cooling.fan_speed_pct" ""
    ∷ obj obj_analog_input 2 "cooling.basin_temp_c" ""
    ∷ obj obj_analog_input 3 "cooling.cond_water_in_c" ""
    ∷ obj obj_analog_input 4 "cooling.cond_water_out_c" ""
    ∷ obj obj_analog_input 5 "cooling.fan_power_kw" ""
    ∷ obj obj_analog_input 6 "cooling.basin_level_pct" ""
    ∷ obj obj_analog_input 7 "cooling.makeup_flow_lpm" ""
    ∷ obj obj_analog_input 8 "cooling.vibration_mms" ""
    ∷ obj obj_analog_input 9 "cooling.run_hours_h" ""
    ∷ obj obj_binary_input 1 "cooling.fan_running" ""
    ∷ obj obj_binary_input 2 "cooling.alarm_high_vibration" ""
    ∷ obj obj_binary_input 3 "cooling.alarm_low_basin" ""
    ∷ []

unfoldable pub valve_objects : List ObjMeta
valve_objects =
    obj obj_analog_input 1 "cooling.valve_position_pct" ""
    ∷ obj obj_analog_input 2 "cooling.valve_commanded_position_pct" ""
    ∷ obj obj_analog_input 3 "cooling.actuator_temp_c" ""
    ∷ obj obj_binary_input 1 "cooling.valve_modulating" ""
    ∷ obj obj_binary_input 2 "cooling.alarm_actuator_fault" ""
    ∷ []

unfoldable pub cdu_objects : List ObjMeta
cdu_objects =
    obj obj_analog_input 1 "cooling.tcs_supply_temp_c" ""
    ∷ obj obj_analog_input 2 "cooling.tcs_return_temp_c" ""
    ∷ obj obj_analog_input 3 "cooling.tcs_setpoint_c" ""
    ∷ obj obj_analog_input 4 "cooling.tcs_flow_lps" ""
    ∷ obj obj_analog_input 5 "cooling.facility_chw_valve_pct" ""
    ∷ obj obj_analog_input 6 "cooling.facility_chw_flow_lps" ""
    ∷ obj obj_analog_input 7 "cooling.heat_load_kw" ""
    ∷ obj obj_analog_input 8 "cooling.pump_power_kw" ""
    ∷ obj obj_analog_input 9 "cooling.pump_speed_pct" ""
    ∷ obj obj_analog_input 10 "cooling.approach_temp_c" ""
    ∷ obj obj_analog_input 11 "cooling.filter_dp_kpa" ""
    ∷ obj obj_analog_input 12 "cooling.run_hours_h" ""
    ∷ obj obj_binary_input 1 "cooling.cdu_running" ""
    ∷ obj obj_binary_input 2 "cooling.alarm_leak" ""
    ∷ obj obj_binary_input 3 "cooling.alarm_high_supply_temp" ""
    ∷ obj obj_binary_input 4 "cooling.alarm_pump_fault" ""
    ∷ obj obj_binary_input 5 "cooling.alarm_low_flow" ""
    ∷ []

unfoldable pub crah_objects : List ObjMeta
crah_objects =
    obj obj_analog_input 1 "cooling.supply_air_temp_c" ""
    ∷ obj obj_analog_input 2 "cooling.return_air_temp_c" ""
    ∷ obj obj_analog_input 3 "cooling.crah_setpoint_c" ""
    ∷ obj obj_analog_input 4 "cooling.fan_speed_pct" ""
    ∷ obj obj_analog_input 5 "cooling.chw_valve_pct" ""
    ∷ obj obj_analog_input 6 "cooling.cooling_capacity_pct" ""
    ∷ obj obj_analog_input 7 "cooling.supply_humidity_pct" ""
    ∷ obj obj_analog_input 8 "cooling.airflow_pct" ""
    ∷ obj obj_analog_input 9 "cooling.fan_power_kw" ""
    ∷ obj obj_analog_input 10 "cooling.run_hours_h" ""
    ∷ obj obj_binary_input 1 "cooling.crah_running" ""
    ∷ obj obj_binary_input 2 "cooling.alarm_high_temp" ""
    ∷ obj obj_binary_input 3 "cooling.alarm_airflow_loss" ""
    ∷ obj obj_binary_input 4 "cooling.alarm_filter_dirty" ""
    ∷ []

unfoldable pub plant_objects : List (String × List ObjMeta)
plant_objects =
    ("chiller", chiller_objects)
    ∷ ("pump", pump_objects)
    ∷ ("cooling_tower", cooling_tower_objects)
    ∷ ("valve", valve_objects)
    ∷ ("cdu", cdu_objects)
    ∷ ("crah", crah_objects)
    ∷ []

unfoldable pub is_plant_type : String → Bool
unfolding plant_objects
is_plant_type dt = elim (lookup dt plant_objects) [ none ↦ false | some objs ↦ true ]
