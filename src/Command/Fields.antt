-- ===== src/Command/Fields.antt =====
-- The fields of devices that a command writes (fwEDR/internal/command/apply.go): their OIDs, the power
-- fields, and the values of Redfish.
use dcim_data_reader.Prelude.{Bool, true, false, List, [], ◌∷◌, String, str_eq, if◌then◌else◌}

pub record OidSpec : Type 0 where
  pub oid : String
  pub is_int : Bool

text_at : String → OidSpec
text_at oid = record { oid = oid; is_int = false }

number_at : String → OidSpec
number_at oid = record { oid = oid; is_int = true }

unfoldable pub snmp_field_map : List (String × OidSpec)
unfolding text_at number_at
snmp_field_map =
    ("sys_contact", text_at "1.3.6.1.2.1.1.4.0")
    ∷ ("contact", text_at "1.3.6.1.2.1.1.4.0")
    ∷ ("name", text_at "1.3.6.1.2.1.1.5.0")
    ∷ ("sysname", text_at "1.3.6.1.2.1.1.5.0")
    ∷ ("hostname", text_at "1.3.6.1.2.1.1.5.0")
    ∷ ("sys_location", text_at "1.3.6.1.2.1.1.6.0")
    ∷ ("location", text_at "1.3.6.1.2.1.1.6.0")
    ∷ ("country", text_at "1.3.6.1.4.1.99999.4.1.0")
    ∷ ("datacenter_city", text_at "1.3.6.1.4.1.99999.4.2.0")
    ∷ ("city", text_at "1.3.6.1.4.1.99999.4.2.0")
    ∷ ("datacenter", text_at "1.3.6.1.4.1.99999.4.3.0")
    ∷ ("floor", text_at "1.3.6.1.4.1.99999.4.4.0")
    ∷ ("room", text_at "1.3.6.1.4.1.99999.4.5.0")
    ∷ ("rack_row", number_at "1.3.6.1.4.1.99999.4.6.0")
    ∷ ("rack_num", number_at "1.3.6.1.4.1.99999.4.7.0")
    ∷ ("rack_unit", number_at "1.3.6.1.4.1.99999.4.8.0")
    ∷ ("model", text_at "1.3.6.1.4.1.99999.4.9.0")
    ∷ ("model_name", text_at "1.3.6.1.4.1.99999.4.9.0")
    ∷ ("power_draw_w", number_at "1.3.6.1.4.1.99999.4.10.0")
    ∷ ("highcpu", number_at "1.3.6.1.4.1.99999.3.1.0")
    ∷ ("highcpusustained", number_at "1.3.6.1.4.1.99999.3.2.0")
    ∷ ("cpunormal", number_at "1.3.6.1.4.1.99999.3.3.0")
    ∷ ("highmemory", number_at "1.3.6.1.4.1.99999.3.4.0")
    ∷ ("hightemperature", number_at "1.3.6.1.4.1.99999.3.6.0")
    ∷ ("rackfailuremin", number_at "1.3.6.1.4.1.99999.3.9.0")
    ∷ ("sensorambienttemphigh", number_at "1.3.6.1.4.1.99999.3.10.0")
    ∷ ("sensorambienttempcritical", number_at "1.3.6.1.4.1.99999.3.11.0")
    ∷ ("sensorambienttempnormal", number_at "1.3.6.1.4.1.99999.3.12.0")
    ∷ ("sensorhighhumidity", number_at "1.3.6.1.4.1.99999.3.13.0")
    ∷ ("sensorcriticalhumidity", number_at "1.3.6.1.4.1.99999.3.14.0")
    ∷ ("sensorlowhumidity", number_at "1.3.6.1.4.1.99999.3.15.0")
    ∷ ("sensorhumiditynormallow", number_at "1.3.6.1.4.1.99999.3.16.1.0")
    ∷ ("sensorhumiditynormalhigh", number_at "1.3.6.1.4.1.99999.3.16.2.0")
    ∷ ("sensorhighdewpoint", number_at "1.3.6.1.4.1.99999.3.17.0")
    ∷ ("sensordewpointnormal", number_at "1.3.6.1.4.1.99999.3.18.0")
    ∷ ("sensorhighairflow", number_at "1.3.6.1.4.1.99999.3.19.0")
    ∷ ("sensorlowairflow", number_at "1.3.6.1.4.1.99999.3.20.0")
    ∷ ("sensorairflownormallow", number_at "1.3.6.1.4.1.99999.3.21.1.0")
    ∷ ("sensorairflownormalhigh", number_at "1.3.6.1.4.1.99999.3.21.2.0")
    ∷ ("sensortemphigh", number_at "1.3.6.1.4.1.99999.3.10.0")
    ∷ ("sensortempcritical", number_at "1.3.6.1.4.1.99999.3.11.0")
    ∷ ("sensorhumidityhigh", number_at "1.3.6.1.4.1.99999.3.13.0")
    ∷ ("sensorhumiditycritical", number_at "1.3.6.1.4.1.99999.3.14.0")
    ∷ ("sensorhumiditylow", number_at "1.3.6.1.4.1.99999.3.15.0")
    ∷ ("sensordewpointhigh", number_at "1.3.6.1.4.1.99999.3.17.0")
    ∷ ("sensorairflowhigh", number_at "1.3.6.1.4.1.99999.3.19.0")
    ∷ ("sensorairflowlow", number_at "1.3.6.1.4.1.99999.3.20.0")
    ∷ []

unfoldable pub airflow_x10_oids : List String
airflow_x10_oids =
    "1.3.6.1.4.1.99999.3.19.0" ∷ "1.3.6.1.4.1.99999.3.20.0" ∷ "1.3.6.1.4.1.99999.3.21.1.0"
    ∷ "1.3.6.1.4.1.99999.3.21.2.0" ∷ []

unfoldable pub power_fields : List String
power_fields = "power_state" ∷ "power" ∷ "power_action" ∷ []

-- A case of a switch with several values.
abbrev pub one_of : List String → String → Bool
one_of [] text = false
one_of (t ∷ ts) text = let later = one_of ts text in if str_eq t text then true else later

-- `norm` is strings.ToLower after strings.TrimSpace.
module _ (norm : String → String) where
  unfoldable pub normalize_led : String → String
  normalize_led v =
      if one_of ("on" ∷ "lit" ∷ "true" ∷ "1" ∷ []) (norm v)
      then "Lit"
      else if one_of ("off" ∷ "false" ∷ "0" ∷ []) (norm v)
      then "Off"
      else if one_of ("blink" ∷ "blinking" ∷ []) (norm v)
      then "Blinking"
      else if one_of ("Lit" ∷ "Off" ∷ "Blinking" ∷ []) v
      then v
      else ""

  unfoldable pub normalize_reset_type : String → String
  normalize_reset_type v =
      if one_of ("on" ∷ "poweron" ∷ "power_on" ∷ "forceon" ∷ []) (norm v)
      then "On"
      else if one_of
          ("off" ∷ "poweroff" ∷ "power_off" ∷ "forceoff" ∷ "shutdown" ∷ "gracefulshutdown" ∷ [])
          (norm v)
      then "ForceOff"
      else if one_of
          ("restart" ∷ "reboot" ∷ "reset" ∷ "powercycle" ∷ "forcerestart" ∷ "gracefulrestart" ∷ [])
          (norm v)
      then "ForceRestart"
      else if one_of
          ("On" ∷ "ForceOn" ∷ "ForceOff" ∷ "GracefulShutdown" ∷ "GracefulRestart" ∷ "ForceRestart"
            ∷ "PowerCycle" ∷ "PushPowerButton" ∷ [])
          v
      then v
      else ""
