-- ===== src/Command/Readback.antt =====
-- What a command writes and what the threshold poller reads: the tables of
-- fwEDR/internal/command/apply.go and fwEDR/internal/threshold/poller.go side by side.
use mathlib.Core.Option.{some-injective}
use text.Mathlib.TextEquality.{eq_iff}
use dcim_data_reader.Prelude.{
  ℕ, ◌≡◌, ◌∙◌, refl, sym, ap, subst, Bool, true, false, ◌||◌, Option, none, some, List, [], ◌∷◌,
  map, String, str_eq, str_append, Bool-cases, inl, inr,
}
use dcim_data_reader.Prelude.Dict.{lookup}
use dcim_data_reader.Target.{Target}
use dcim_data_reader.Command.Fields.{OidSpec, snmp_field_map, power_fields, one_of}
use dcim_data_reader.Command.Thresholds.{
  Variable, threshold_oids, threshold_rules_by_type, reversed, oids_of, readings, trim_dot,
  poll_one, poll_allowed, allowed_rules,
}
use dcim_data_reader.Command.Apply.{Texts, Command, norm, apply, snmp_write, strip_cidr}

-- `P` holds of each entry of a table.
infixr 5 ◌▹◌
pub data Each {V : Type 0} (P : String → V → Type 0) : List (String × V) → Type 0 where
  done : Each P []
  ◌▹◌ :
      {key : String} {value : V} {rest : List (String × V)}
      → P key value
      → Each P rest
      → Each P ((key, value) ∷ rest)

pub Each-lookup :
    {V : Type 0} (P : String → V → Type 0) (table : List (String × V)) (key : String) (value : V)
    → Each P table
    → lookup key table ≡ some value
    → P key value
unfolding lookup
Each-lookup P [] key value done e = cc
Each-lookup P ((k, v) ∷ rest) key value (here ▹ all) e = elim (Bool-cases (str_eq key k)) [
  | inl same ↦
      let key_eq : key ≡ k = (eq_iff key k).0 same in
      let value_eq : v ≡ value = some-injective _ _ (rw same at e) in
      subst (λ x. P x value) (sym key_eq) (subst (P k) value_eq here)
  | inr other ↦ Each-lookup P rest key value all (rw other at e)
]

-- The OID of a rule.
abbrev pub oid_of : String → String
oid_of rule = elim (lookup rule threshold_oids) [ none ↦ "" | some oid ↦ oid ]

-- The answer of an agent that has a value for each OID.
abbrev pub all_answered : (String → ℕ) → List String → List Variable
all_answered v [] = []
all_answered v (oid ∷ oids) =
    record { name = str_append "." oid; value = some (v oid); text = "" } ∷ all_answered v oids

abbrev ReadsRules : (String → ℕ) → String → List String → Type 0
ReadsRules v device_type rules =
    readings rules (all_answered v (oids_of rules threshold_oids))
    ≡ map (λ rule. (rule, v (oid_of rule))) rules

read_rules : (v : String → ℕ) → Each (ReadsRules v) threshold_rules_by_type
unfolding readings oids_of threshold_oids threshold_rules_by_type reversed trim_dot lookup
read_rules v = refl ▹ refl ▹ refl ▹ refl ▹ refl ▹ refl ▹ refl ▹ refl ▹ refl ▹ done

-- The rules in lower case.
abbrev pub lower_case : List (String × String)
lower_case =
    ("HighCPU", "highcpu")
    ∷ ("HighCPUSustained", "highcpusustained")
    ∷ ("CPUNormal", "cpunormal")
    ∷ ("HighMemory", "highmemory")
    ∷ ("HighTemperature", "hightemperature")
    ∷ ("RackFailureMin", "rackfailuremin")
    ∷ ("SensorAmbientTempHigh", "sensorambienttemphigh")
    ∷ ("SensorAmbientTempCritical", "sensorambienttempcritical")
    ∷ ("SensorAmbientTempNormal", "sensorambienttempnormal")
    ∷ ("SensorHighHumidity", "sensorhighhumidity")
    ∷ ("SensorCriticalHumidity", "sensorcriticalhumidity")
    ∷ ("SensorLowHumidity", "sensorlowhumidity")
    ∷ ("SensorHumidityNormalLow", "sensorhumiditynormallow")
    ∷ ("SensorHumidityNormalHigh", "sensorhumiditynormalhigh")
    ∷ ("SensorHighDewPoint", "sensorhighdewpoint")
    ∷ ("SensorDewPointNormal", "sensordewpointnormal")
    ∷ ("SensorHighAirflow", "sensorhighairflow")
    ∷ ("SensorLowAirflow", "sensorlowairflow")
    ∷ ("SensorAirflowNormalLow", "sensorairflownormallow")
    ∷ ("SensorAirflowNormalHigh", "sensorairflownormalhigh")
    ∷ []

-- What a field name is to a command: its entry in snmpFieldMap, a power field, an LED.
abbrev pub uses_of : String → Option OidSpec × Bool × Bool
uses_of low = (
  lookup low snmp_field_map,
  one_of power_fields low,
  str_eq low "indicator_led" || str_eq low "led",
)

abbrev integer_only : String → Option OidSpec × Bool × Bool
integer_only oid = (some (record { oid = oid; is_int = true }), false, false)

-- The rule in lower case is only a field of snmpFieldMap, an integer at its OID.
abbrev IsWritten : String → String → Type 0
IsWritten rule oid = elim (lookup rule lower_case) [
  | none ↦ Unit
  | some low ↦ uses_of low ≡ integer_only oid
]

threshold_oids_lem : Each IsWritten threshold_oids
unfolding threshold_oids snmp_field_map power_fields lookup
threshold_oids_lem =
    refl ▹ refl ▹ refl ▹ refl ▹ refl ▹ refl ▹ refl ▹ refl ▹ refl ▹ refl ▹ refl ▹ refl ▹ refl ▹ refl
    ▹ refl ▹ refl ▹ refl ▹ refl ▹ refl ▹ refl ▹ done

module _ (atoi : String → Option ℕ) (norm : String → String) where
  poll_allowed-readings :
      (v : String → ℕ) (rules : List String) (t : Target)
      → (poll_allowed norm atoi rules (λ oids. some (all_answered v oids)) t).0
        ≡ readings rules (all_answered v (oids_of rules threshold_oids))
  unfolding poll_allowed readings oids_of threshold_oids
  poll_allowed-readings v [] t = refl
  poll_allowed-readings v (rule ∷ rules) t = refl

  -- Where the agent has a value for every OID, pollOne emits for a device of a listed type
  -- exactly the rules of its type, in their order, each with the value at its OID.
  pub poll_one-rules :
      (v : String → ℕ) (rules : List String) (t : Target)
      → lookup (norm t.device_type) threshold_rules_by_type ≡ some rules
      → (poll_one norm atoi (λ oids. some (all_answered v oids)) t).0
        ≡ map (λ rule. (rule, v (oid_of rule))) rules
  unfolding poll_one allowed_rules
  poll_one-rules v rules t e =
      rw (allowed_rules, e)
        (poll_allowed-readings v rules t
          ∙ Each-lookup (ReadsRules v) threshold_rules_by_type (norm t.device_type) rules
              (read_rules v) e)

-- Where the name of a rule that the threshold poller reads, trimmed and in lower case, is as
-- the table says, and the device has an address, a command with that name is the write of an
-- integer at the OID that the poller reads for the rule.
pub apply-rule :
    (texts : Texts) (cmd : Command) (rule oid low : String)
    → lookup rule threshold_oids ≡ some oid
    → lookup rule lower_case ≡ some low
    → texts.lower (texts.trim cmd.field) ≡ low
    → str_eq (texts.trim (strip_cidr cmd.device_ip)) "" ≡ false
    → apply texts cmd
      ≡ snmp_write texts
          (texts.trim (strip_cidr cmd.device_ip))
          (record { oid = oid; is_int = true })
          cmd.value
unfolding apply norm
apply-rule texts cmd rule oid low o l n ip =
    let written = Each-lookup IsWritten threshold_oids rule oid threshold_oids_lem o in
    let row = rw (IsWritten, l) at written in
    let spec = ap (λ r. r.0) row in
    let power = ap (λ r. r.1) row in
    let led = ap (λ r. r.2) row in rw (apply, ip, n, power, led, spec) refl
