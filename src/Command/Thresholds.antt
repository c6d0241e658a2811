-- ===== src/Command/Thresholds.antt =====
-- What the threshold poller reads of a device's management agent (fwEDR/internal/threshold/poller.go):
-- the tables of rules and asset fields, and pollOne.
use Prim.Native.Char.{code}
use dcim_data_reader.Prelude.{ℕ, Option, none, some, List, [], ◌∷◌, String, if◌then◌else◌, ◌==◌}
use dcim_data_reader.Prelude.Dict.{lookup}
use dcim_data_reader.Command.Fields.{one_of}
use dcim_data_reader.Target.{Target}
use dcim_data_reader.Target.Assets.{patch_asset}

-- A rule or a field, and its OID.
unfoldable pub threshold_oids : List (String × String)
threshold_oids =
    ("HighCPU", "1.3.6.1.4.1.99999.3.1.0")
    ∷ ("HighCPUSustained", "1.3.6.1.4.1.99999.3.2.0")
    ∷ ("CPUNormal", "1.3.6.1.4.1.99999.3.3.0")
    ∷ ("HighMemory", "1.3.6.1.4.1.99999.3.4.0")
    ∷ ("HighTemperature", "1.3.6.1.4.1.99999.3.6.0")
    ∷ ("RackFailureMin", "1.3.6.1.4.1.99999.3.9.0")
    ∷ ("SensorAmbientTempHigh", "1.3.6.1.4.1.99999.3.10.0")
    ∷ ("SensorAmbientTempCritical", "1.3.6.1.4.1.99999.3.11.0")
    ∷ ("SensorAmbientTempNormal", "1.3.6.1.4.1.99999.3.12.0")
    ∷ ("SensorHighHumidity", "1.3.6.1.4.1.99999.3.13.0")
    ∷ ("SensorCriticalHumidity", "1.3.6.1.4.1.99999.3.14.0")
    ∷ ("SensorLowHumidity", "1.3.6.1.4.1.99999.3.15.0")
    ∷ ("SensorHumidityNormalLow", "1.3.6.1.4.1.99999.3.16.1.0")
    ∷ ("SensorHumidityNormalHigh", "1.3.6.1.4.1.99999.3.16.2.0")
    ∷ ("SensorHighDewPoint", "1.3.6.1.4.1.99999.3.17.0")
    ∷ ("SensorDewPointNormal", "1.3.6.1.4.1.99999.3.18.0")
    ∷ ("SensorHighAirflow", "1.3.6.1.4.1.99999.3.19.0")
    ∷ ("SensorLowAirflow", "1.3.6.1.4.1.99999.3.20.0")
    ∷ ("SensorAirflowNormalLow", "1.3.6.1.4.1.99999.3.21.1.0")
    ∷ ("SensorAirflowNormalHigh", "1.3.6.1.4.1.99999.3.21.2.0")
    ∷ []

unfoldable pub asset_oids : List (String × String)
asset_oids =
    ("country", "1.3.6.1.4.1.99999.4.1.0")
    ∷ ("datacenter_city", "1.3.6.1.4.1.99999.4.2.0")
    ∷ ("datacenter", "1.3.6.1.4.1.99999.4.3.0")
    ∷ ("floor", "1.3.6.1.4.1.99999.4.4.0")
    ∷ ("room", "1.3.6.1.4.1.99999.4.5.0")
    ∷ ("rack_row", "1.3.6.1.4.1.99999.4.6.0")
    ∷ ("rack_num", "1.3.6.1.4.1.99999.4.7.0")
    ∷ ("rack_unit", "1.3.6.1.4.1.99999.4.8.0")
    ∷ ("model", "1.3.6.1.4.1.99999.4.9.0")
    ∷ []

unfoldable pub threshold_rules_by_type : List (String × List String)
threshold_rules_by_type =
    (
      "router",
      "HighCPU" ∷ "HighCPUSustained" ∷ "CPUNormal" ∷ "HighTemperature" ∷ "RackFailureMin" ∷ [],
    )
    ∷ (
      "switch",
      "HighCPU" ∷ "HighCPUSustained" ∷ "CPUNormal" ∷ "HighTemperature" ∷ "RackFailureMin" ∷ [],
    )
    ∷ (
      "oob_switch",
      "HighCPU" ∷ "HighCPUSustained" ∷ "CPUNormal" ∷ "HighTemperature" ∷ "RackFailureMin" ∷ [],
    )
    ∷ (
      "firewall",
      "HighCPU" ∷ "HighCPUSustained" ∷ "CPUNormal" ∷ "HighTemperature" ∷ "RackFailureMin" ∷ [],
    )
    ∷ (
      "load_balancer",
      "HighCPU" ∷ "HighCPUSustained" ∷ "CPUNormal" ∷ "HighMemory" ∷ "HighTemperature"
          ∷ "RackFailureMin" ∷ [],
    )
    ∷ (
      "server",
      "HighCPU" ∷ "HighCPUSustained" ∷ "CPUNormal" ∷ "HighMemory" ∷ "HighTemperature"
          ∷ "RackFailureMin" ∷ [],
    )
    ∷ (
      "sensor",
      "SensorAmbientTempHigh" ∷ "SensorAmbientTempCritical" ∷ "SensorAmbientTempNormal"
          ∷ "SensorHighHumidity" ∷ "SensorCriticalHumidity" ∷ "SensorLowHumidity"
          ∷ "SensorHumidityNormalLow" ∷ "SensorHumidityNormalHigh" ∷ "SensorHighDewPoint"
          ∷ "SensorDewPointNormal" ∷ "SensorHighAirflow" ∷ "SensorLowAirflow"
          ∷ "SensorAirflowNormalLow" ∷ "SensorAirflowNormalHigh" ∷ [],
    )
    ∷ ("ups", "HighTemperature" ∷ [])
    ∷ ("generator", "HighTemperature" ∷ [])
    ∷ []

-- oidToRule and oidToAsset.
unfoldable pub reversed : List (String × String) → List (String × String)
reversed [] = []
reversed ((name, oid) ∷ rest) = (oid, name) ∷ reversed rest

-- The OIDs of the rules that are allowed.
unfoldable pub oids_of : List String → List (String × String) → List String
oids_of allowed [] = []
oids_of allowed ((rule, oid) ∷ rest) =
    let later = oids_of allowed rest in if one_of allowed rule then oid ∷ later else later

unfoldable pub oids : List (String × String) → List String
oids [] = []
oids ((name, oid) ∷ rest) = oid ∷ oids rest

-- A variable of an answer: its name, behind a dot, its value if it
-- has one, and the text of the value.
pub record Variable : Type 0 where
  pub name : String
  pub value : Option ℕ
  pub text : String

-- strings.TrimPrefix(name, ".")
unfoldable pub trim_dot : String → String
trim_dot String.[] = ""
trim_dot (String.◌∷◌ c s) = if code c == 46 then s else String.◌∷◌ c s

-- The readings of the rules that are allowed, in the order of the answer.
unfoldable pub readings : List String → List Variable → List (String × ℕ)
unfolding reversed threshold_oids trim_dot
readings allowed [] = []
readings allowed (vb ∷ vbs) =
    let later = readings allowed vbs in
    elim vb.value [
      | none ↦ later
      | some n ↦ elim (lookup (trim_dot vb.name) (reversed threshold_oids)) [
        | none ↦ later
        | some rule ↦ if one_of allowed rule then (rule, n) ∷ later else later
      ]
    ]

module _ (norm : String → String) (atoi : String → Option ℕ) where
  -- The loop over the asset fields of the answer.
  unfoldable pub patch_all : List Variable → Target → Target
  unfolding reversed asset_oids trim_dot
  patch_all [] t = t
  patch_all (vb ∷ vbs) t = elim vb.value [
    | none ↦ patch_all vbs t
    | some n ↦ elim (lookup (trim_dot vb.name) (reversed asset_oids)) [
      | none ↦ patch_all vbs t
      | some field ↦ patch_all vbs (patch_asset atoi norm field vb.text t).1
    ]
  ]

  -- The rules that apply to a type of device.
  unfoldable pub allowed_rules : String → List String
  unfolding threshold_rules_by_type
  allowed_rules device_type = elim (lookup (norm device_type) threshold_rules_by_type) [
    | none ↦ []
    | some rules ↦ rules
  ]

  unfoldable pub poll_assets : (List String → Option (List Variable)) → Target → Target
  unfolding oids patch_all asset_oids
  poll_assets get t = elim (get (oids asset_oids)) [ none ↦ t | some vbs ↦ patch_all vbs t ]

  unfoldable pub poll_allowed :
      List String → (List String → Option (List Variable)) → Target → List (String × ℕ) × Target
  unfolding oids_of readings poll_assets threshold_oids
  poll_allowed [] get t = ([], poll_assets get t)
  poll_allowed (rule ∷ rules) get t = elim (get (oids_of (rule ∷ rules) threshold_oids)) [
    | none ↦ ([], t)
    | some vbs ↦ (readings (rule ∷ rules) vbs, poll_assets get t)
  ]

  -- pollOne, by what Get answers to a list of OIDs: the threshold packets as a rule and its value,
  -- and the target. There is no request where no rule is allowed.
  unfoldable pub poll_one :
      (List String → Option (List Variable)) → Target → List (String × ℕ) × Target
  unfolding poll_allowed
  poll_one get t = poll_allowed (allowed_rules t.device_type) get t
