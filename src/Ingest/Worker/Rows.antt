-- ===== src/Ingest/Worker/Rows.antt =====
-- The rows that the ingest workers hand to the database (fwDCS/internal/store/timescale.go), and the
-- part of their configuration that they read (fwDCS/pkg/config/config.go).
use dcim_data_reader.Prelude.{
  ℕ, Bool, true, false, List, [], ◌∷◌, ◌++◌, String, str_eq, if◌then◌else◌,
}

-- A MetricRow, with the attributes as the keys of Meta that are left.
pub record MetricRow (V : Type 0) : Type 0 where
  pub device_id : String
  pub ts : ℕ
  pub metric_name : String
  pub tag : String
  pub value : V
  pub attributes : List (String × String)
  pub collector_agent : String
  pub collector_protocol : String
  pub interface_id : String

pub record EnergyRow (V : Type 0) : Type 0 where
  pub device_id : String
  pub ts : ℕ
  pub metric_name : String
  pub tag : String
  pub circuit : String
  pub phase : String
  pub value : V
  pub attributes : List (String × String)
  pub collector_agent : String
  pub collector_protocol : String

-- config.IngestConfig, as far as the workers read it.
pub record IngestConfig : Type 0 where
  pub buffer_rows : ℕ
  pub dedup_metrics : Bool
  pub dedup_events : Bool

listed_key : String → List String → Bool
listed_key key [] = false
listed_key key (k ∷ ks) = let later = listed_key key ks in if str_eq k key then true else later

-- store.MapWithout
unfoldable pub map_without : List String → List (String × String) → List (String × String)
unfolding listed_key
map_without keys [] = []
map_without keys ((key, text) ∷ rest) =
    let later = map_without keys rest in if listed_key key keys then later else (key, text) ∷ later

abbrev pub energy_keys : List String
energy_keys =
    "hostname" ∷ "device_type" ∷ "vendor" ∷ "mgmt_ip" ∷ "prod_ip" ∷ "loopback_ip" ∷ "oob_ip"
    ∷ "collector_agent" ∷ "collector_protocol" ∷ "snmp_enabled" ∷ "gnmi_enabled" ∷ []

abbrev pub metric_keys : List String
metric_keys =
    energy_keys
    ++ "os_name" ∷ "platform" ∷ "platform_version" ∷ "kernel_version" ∷ "architecture"
      ∷ "sys_description" ∷ []

abbrev pub or_text : String → String → String
or_text default text = if str_eq text "" then default else text
