-- ===== src/Target/Laws.antt =====
-- The names and the capabilities of targets (fwEDR/internal/target/target.go).
use dcim_data_reader.Prelude.{
  ◌≡◌, refl, arith, Bool, true, false, str_eq, if◌then◌else◌, String, List, [], ◌∷◌, bit_or,
  bit_set,
}
use dcim_data_reader.Target.{
  TargetConfig, SnmpConfig, Target, from_config, has, cap_snmp, cap_gnmi, cap_bacnet, source_id,
  set_hostname,
}

-- A target made from its configuration has the SNMP capability, and it has the gNMI and the
-- BACnet capability exactly if its configuration enables them.
pub has-from_config :
    (tc : TargetConfig) (global : SnmpConfig)
    → (has cap_snmp (from_config tc global) ≡ true)
      × (has cap_gnmi (from_config tc global) ≡ tc.gnmi_enabled)
      × (has cap_bacnet (from_config tc global) ≡ tc.bacnet_enabled)
unfolding has from_config
has-from_config tc global = flags tc.gnmi_enabled tc.bacnet_enabled
  where
    flags :
        (gnmi bacnet : Bool)
        → let caps =
            (if bacnet
              then bit_or 4 (if gnmi then bit_or 2 1 else 1)
              else (if gnmi then bit_or 2 1 else 1)) in
          (bit_set caps 0 ≡ true) × (bit_set caps 1 ≡ gnmi) × (bit_set caps 2 ≡ bacnet)
    flags true true = (refl, refl, refl)
    flags true false = (refl, refl, refl)
    flags false true = (refl, refl, refl)
    flags false false = (refl, refl, refl)

-- Names that are adopted one after another.
pub adopt : List String → Target → Target
adopt [] t = t
adopt (name ∷ names) t = adopt names (set_hostname name t)

-- The last name of the list that is not empty, and `name` if there is none.
pub last_name : String → List String → String
last_name name [] = name
last_name name (next ∷ names) = last_name (if str_eq next "" then name else next) names

adopt_lem :
    (names : List String) (t : Target) → (adopt names t).hostname ≡ last_name t.hostname names
unfolding adopt last_name set_hostname
adopt_lem [] t = refl
adopt_lem (name ∷ names) t = ground (arith, adopt_lem names (set_hostname name t))

adopt-ip : (names : List String) (t : Target) → (adopt names t).ip ≡ t.ip
unfolding adopt set_hostname
adopt-ip [] t = refl
adopt-ip (name ∷ names) t = ground (arith, adopt-ip names (set_hostname name t))

-- After any host names have been adopted one after another, SourceID is the last of them that
-- is not empty, or else the host name before, or the IP address where that is empty too.
pub source_id-adopt :
    (names : List String) (t : Target)
    → source_id (adopt names t)
      ≡ (if str_eq (last_name t.hostname names) "" then t.ip else last_name t.hostname names)
unfolding source_id
source_id-adopt names t = rw (adopt_lem names t, adopt-ip names t)
