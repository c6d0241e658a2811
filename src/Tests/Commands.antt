-- ===== src/Tests/Commands.antt =====
-- The theorems on commands and thresholds at concrete inputs (fwEDR/internal/command/apply.go,
-- fwEDR/internal/threshold/poller.go).
use dcim_data_reader.Prelude.{
  ℕ, zero, suc, ◌≡◌, refl, ap, false, ok, none, some, List, [], ◌∷◌, String, Option, str_eq,
}
use dcim_data_reader.Prelude.Dict.{lookup}
use dcim_data_reader.Target.Assets.{patch_asset}
use dcim_data_reader.Command.Fields.{OidSpec, snmp_field_map, power_fields}
use dcim_data_reader.Command.Thresholds.{
  threshold_oids, threshold_rules_by_type, asset_oids, reversed, poll_one,
}
use dcim_data_reader.Command.Apply.{
  Command, Texts, Write, snmp_text, norm, snmp_write, apply, strip_cidr,
}
use dcim_data_reader.Command.Readback.{lower_case}
use dcim_data_reader.Command.Location.{texts_at, located, AreLower, poll_one-located}
use dcim_data_reader.Command.Edit.{written, number_of, patch_asset-written}
use dcim_data_reader.Tests.Polls.{a_target}

abbrev no_number : String → Option ℕ
no_number text = none

abbrev as_is : String → String
as_is text = text

abbrev ninety : String → ℕ
ninety oid = 90

abbrev switch_rules : List String
switch_rules =
    "HighCPU" ∷ "HighCPUSustained" ∷ "CPUNormal" ∷ "HighTemperature" ∷ "RackFailureMin" ∷ []

switch_listed : lookup "switch" threshold_rules_by_type ≡ some switch_rules
unfolding lookup threshold_rules_by_type
switch_listed = refl

abbrev city_spec : OidSpec
city_spec = record { oid = "1.3.6.1.4.1.99999.4.2.0"; is_int = false }

city_read : lookup city_spec.oid (reversed asset_oids) ≡ some "datacenter_city"
unfolding lookup reversed asset_oids
city_read = refl

-- A number is as many strokes.
abbrev strokes : ℕ → String
strokes zero = ""
strokes (suc n) = String.◌∷◌ "|" (strokes n)

abbrev count : String → ℕ
count String.[] = 0
count (String.◌∷◌ c rest) = suc (count rest)

strokes_counted : (n : ℕ) → count (strokes n) ≡ n
strokes_counted zero = refl
strokes_counted (suc n) = ap suc (strokes_counted n)

abbrev counting_texts : Texts
counting_texts = record {
  trim = as_is;
  lower = as_is;
  atoi = λ text. some (count text);
  parse_float = λ text. none;
}

abbrev agent_texts : String → String
agent_texts oid = oid

all_lower : AreLower as_is
unfolding asset_oids
all_lower = (refl, (refl, (refl, (refl, (refl, (refl, (refl, (refl, (refl, tt)))))))))

poll_one-located_example :
    (poll_one as_is no_number (λ oids. some (texts_at agent_texts oids)) a_target).1
    ≡ located no_number agent_texts a_target
poll_one-located_example = poll_one-located as_is no_number agent_texts a_target all_lower

abbrev city_edit : Command
city_edit = record { id = 2; device_ip = "10.0.0.7/32"; field = "city"; value = "Chicago" }

abbrev city_write : Write
city_write = snmp_text "10.0.0.7" "1.3.6.1.4.1.99999.4.2.0" "Chicago"

city_applied : apply counting_texts city_edit ≡ ok city_write
unfolding apply norm lookup snmp_field_map snmp_write strip_cidr power_fields
city_applied = refl

city_named : lookup (norm counting_texts "city") snmp_field_map ≡ some city_spec
unfolding norm lookup snmp_field_map
city_named = refl

patch_asset-written_example :
    (patch_asset
      (number_of counting_texts)
      (norm counting_texts)
      "city"
      "Chicago"
      (located (number_of counting_texts) agent_texts a_target)).1
    ≡ located (number_of counting_texts) (written strokes city_write agent_texts) a_target
patch_asset-written_example =
    patch_asset-written counting_texts strokes city_edit city_write city_spec "datacenter_city"
      agent_texts a_target (λ n. ap some (strokes_counted n)) city_named city_read city_applied

-- A lower that knows one rule.
abbrev some_texts : Texts
some_texts = record {
  trim = λ text. text;
  lower = λ text. "highcpu";
  atoi = λ text. some 85;
  parse_float = λ text. none;
}

abbrev a_command : Command
a_command = record { id = 1; device_ip = "10.0.0.7/32"; field = "HighCPU"; value = "85" }

rule_read : lookup "HighCPU" threshold_oids ≡ some "1.3.6.1.4.1.99999.3.1.0"
unfolding lookup threshold_oids
rule_read = refl

rule_lowered : lookup "HighCPU" lower_case ≡ some "highcpu"
unfolding lookup
rule_lowered = refl

bare_ip_there : str_eq (strip_cidr "10.0.0.7/32") "" ≡ false
unfolding strip_cidr
bare_ip_there = refl
