-- ===== src/Command/Apply.antt =====
-- How a command becomes a write of a device (fwEDR/internal/command/apply.go), and a round of the
-- loop that pulls, applies and acknowledges commands (fwEDR/internal/command/loop.go). The write
-- itself, over SNMP or HTTP, succeeds or fails.
use Prim.Native.Char.{code}
use dcim_data_reader.Prelude.{
  ℕ, zero, suc, ◌+◌, ◌*◌, ◌/◌, ◌%◌, Bool, false, ◌||◌, Option, none, some, List, [], ◌∷◌, String,
  str_eq, if◌then◌else◌, ◌==◌, Run, ok, err, panic, hang, ◌>>=◌, or_fail,
}
use dcim_data_reader.Prelude.Dict.{lookup, insert}
use dcim_data_reader.Target.{Target}
use dcim_data_reader.Target.Assets.{patch_asset}
use dcim_data_reader.Command.Fields.{
  OidSpec, snmp_field_map, airflow_x10_oids, power_fields, one_of, normalize_led,
  normalize_reset_type,
}

pub data Error : Type 0 where
  empty_device_ip unsupported_field unsupported_value expects_number : Error

pub record Command : Type 0 where
  pub id : ℕ
  pub device_ip : String
  pub field : String
  pub value : String

-- What is written: the ResetType or the IndicatorLED of the device's first system, or the value of
-- an OID, as an Integer or as an OctetString.
pub data Write : Type 0 where
  redfish_power redfish_led : String → String → Write
  snmp_integer : String → String → ℕ → Write
  snmp_text : String → String → String → Write

-- A number as ParseFloat reads it, as a fraction; it is not negative.
pub record Fraction : Type 0 where
  pub numerator : ℕ
  pub denominator : ℕ

-- The integer that an airflow OID expects: a whole number as it is, and else ten times the number,
-- rounded half up.
unfoldable pub airflow_integer : Fraction → ℕ
airflow_integer f =
    if f.numerator % f.denominator == 0
    then f.numerator / f.denominator
    else (20 * f.numerator + f.denominator) / (2 * f.denominator)

-- stripCIDR: what stands before the first slash.
unfoldable pub strip_cidr : String → String
strip_cidr String.[] = ""
strip_cidr (String.◌∷◌ c s) =
    let rest = strip_cidr s in if code c == 47 then "" else String.◌∷◌ c rest

-- The targets, and the position of each by its management IP and by its IP.
pub record Runner : Type 0 where
  pub by_ip : List (String × ℕ)
  pub targets : List Target

-- `if ip != "" { byIP[ip] = t }`
with_ip : String → ℕ → List (String × ℕ) → List (String × ℕ)
with_ip ip i m = if str_eq ip "" then m else insert ip i m

positions : ℕ → List Target → List (String × ℕ) → List (String × ℕ)
unfolding with_ip
positions i [] m = m
positions i (t ∷ ts) m = positions (i + 1) ts (with_ip t.ip i (with_ip t.mgmt_ip i m))

unfoldable pub new_runner : List Target → Runner
unfolding positions
new_runner ts = record { by_ip = positions 0 ts []; targets = ts }

patch_at : ℕ → (Target → Target) → List Target → List Target
patch_at i f [] = []
patch_at zero f (t ∷ ts) = f t ∷ ts
patch_at (suc i) f (t ∷ ts) = t ∷ patch_at i f ts

-- strings.TrimSpace and strings.ToLower, and strconv.Atoi and strconv.ParseFloat at a text without
-- blanks at its ends.
pub record Texts : Type 0 where
  pub trim : String → String
  pub lower : String → String
  pub atoi : String → Option ℕ
  pub parse_float : String → Option Fraction

module _ (texts : Texts) where
  open texts use {trim, lower, atoi, parse_float}

  unfoldable pub norm : String → String
  norm text = lower (trim text)

  airflow_write : String → OidSpec → String → Run Error Write
  airflow_write device_ip spec value = do
    f ← or_fail expects_number (parse_float (trim value))
    ok (snmp_integer device_ip spec.oid (airflow_integer f))

  unfoldable pub integer_write : String → OidSpec → String → Run Error Write
  integer_write device_ip spec value = do
    n ← or_fail expects_number (atoi (trim value))
    ok (snmp_integer device_ip spec.oid n)

  -- applySNMPSet, up to the SET.
  unfoldable pub snmp_write : String → OidSpec → String → Run Error Write
  unfolding airflow_write integer_write
  snmp_write device_ip spec value =
      if spec.is_int
      then if one_of airflow_x10_oids spec.oid
        then airflow_write device_ip spec value
        else integer_write device_ip spec value
      else ok (snmp_text device_ip spec.oid value)

  -- Apply, up to its write.
  unfoldable pub apply : Command → Run Error Write
  unfolding norm snmp_write
  apply cmd =
      let device_ip = trim (strip_cidr cmd.device_ip) in
      let field = norm cmd.field in
      let reset = normalize_reset_type norm cmd.value in
      let led = normalize_led norm cmd.value in
      if str_eq device_ip ""
      then err empty_device_ip
      else if one_of power_fields field
      then if str_eq reset "" then err unsupported_value else ok (redfish_power device_ip reset)
      else if str_eq field "indicator_led" || str_eq field "led"
      then if str_eq led "" then err unsupported_value else ok (redfish_led device_ip led)
      else elim (lookup field snmp_field_map) [
        | none ↦ err unsupported_field
        | some spec ↦ snmp_write device_ip spec cmd.value
      ]

  -- Whether Apply succeeds, by the outcome of its write.
  applied : Bool → Command → Bool
  applied written cmd = elim (apply cmd) [
    | ok w ↦ written
    | err e ↦ false
    | panic ↦ false
    | hang ↦ false
  ]

  -- `t.PatchAsset(c.Field, c.Value)`, where the map has a target.
  patched : Command → Runner → Runner
  unfolding patch_at
  patched cmd r = elim (lookup (strip_cidr cmd.device_ip) r.by_ip) [
    | none ↦ r
    | some i ↦ record r {
      targets =
          patch_at i (λ t. (patch_asset (λ text. atoi (trim text)) norm cmd.field cmd.value t).1)
            r.targets;
    }
  ]

  -- The loop of tick over the pulled commands, with the outcome of each write, and whether the
  -- context is done after it: the acknowledgements, and the runner.
  unfoldable pub tick : List (Command × Bool × Bool) → Runner → List (ℕ × Bool) × Runner
  unfolding applied patched
  tick [] r = ([], r)
  tick ((cmd, written, done) ∷ rest) r =
      let success = applied written cmd in
      let r' = if success then patched cmd r else r in
      let later = tick rest r' in
      if done then ((cmd.id, success) ∷ [], r') else ((cmd.id, success) ∷ later.0, later.1)
