-- ===== src/Command/Edit.antt =====
-- What an edit of a location does, on the device and on the target (fwEDR/internal/command/apply.go,
-- fwEDR/internal/command/loop.go and fwEDR/internal/target/target.go side by side).
use dcim_data_reader.Prelude.{
  ℕ, ◌≡◌, refl, ap, Bool, true, false, Option, none, some, String, str_eq, if◌then◌else◌,
  Bool-cases, Option-cases, inl, inr, Run, ok, err,
}
use dcim_data_reader.Prelude.Dict.{lookup}
use dcim_data_reader.Target.{Target}
use dcim_data_reader.Target.Assets.{patch_field, patch_asset}
use dcim_data_reader.Command.Fields.{
  OidSpec, snmp_field_map, airflow_x10_oids, power_fields, one_of,
}
use dcim_data_reader.Command.Thresholds.{asset_oids, reversed}
use dcim_data_reader.Command.Apply.{
  Error, Texts, Command, Write, redfish_power, redfish_led, snmp_integer, snmp_text, norm, apply,
  snmp_write, integer_write, strip_cidr,
}
use dcim_data_reader.Command.Readback.{Each, done, ◌▹◌, Each-lookup, uses_of}
use dcim_data_reader.Command.Location.{located}

-- The texts of the agent with another one at an OID.
abbrev pub set_text : String → String → (String → String) → String → String
set_text oid text v o = if str_eq o oid then text else v o

-- The texts of the agent after a write; `text_of` gives the text of an integer.
abbrev pub written : (ℕ → String) → Write → (String → String) → String → String
written text_of (redfish_power ip reset) v = v
written text_of (redfish_led ip led) v = v
written text_of (snmp_integer ip oid n) v = set_text oid (text_of n) v
written text_of (snmp_text ip oid text) v = set_text oid text v

-- What holds of the OID if it is one that the poller reads as a field of the location.
abbrev IfAsset : Type 0 → OidSpec → Type 0
IfAsset P spec = elim (lookup spec.oid (reversed asset_oids)) [ none ↦ Unit | some name ↦ P ]

abbrev Plain : String → OidSpec → Type 0
Plain field spec =
    IfAsset
      (◌≡◌ {A = (Option OidSpec × Bool × Bool) × Bool}
        (uses_of field, one_of airflow_x10_oids spec.oid) ((some spec, false, false), false))
      spec

snmp_field_map-Plain : Each Plain snmp_field_map
unfolding snmp_field_map reversed asset_oids lookup power_fields airflow_x10_oids
snmp_field_map-Plain =
    tt ▹ tt ▹ tt ▹ tt ▹ tt ▹ tt ▹ tt ▹ refl ▹ refl ▹ refl ▹ refl ▹ refl ▹ refl ▹ refl ▹ refl ▹ refl
    ▹ refl ▹ refl ▹ tt ▹ tt ▹ tt ▹ tt ▹ tt ▹ tt ▹ tt ▹ tt ▹ tt ▹ tt ▹ tt ▹ tt ▹ tt ▹ tt ▹ tt ▹ tt
    ▹ tt ▹ tt ▹ tt ▹ tt ▹ tt ▹ tt ▹ tt ▹ tt ▹ tt ▹ tt ▹ tt ▹ tt ▹ tt ▹ done

module _ (atoi : String → Option ℕ) (v : String → String) (t : Target) where
  -- The change of the target is that of the texts of the agent.
  abbrev Follows : String → String → String → OidSpec → Type 0
  Follows value text field spec =
      IfAsset
        ((patch_field atoi field value (located atoi v t)).1
          ≡ located atoi (set_text spec.oid text v) t)
        spec

  abbrev TextFollows : String → String → OidSpec → Type 0
  TextFollows value field spec = if spec.is_int then Unit else Follows value value field spec

  abbrev NumberFollows : String → String → String → OidSpec → Type 0
  NumberFollows value text field spec = if spec.is_int then Follows value text field spec else Unit

  snmp_field_map-TextFollows : (value : String) → Each (TextFollows value) snmp_field_map
  unfolding snmp_field_map reversed asset_oids lookup patch_field
  snmp_field_map-TextFollows value =
      tt ▹ tt ▹ tt ▹ tt ▹ tt ▹ tt ▹ tt ▹ refl ▹ refl ▹ refl ▹ refl ▹ refl ▹ refl ▹ tt ▹ tt ▹ tt
      ▹ refl ▹ refl ▹ tt ▹ tt ▹ tt ▹ tt ▹ tt ▹ tt ▹ tt ▹ tt ▹ tt ▹ tt ▹ tt ▹ tt ▹ tt ▹ tt ▹ tt ▹ tt
      ▹ tt ▹ tt ▹ tt ▹ tt ▹ tt ▹ tt ▹ tt ▹ tt ▹ tt ▹ tt ▹ tt ▹ tt ▹ tt ▹ done

  snmp_field_map-NumberFollows :
      (value text : String) (n : ℕ)
      → atoi value ≡ some n
      → atoi text ≡ some n
      → Each (NumberFollows value text) snmp_field_map
  unfolding snmp_field_map reversed asset_oids lookup patch_field
  snmp_field_map-NumberFollows value text n e f =
      tt
      ▹ tt
      ▹ tt
      ▹ tt
      ▹ tt
      ▹ tt
      ▹ tt
      ▹ tt
      ▹ tt
      ▹ tt
      ▹ tt
      ▹ tt
      ▹ tt
      ▹ rw (e, f) refl
      ▹ rw (e, f) refl
      ▹ rw (e, f) refl
      ▹ tt
      ▹ tt
      ▹ tt
      ▹ tt
      ▹ tt
      ▹ tt
      ▹ tt
      ▹ tt
      ▹ tt
      ▹ tt
      ▹ tt
      ▹ tt
      ▹ tt
      ▹ tt
      ▹ tt
      ▹ tt
      ▹ tt
      ▹ tt
      ▹ tt
      ▹ tt
      ▹ tt
      ▹ tt
      ▹ tt
      ▹ tt
      ▹ tt
      ▹ tt
      ▹ tt
      ▹ tt
      ▹ tt
      ▹ tt
      ▹ tt
      ▹ done

-- strconv.Atoi after strings.TrimSpace.
abbrev pub number_of : Texts → String → Option ℕ
number_of texts text = texts.atoi (texts.trim text)

module _ (texts : Texts) where
  open texts use {trim, atoi}

  -- An Apply of a plain field that succeeds is the write of its OID.
  apply-plain :
      (cmd : Command) (spec : OidSpec) (w : Write)
      → uses_of (norm texts cmd.field) ≡ (some spec, false, false)
      → apply texts cmd ≡ ok w
      → snmp_write texts (trim (strip_cidr cmd.device_ip)) spec cmd.value ≡ ok w
  unfolding apply
  apply-plain cmd spec w uses h =
      let found = ap (λ r. r.0) uses in
      let power = ap (λ r. r.1) uses in
      let led = ap (λ r. r.2) uses in
      elim (Bool-cases (str_eq (trim (strip_cidr cmd.device_ip)) "")) [
        | inl e ↦ absurd (failed (rw (apply, e) at h))
        | inr e ↦ rw (apply, e, power, led, found) at h
      ]
    where
      failed : {e : Error} → ◌≡◌ {A = Run Error Write} (err e) (ok w) → ⊥
      failed p = cc

  snmp_write-text :
      (ip value : String) (spec : OidSpec) (w : Write)
      → spec.is_int ≡ false
      → snmp_write texts ip spec value ≡ ok w
      → w ≡ snmp_text ip spec.oid value
  unfolding snmp_write
  snmp_write-text ip value spec w text h = cc (rw (snmp_write, text) at h)

  snmp_write-number :
      (ip value : String) (spec : OidSpec) (w : Write)
      → spec.is_int ≡ true
      → one_of airflow_x10_oids spec.oid ≡ false
      → snmp_write texts ip spec value ≡ ok w
      → (n : ℕ) × (atoi (trim value) ≡ some n) × (w ≡ snmp_integer ip spec.oid n)
  unfolding snmp_write integer_write
  snmp_write-number ip value spec w number plain h = elim (Option-cases (atoi (trim value))) [
    | inl e ↦ absurd (failed (rw (snmp_write, number, plain, e) at h))
    | inr (n, e) ↦ (n, e, cc (rw (snmp_write, number, plain, e) at h))
  ]
    where
      failed : {e : Error} → ◌≡◌ {A = Run Error Write} (err e) (ok w) → ⊥
      failed p = cc

  -- Where a command names a location field of snmpFieldMap whose OID the threshold poller
  -- reads, Apply makes its write, and the text of an integer reads as that integer, PatchAsset
  -- with the field and the value of the command turns a target with the location of the agent
  -- into the target with the location that the agent has after the write, and changes nothing
  -- else.
  pub patch_asset-written :
      (text_of : ℕ → String) (cmd : Command) (w : Write) (spec : OidSpec) (name : String)
      (v : String → String) (t : Target)
      → ((n : ℕ) → number_of texts (text_of n) ≡ some n)
      → lookup (norm texts cmd.field) snmp_field_map ≡ some spec
      → lookup spec.oid (reversed asset_oids) ≡ some name
      → apply texts cmd ≡ ok w
      → (patch_asset
          (number_of texts)
          (norm texts)
          cmd.field
          cmd.value
          (located (number_of texts) v t)).1
        ≡ located (number_of texts) (written text_of w v) t
  unfolding patch_asset
  patch_asset-written text_of cmd w spec name v t reads found asset h =
      let number = number_of texts in
      let field = norm texts cmd.field in
      let ip = trim (strip_cidr cmd.device_ip) in
      let plain =
        rw (IfAsset, asset) at
          (Each-lookup Plain snmp_field_map field spec snmp_field_map-Plain found) in
      let h' = apply-plain cmd spec w (ap (λ r. r.0) plain) h in
      elim (Bool-cases spec.is_int) [
        | inr text ↦
            let same = snmp_write-text ip cmd.value spec w text h' in
            let follows =
              Each-lookup (TextFollows number v t cmd.value) snmp_field_map field spec
                (snmp_field_map-TextFollows number v t cmd.value) found in
            rw same (rw (IfAsset, text, asset) at follows)
        | inl is_number ↦
            let (n, value, same) =
              snmp_write-number ip cmd.value spec w is_number (ap (λ r. r.1) plain) h' in
            let follows =
              Each-lookup (NumberFollows number v t cmd.value (text_of n)) snmp_field_map field spec
                (snmp_field_map-NumberFollows number v t cmd.value (text_of n) n value (reads n))
                found in
            rw same (rw (IfAsset, is_number, asset) at follows)
      ]
