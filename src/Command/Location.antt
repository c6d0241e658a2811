-- ===== src/Command/Location.antt =====
-- The asset and location fields of a target that the threshold poller reads from a device, and that a
-- command writes (fwEDR/internal/threshold/poller.go, fwEDR/internal/command/apply.go and
-- fwEDR/internal/target/target.go side by side).
use dcim_data_reader.Prelude.{
  ℕ, ◌≡◌, ◌∙◌, refl, ap, Option, none, some, List, [], ◌∷◌, String, str_append, All,
}
use dcim_data_reader.Prelude.Dict.{lookup}
use dcim_data_reader.Target.{Target}
use dcim_data_reader.Target.Assets.{patch_field, patch_asset}
use dcim_data_reader.Command.Thresholds.{
  Variable, asset_oids, reversed, oids, trim_dot, patch_all, poll_assets, poll_allowed, poll_one,
}

-- What an agent answers that has a text for each OID.
abbrev pub texts_at : (String → String) → List String → List Variable
texts_at v [] = []
texts_at v (oid ∷ oids) =
    record { name = str_append "." oid; value = some 0; text = v oid } ∷ texts_at v oids

abbrev pub number_or : ℕ → Option ℕ → ℕ
number_or old none = old
number_or old (some n) = n

-- The target with the location that the agent has; a rack number that is no number stays.
abbrev pub located : (String → Option ℕ) → (String → String) → Target → Target
located atoi v t = record t {
  country = v "1.3.6.1.4.1.99999.4.1.0";
  datacenter_city = v "1.3.6.1.4.1.99999.4.2.0";
  datacenter_name = v "1.3.6.1.4.1.99999.4.3.0";
  floor = v "1.3.6.1.4.1.99999.4.4.0";
  room = v "1.3.6.1.4.1.99999.4.5.0";
  rack_row = number_or t.rack_row (atoi (v "1.3.6.1.4.1.99999.4.6.0"));
  rack_num = number_or t.rack_num (atoi (v "1.3.6.1.4.1.99999.4.7.0"));
  rack_unit = number_or t.rack_unit (atoi (v "1.3.6.1.4.1.99999.4.8.0"));
  model_name = v "1.3.6.1.4.1.99999.4.9.0";
}

-- The names of the fields are trimmed and in lower case.
abbrev pub AreLower : (String → String) → Type 0
AreLower norm = All (λ e. norm e.0 ≡ e.0) asset_oids

module _ (norm : String → String) (atoi : String → Option ℕ) where
  -- PatchAsset, field after field, with the texts at their OIDs.
  patch_each : (String → String) → List (String × String) → Target → Target
  patch_each v [] t = t
  patch_each v ((field, oid) ∷ es) t = patch_each v es (patch_field atoi field (v oid) t).1

  abbrev IsRead : String × String → Type 0
  IsRead e = lookup (trim_dot (str_append "." e.1)) (reversed asset_oids) ≡ some e.0

  asset_oids-IsRead : All IsRead asset_oids
  unfolding asset_oids reversed trim_dot lookup
  asset_oids-IsRead = (refl, (refl, (refl, (refl, (refl, (refl, (refl, (refl, (refl, tt)))))))))

  patch_all-next :
      (field oid text : String) (vbs : List Variable) (t : Target)
      → lookup (trim_dot (str_append "." oid)) (reversed asset_oids) ≡ some field
      → norm field ≡ field
      → patch_all norm atoi
          (record { name = str_append "." oid; value = some 0; text = text } ∷ vbs)
          t
        ≡ patch_all norm atoi vbs (patch_field atoi field text t).1
  unfolding patch_all patch_asset
  patch_all-next field oid text vbs t read lower =
      rw (patch_all, read)
        (ap (λ name. patch_all norm atoi vbs (patch_field atoi name text t).1) lower)

  patch_all-patch_each :
      (v : String → String) (es : List (String × String)) (t : Target)
      → All IsRead es
      → All (λ e. norm e.0 ≡ e.0) es
      → patch_all norm atoi (texts_at v (oids es)) t ≡ patch_each v es t
  unfolding patch_all oids patch_each
  patch_all-patch_each v [] t read lower = refl
  patch_all-patch_each v ((field, oid) ∷ es) t read lower =
      patch_all-next field oid (v oid) (texts_at v (oids es)) t read.0 lower.0
      ∙ patch_all-patch_each v es (patch_field atoi field (v oid) t).1 read.1 lower.1

  patch_each-located :
      (v : String → String) (t : Target) → patch_each v asset_oids t ≡ located atoi v t
  unfolding patch_each patch_field asset_oids
  patch_each-located v t = refl

  poll_assets-located :
      (v : String → String) (t : Target)
      → AreLower norm
      → poll_assets norm atoi (λ oids. some (texts_at v oids)) t ≡ located atoi v t
  unfolding poll_assets
  poll_assets-located v t lower =
      patch_all-patch_each v asset_oids t asset_oids-IsRead lower ∙ patch_each-located v t

  poll_allowed-assets :
      (v : String → String) (rules : List String) (t : Target)
      → (poll_allowed norm atoi rules (λ oids. some (texts_at v oids)) t).1
        ≡ poll_assets norm atoi (λ oids. some (texts_at v oids)) t
  unfolding poll_allowed
  poll_allowed-assets v [] t = refl
  poll_allowed-assets v (rule ∷ rules) t = refl

  -- Where the names of the asset fields are trimmed and in lower case and the agent has a text
  -- for each OID that is asked for, pollOne leaves a target that differs from the one before in
  -- nothing but the location: each of the nine fields has the text at its own OID, and a rack
  -- field whose text is no number keeps its value.
  pub poll_one-located :
      (v : String → String) (t : Target)
      → AreLower norm
      → (poll_one norm atoi (λ oids. some (texts_at v oids)) t).1 ≡ located atoi v t
  unfolding poll_one
  poll_one-located v t lower = poll_allowed-assets v _ t ∙ poll_assets-located v t lower
