-- ===== src/Target/Assets.antt =====
-- PatchAsset of fwEDR/internal/target/target.go. `norm` is strings.ToLower after strings.TrimSpace,
-- and `atoi` strconv.Atoi after strings.TrimSpace, which gives `none` on an error; a rack number is
-- not negative.
use dcim_data_reader.Prelude.{
  ℕ, Bool, true, false, Option, none, some, String, str_eq, ◌||◌, if◌then◌else◌,
}
use dcim_data_reader.Target.{Target}

or_old : ℕ → Option ℕ → ℕ
or_old old none = old
or_old old (some n) = n

module _ (atoi : String → Option ℕ) where
  -- The switch, at the field in lower case.
  unfoldable pub patch_field : String → String → Target → Bool × Target
  unfolding or_old
  patch_field field value t =
      if str_eq field "country"
      then (true, record t { country = value })
      else if str_eq field "datacenter"
      then (true, record t { datacenter_name = value })
      else if str_eq field "datacenter_city" || str_eq field "city"
      then (true, record t { datacenter_city = value })
      else if str_eq field "room"
      then (true, record t { room = value })
      else if str_eq field "floor"
      then (true, record t { floor = value })
      else if str_eq field "model" || str_eq field "model_name"
      then (true, record t { model_name = value })
      else if str_eq field "rack_row"
      then (true, record t { rack_row = or_old t.rack_row (atoi value) })
      else if str_eq field "rack_num"
      then (true, record t { rack_num = or_old t.rack_num (atoi value) })
      else if str_eq field "rack_unit"
      then (true, record t { rack_unit = or_old t.rack_unit (atoi value) })
      else (false, t)

  unfoldable pub patch_asset : (String → String) → String → String → Target → Bool × Target
  unfolding patch_field
  patch_asset norm field value t = patch_field (norm field) value t
