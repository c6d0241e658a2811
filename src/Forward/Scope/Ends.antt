-- ===== src/Forward/Scope/Ends.antt =====
-- The scopes that the ends of a link are in (buildPayloads of fwDCS/internal/forwarder/forwarder.go).
use dcim_data_reader.Prelude.{
  ◌≡◌, ◌∙◌, refl, ap, Bool, true, false, ◌&&◌, Option, none, some, List, [], ◌∷◌, String, str_eq,
  eq_iff, if◌then◌else◌, arith,
}
use dcim_data_reader.Prelude.Dict.{lookup, insert, lookup-insert}
use dcim_data_reader.Forward.Rows.{FwdDevice, FwdTopologyLink}
use dcim_data_reader.Forward.Scope.{
  AggregatorConfig, ScopeKey, same_scope, same_scopes, link_scope, device_scope, host_scopes,
}
use dcim_data_reader.Forward.Scope.Place.{is_in}

-- The scope of a link, and the scopes of its ends.
same_scopes-is_in :
    (k : ScopeKey) (src dst : Option ScopeKey)
    → is_in k (same_scopes src dst) ≡ is_in k src && is_in k dst
unfolding is_in same_scopes same_scope
same_scopes-is_in k none dst = refl
same_scopes-is_in k (some a) none = ground arith
same_scopes-is_in k (some a) (some b) = ground (
  arith,
  eq_iff a.dc b.dc,
  eq_iff a.floor b.floor,
  eq_iff a.dc k.dc,
  eq_iff a.floor k.floor,
  eq_iff b.dc k.dc,
  eq_iff b.floor k.floor,
)

module _ (V : Type 0) (cfg : AggregatorConfig) (net_id : String) where
  -- The scope of a host: that of the last device with the name.
  unfoldable pub host_scope : String → List (FwdDevice V) → Option ScopeKey
  host_scope host [] = none
  host_scope host (d ∷ ds) = elim (host_scope host ds) [
    | some k ↦ some k
    | none ↦ if str_eq d.hostname host then some (device_scope V cfg net_id d) else none
  ]

  -- Both ends of the link are hosts of the scope.
  unfoldable pub has_both_ends : List (FwdDevice V) → ScopeKey → FwdTopologyLink → Bool
  unfolding host_scope is_in
  has_both_ends ds k tl =
      is_in k (host_scope tl.src_hostname ds) && is_in k (host_scope tl.dst_hostname ds)

  or_else : Option ScopeKey → Option ScopeKey → Option ScopeKey
  or_else (some k) o = some k
  or_else none o = o

  or_else-insert :
      (found : Option ScopeKey) (b : Bool) (k : ScopeKey) (o : Option ScopeKey)
      → or_else found (if b then some k else o)
        ≡ or_else (elim found [ some j ↦ some j | none ↦ if b then some k else none ]) o
  unfolding or_else
  or_else-insert (some j) b k o = refl
  or_else-insert none true k o = refl
  or_else-insert none false k o = refl

  host_scopes-lookup :
      (host : String) (ds : List (FwdDevice V)) (m : List (String × ScopeKey))
      → lookup host (host_scopes V cfg net_id ds m) ≡ or_else (host_scope host ds) (lookup host m)
  unfolding host_scopes host_scope or_else
  host_scopes-lookup host [] m = refl
  host_scopes-lookup host (d ∷ ds) m =
      let k = device_scope V cfg net_id d in
      host_scopes-lookup host ds (insert d.hostname k m)
      ∙ ap (or_else (host_scope host ds)) (lookup-insert d.hostname host k m)
      ∙ or_else-insert (host_scope host ds) (str_eq d.hostname host) k (lookup host m)

  hosts-host_scope :
      (host : String) (ds : List (FwdDevice V))
      → lookup host (host_scopes V cfg net_id ds []) ≡ host_scope host ds
  unfolding or_else lookup
  hosts-host_scope host ds = host_scopes-lookup host ds [] ∙ same (host_scope host ds)
    where
      same : (o : Option ScopeKey) → or_else o none ≡ o
      same none = refl
      same (some k) = refl

  pub link_scope-has_both_ends :
      (ds : List (FwdDevice V)) (k : ScopeKey) (tl : FwdTopologyLink)
      → is_in k (link_scope (host_scopes V cfg net_id ds []) tl) ≡ has_both_ends ds k tl
  unfolding link_scope has_both_ends
  link_scope-has_both_ends ds k tl =
      ap (is_in k) (λ i.
        same_scopes (hosts-host_scope tl.src_hostname ds i) (hosts-host_scope tl.dst_hostname ds i))
      ∙ same_scopes-is_in k (host_scope tl.src_hostname ds) (host_scope tl.dst_hostname ds)
