-- ===== src/Forward/Scope.antt =====
-- buildPayloads of fwDCS/internal/forwarder/forwarder.go: the rows of a push, in one payload for each
-- data center and floor. The order of Go's walk over the map of payloads is free; here the payloads
-- stand in the order in which they are made.
pub mod Groups
pub mod Place
pub mod Ends
pub mod Present
pub mod Laws
use dcim_data_reader.Prelude.{
  ℕ, Bool, true, false, ◌&&◌, Option, none, some, List, [], ◌∷◌, ◌++◌, map, String, str_eq,
  if◌then◌else◌,
}
use dcim_data_reader.Prelude.Dict.{lookup, insert}
use dcim_data_reader.Forward.Rows.{FwdDevice, FwdTopologyLink, FwdEvent}
use dcim_data_reader.Forward.Payload.{AggDevice, AggTopoLink, AggEvent, AggPayload}
use dcim_data_reader.Forward.Convert.{Hydration, agg_device, agg_topo_link, agg_event}

-- config.AggregatorConfig (fwDCS/pkg/config/config.go), as far as the forwarder reads it. A number
-- that is not positive is 0.
pub record AggregatorConfig : Type 0 where
  pub interval_ms : ℕ
  pub batch_limit : ℕ
  pub idle_interval_ms : ℕ
  pub event_debounce_ms : ℕ
  pub org_id : String
  pub network_id : String
  pub group_id : String
  pub default_datacenter_id : String
  pub default_floor_id : String

-- scopeKey
pub record ScopeKey : Type 0 where
  pub dc : String
  pub floor : String

unfoldable pub same_scope : ScopeKey → ScopeKey → Bool
same_scope a b = str_eq a.dc b.dc && str_eq a.floor b.floor

abbrev pub scope_fallback : String
scope_fallback = "unknown"

unfoldable pub dc_or_default : AggregatorConfig → String → String
dc_or_default cfg dc =
    if str_eq dc ""
    then (if str_eq cfg.default_datacenter_id "" then scope_fallback else cfg.default_datacenter_id)
    else dc

unfoldable pub floor_or_default : AggregatorConfig → String → String
floor_or_default cfg floor =
    if str_eq floor ""
    then (if str_eq cfg.default_floor_id "" then scope_fallback else cfg.default_floor_id)
    else floor

unfoldable pub scope_of : AggregatorConfig → String → String → ScopeKey
unfolding dc_or_default floor_or_default
scope_of cfg dc floor = record { dc = dc_or_default cfg dc; floor = floor_or_default cfg floor }

-- hostScope[host] where the map has it.
same_scopes : Option ScopeKey → Option ScopeKey → Option ScopeKey
unfolding same_scope
same_scopes none dst = none
same_scopes (some k) none = none
same_scopes (some k) (some j) = if same_scope k j then some k else none

-- The scope that both ends of a link are in.
unfoldable pub link_scope : List (String × ScopeKey) → FwdTopologyLink → Option ScopeKey
unfolding same_scopes lookup
link_scope host_scope tl =
    same_scopes (lookup tl.src_hostname host_scope) (lookup tl.dst_hostname host_scope)

module _ (V : Type 0) (cfg : AggregatorConfig) (net_id : String) where
  unfoldable pub device_scope : FwdDevice V → ScopeKey
  unfolding scope_of
  device_scope d = scope_of cfg d.datacenter_id d.floor_id

  unfoldable pub event_scope : FwdEvent → ScopeKey
  unfolding scope_of
  event_scope ev = scope_of cfg ev.datacenter_id ev.floor_id

  -- The loop that fills hostScope.
  unfoldable pub host_scopes :
      List (FwdDevice V) → List (String × ScopeKey) → List (String × ScopeKey)
  unfolding device_scope insert
  host_scopes [] m = m
  host_scopes (d ∷ ds) m = host_scopes ds (insert d.hostname (device_scope d) m)

  unfoldable pub empty_payload : ScopeKey → AggPayload V
  empty_payload k = record {
    org_id = cfg.org_id;
    datacenter_id = k.dc;
    floor_id = k.floor;
    network_id = net_id;
    group_id = cfg.group_id;
    devices = [];
    topology_links = [];
    events = [];
  }

  -- `groups`
  abbrev pub Groups : Type 0
  Groups = List (ScopeKey × AggPayload V)

  -- A change of the payload that getGroup gives, which makes it where there is none.
  unfoldable pub in_group : ScopeKey → (AggPayload V → AggPayload V) → Groups → Groups
  unfolding empty_payload same_scope
  in_group k change [] = (k, change (empty_payload k)) ∷ []
  in_group k change (g ∷ gs) =
      let later = in_group k change gs in
      if same_scope g.0 k then (g.0, change g.1) ∷ gs else g ∷ later

  -- A change of `groups[k]`, where it is not nil.
  unfoldable pub if_group : ScopeKey → (AggPayload V → AggPayload V) → Groups → Groups
  unfolding same_scope
  if_group k change [] = []
  if_group k change (g ∷ gs) =
      let later = if_group k change gs in
      if same_scope g.0 k then (g.0, change g.1) ∷ gs else g ∷ later

  unfoldable pub add_device : AggDevice V → AggPayload V → AggPayload V
  add_device d p = record p { devices = p.devices ++ d ∷ [] }

  unfoldable pub add_link : AggTopoLink → AggPayload V → AggPayload V
  add_link l p = record p { topology_links = p.topology_links ++ l ∷ [] }

  unfoldable pub add_event : AggEvent → AggPayload V → AggPayload V
  add_event e p = record p { events = p.events ++ e ∷ [] }

  unfoldable pub place_link : Option ScopeKey → AggTopoLink → Groups → Groups
  unfolding if_group add_link
  place_link none l gs = gs
  place_link (some k) l gs = if_group k (add_link l) gs

  unfoldable pub place_links : List (String × ScopeKey) → List FwdTopologyLink → Groups → Groups
  unfolding place_link link_scope agg_topo_link
  place_links host_scope [] gs = gs
  place_links host_scope (tl ∷ tls) gs =
      place_links host_scope tls (place_link (link_scope host_scope tl) (agg_topo_link tl) gs)

  module _ (rfc3339 : ℕ → String) where
    unfoldable pub place_devices : Hydration rfc3339 V → List (FwdDevice V) → Groups → Groups
    unfolding in_group add_device agg_device device_scope
    place_devices h [] gs = gs
    place_devices h (d ∷ ds) gs =
        place_devices h ds (in_group (device_scope d) (add_device (agg_device rfc3339 V h d)) gs)

    unfoldable pub place_events : List FwdEvent → Groups → Groups
    unfolding in_group add_event agg_event event_scope
    place_events [] gs = gs
    place_events (ev ∷ evs) gs =
        place_events evs (in_group (event_scope ev) (add_event (agg_event rfc3339 ev)) gs)

    unfoldable pub build_groups :
        Hydration rfc3339 V → List (FwdDevice V) → List FwdTopologyLink → List FwdEvent → Groups
    unfolding place_devices place_links place_events host_scopes
    build_groups h devices topo_links events =
        place_events events
          (place_links (host_scopes devices []) topo_links (place_devices h devices []))

    unfoldable pub build_payloads :
        Hydration rfc3339 V
        → List (FwdDevice V)
        → List FwdTopologyLink
        → List FwdEvent
        → List (AggPayload V)
    unfolding build_groups
    build_payloads h devices topo_links events =
        map (λ g. g.1) (build_groups h devices topo_links events)
