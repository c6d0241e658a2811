-- ===== src/Forward/Scope/Laws.antt =====
-- What the payloads of a push carry (buildPayloads of fwDCS/internal/forwarder/forwarder.go).
use mathlib.Core.Path.{fun_ext}
use dcim_data_reader.Prelude.{
  ℕ, ◌≡◌, ◌∙◌, sym, ap, subst, true, List, [], ◌∷◌, ◌++◌, map, String, arith, append_assoc,
  append-nil, select, Among, All, All-of-Among,
}
use dcim_data_reader.Prelude.Dict.{lookup}
use dcim_data_reader.Forward.Rows.{FwdDevice, FwdTopologyLink, FwdEvent}
use dcim_data_reader.Forward.Payload.{AggDevice, AggTopoLink, AggEvent, AggPayload}
use dcim_data_reader.Forward.Convert.{Hydration, agg_device, agg_topo_link, agg_event}
use dcim_data_reader.Forward.Scope.{
  AggregatorConfig, ScopeKey, same_scope, device_scope, event_scope, host_scopes, empty_payload,
  add_device, add_link, add_event, place_links, place_devices, build_groups, build_payloads,
}
use dcim_data_reader.Forward.Scope.Groups.{group_at, has_group, has_group-Among, Among-group_at}
use dcim_data_reader.Forward.Scope.Ends.{has_both_ends, link_scope-has_both_ends}
use dcim_data_reader.Forward.Scope.Present.{
  place_events-present, build_groups-has_group, build_groups-IsDistinct,
}
use dcim_data_reader.Forward.Scope.Place.{
  at, put_all, place_devices-group_at, place_links-group_at, place_events-group_at,
  host_scopes-AllGrouped,
}

module _ (V : Type 0) (cfg : AggregatorConfig) (net_id : String) where
  -- What buildPayloads is to send for a scope: the devices and the events of the scope, and the links
  -- that have both their ends in it.
  unfoldable pub scope_payload :
      (rfc3339 : ℕ → String)
      → Hydration rfc3339 V
      → List (FwdDevice V)
      → List FwdTopologyLink
      → List FwdEvent
      → ScopeKey
      → AggPayload V
  unfolding has_both_ends empty_payload
  scope_payload rfc3339 h ds tls evs k = record (empty_payload V cfg net_id k) {
    devices =
        map (agg_device rfc3339 V h) (select (λ d. same_scope (device_scope V cfg net_id d) k) ds);
    topology_links = map agg_topo_link (select (has_both_ends V cfg net_id ds k) tls);
    events =
        map (agg_event rfc3339) (select (λ ev. same_scope (event_scope V cfg net_id ev) k) evs);
  }

  put_devices :
      (f : FwdDevice V → AggDevice V) (ds : List (FwdDevice V)) (p : AggPayload V)
      → put_all V cfg net_id (λ d. add_device V cfg net_id (f d)) ds p
        ≡ record p { devices = p.devices ++ map f ds }
  unfolding put_all add_device
  put_devices f [] p = λ i. record p { devices = sym (append-nil p.devices) i }
  put_devices f (d ∷ ds) p =
      put_devices f ds (record p { devices = p.devices ++ f d ∷ [] })
      ∙ ap (λ x. record p { devices = x }) (append_assoc p.devices (f d ∷ []) (map f ds))

  put_links :
      (f : FwdTopologyLink → AggTopoLink) (ls : List FwdTopologyLink) (p : AggPayload V)
      → put_all V cfg net_id (λ l. add_link V cfg net_id (f l)) ls p
        ≡ record p { topology_links = p.topology_links ++ map f ls }
  unfolding put_all add_link
  put_links f [] p = λ i. record p { topology_links = sym (append-nil p.topology_links) i }
  put_links f (l ∷ ls) p =
      put_links f ls (record p { topology_links = p.topology_links ++ f l ∷ [] })
      ∙ ap (λ x. record p { topology_links = x })
          (append_assoc p.topology_links (f l ∷ []) (map f ls))

  put_events :
      (f : FwdEvent → AggEvent) (es : List FwdEvent) (p : AggPayload V)
      → put_all V cfg net_id (λ e. add_event V cfg net_id (f e)) es p
        ≡ record p { events = p.events ++ map f es }
  unfolding put_all add_event
  put_events f [] p = λ i. record p { events = sym (append-nil p.events) i }
  put_events f (e ∷ es) p =
      put_events f es (record p { events = p.events ++ f e ∷ [] })
      ∙ ap (λ x. record p { events = x }) (append_assoc p.events (f e ∷ []) (map f es))

  module _ (rfc3339 : ℕ → String) (h : Hydration rfc3339 V) where
    build_groups-group_at :
        (ds : List (FwdDevice V)) (tls : List FwdTopologyLink) (evs : List FwdEvent) (k : ScopeKey)
        → at V cfg net_id k (build_groups V cfg net_id rfc3339 h ds tls evs)
          ≡ scope_payload rfc3339 h ds tls evs k
    unfolding build_groups scope_payload empty_payload group_at lookup
    build_groups-group_at ds tls evs k =
        let hosts = host_scopes V cfg net_id ds [] in
        let g1 = place_devices V cfg net_id rfc3339 h ds [] in
        let g2 = place_links V cfg net_id hosts tls g1 in
        let links = select (has_both_ends V cfg net_id ds k) tls in
        let events = select (λ ev. same_scope (event_scope V cfg net_id ev) k) evs in
        place_events-group_at V cfg net_id rfc3339 h evs g2 k
        ∙ put_events (agg_event rfc3339) events (at V cfg net_id k g2)
        ∙ ap
            (λ (p : AggPayload V). record p { events = p.events ++ map (agg_event rfc3339) events })
            (place_links-group_at V cfg net_id hosts tls g1 k (
                host_scopes-AllGrouped V cfg net_id rfc3339 h ds [] []
                  (λ host j e. absurd (ground arith)))
              ∙ ap
                  (λ test.
                    put_all V cfg net_id (λ l. add_link V cfg net_id (agg_topo_link l))
                      (select test tls) (at V cfg net_id k g1))
                  (fun_ext (link_scope-has_both_ends V cfg net_id ds k))
              ∙ put_links agg_topo_link links (at V cfg net_id k g1)
              ∙ ap
                  (λ (p : AggPayload V). record p {
                    topology_links = p.topology_links ++ map agg_topo_link links;
                  })
                  (place_devices-group_at V cfg net_id rfc3339 h ds [] k
                    ∙ put_devices (agg_device rfc3339 V h)
                        (select (λ d. same_scope (device_scope V cfg net_id d) k) ds)
                        (empty_payload V cfg net_id k)))

    pub build_payloads-scope_payload :
        (ds : List (FwdDevice V)) (tls : List FwdTopologyLink) (evs : List FwdEvent)
        → let payloads = build_payloads V cfg net_id rfc3339 h ds tls evs in
          let whole = scope_payload rfc3339 h ds tls evs in
          ((p : AggPayload V) → Among p payloads → (k : ScopeKey) × (p ≡ whole k))
          × ((d : FwdDevice V) → Among d ds → Among (whole (device_scope V cfg net_id d)) payloads)
          × ((ev : FwdEvent) → Among ev evs → Among (whole (event_scope V cfg net_id ev)) payloads)
    unfolding build_payloads build_groups
    build_payloads-scope_payload ds tls evs =
        let groups = build_groups V cfg net_id rfc3339 h ds tls evs in
        let payloads = build_payloads V cfg net_id rfc3339 h ds tls evs in
        let here : (k : ScopeKey)
            → has_group V cfg net_id k groups ≡ true
            → Among (scope_payload rfc3339 h ds tls evs k) payloads =
          λ k there.
            subst (λ p. Among p payloads) (build_groups-group_at ds tls evs k)
              (has_group-Among V cfg net_id k groups there) in
        (
          λ p m.
              let (k, (there, e)) =
                Among-group_at V cfg net_id p groups
                  (build_groups-IsDistinct V cfg net_id rfc3339 h ds tls evs) m in
              (k, e ∙ build_groups-group_at ds tls evs k),
          λ d m.
              here (device_scope V cfg net_id d)
                (build_groups-has_group V cfg net_id rfc3339 h ds tls evs d m),
          λ ev m. here (event_scope V cfg net_id ev) (
              place_events-present V cfg net_id rfc3339 h evs
                (place_links V cfg net_id (host_scopes V cfg net_id ds []) tls
                  (place_devices V cfg net_id rfc3339 h ds []))
                ev m),
        )

    -- Every payload of buildPayloads carries, for one data center and floor, exactly the
    -- devices and the events of that scope and the links whose ends both name hosts of it, in
    -- order, where a host is in the scope of the last device of its name; and the scope of each
    -- device and of each event has such a payload.
    pub build_payloads-scopes :
        (ds : List (FwdDevice V)) (tls : List FwdTopologyLink) (evs : List FwdEvent)
        → let payloads = build_payloads V cfg net_id rfc3339 h ds tls evs in
          let whole = scope_payload rfc3339 h ds tls evs in
          All (λ p. (k : ScopeKey) × (p ≡ whole k)) payloads
          × All (λ d. Among (whole (device_scope V cfg net_id d)) payloads) ds
          × All (λ ev. Among (whole (event_scope V cfg net_id ev)) payloads) evs
    build_payloads-scopes ds tls evs =
        let (shape, devices, events) = build_payloads-scope_payload ds tls evs in
        (All-of-Among _ _ shape, All-of-Among _ ds devices, All-of-Among _ evs events)
