-- ===== src/Forward/Scope/Present.antt =====
-- Which scopes the loops of buildPayloads make (fwDCS/internal/forwarder/forwarder.go).
use dcim_data_reader.Prelude.{
  ℕ, ◌≡◌, ◌∙◌, refl, true, Option, none, some, List, [], ◌∷◌, String, arith, inl, inr, Among,
}
use dcim_data_reader.Forward.Rows.{FwdDevice, FwdTopologyLink, FwdEvent}
use dcim_data_reader.Forward.Payload.{AggTopoLink, AggPayload}
use dcim_data_reader.Forward.Convert.{Hydration, agg_device, agg_topo_link, agg_event}
use dcim_data_reader.Forward.Scope.{
  AggregatorConfig, ScopeKey, link_scope, device_scope, event_scope, host_scopes, Groups, in_group,
  add_device, add_link, add_event, place_link, place_links, place_devices, place_events,
  build_groups,
}
use dcim_data_reader.Forward.Scope.Groups.{
  same_scope_refl, has_group, in_group-has_group, IsDistinct, in_group-IsDistinct,
  if_group-IsDistinct,
}
use dcim_data_reader.Forward.Scope.Place.{place_link-has_group}

module _ (V : Type 0) (cfg : AggregatorConfig) (net_id : String) where
  place_links-has_group :
      (hosts : List (String × ScopeKey)) (tls : List FwdTopologyLink) (gs : Groups V cfg net_id)
      (k : ScopeKey)
      → has_group V cfg net_id k (place_links V cfg net_id hosts tls gs)
        ≡ has_group V cfg net_id k gs
  unfolding place_links
  place_links-has_group hosts [] gs k = refl
  place_links-has_group hosts (tl ∷ tls) gs k =
      let o = link_scope hosts tl in
      place_links-has_group hosts tls (place_link V cfg net_id o (agg_topo_link tl) gs) k
      ∙ place_link-has_group V cfg net_id o (agg_topo_link tl) gs k

  place_link-IsDistinct :
      (o : Option ScopeKey) (l : AggTopoLink) (gs : Groups V cfg net_id)
      → IsDistinct V cfg net_id gs
      → IsDistinct V cfg net_id (place_link V cfg net_id o l gs)
  unfolding place_link
  place_link-IsDistinct none l gs h = h
  place_link-IsDistinct (some k) l gs h =
      if_group-IsDistinct V cfg net_id k (add_link V cfg net_id l) gs h

  place_links-IsDistinct :
      (hosts : List (String × ScopeKey)) (tls : List FwdTopologyLink) (gs : Groups V cfg net_id)
      → IsDistinct V cfg net_id gs
      → IsDistinct V cfg net_id (place_links V cfg net_id hosts tls gs)
  unfolding place_links
  place_links-IsDistinct hosts [] gs h = h
  place_links-IsDistinct hosts (tl ∷ tls) gs h =
      let o = link_scope hosts tl in
      place_links-IsDistinct hosts tls (place_link V cfg net_id o (agg_topo_link tl) gs)
        (place_link-IsDistinct o (agg_topo_link tl) gs h)

  module _ (rfc3339 : ℕ → String) (h : Hydration rfc3339 V) where
    abbrev pub Grows : Groups V cfg net_id → Groups V cfg net_id → Type 0
    Grows gs gs' =
        (k : ScopeKey) → has_group V cfg net_id k gs ≡ true → has_group V cfg net_id k gs' ≡ true

    in_group-Grows :
        (k : ScopeKey) (change : AggPayload V → AggPayload V) (gs : Groups V cfg net_id)
        → Grows gs (in_group V cfg net_id k change gs)
    in_group-Grows k change gs j e =
        in_group-has_group V cfg net_id k j change gs ∙ rw e (ground arith)

    in_group-present :
        (k : ScopeKey) (change : AggPayload V → AggPayload V) (gs : Groups V cfg net_id)
        → has_group V cfg net_id k (in_group V cfg net_id k change gs) ≡ true
    in_group-present k change gs =
        let same = same_scope_refl k in in_group-has_group V cfg net_id k k change gs ∙ rw same refl

    pub place_events-Grows :
        (evs : List FwdEvent) (gs : Groups V cfg net_id)
        → Grows gs (place_events V cfg net_id rfc3339 evs gs)
    unfolding place_events
    place_events-Grows [] gs k e = e
    place_events-Grows (ev ∷ evs) gs k e =
        let scope = event_scope V cfg net_id ev in
        let put = add_event V cfg net_id (agg_event rfc3339 ev) in
        place_events-Grows evs (in_group V cfg net_id scope put gs) k
          (in_group-Grows scope put gs k e)

    pub place_events-present :
        (evs : List FwdEvent) (gs : Groups V cfg net_id) (ev : FwdEvent)
        → Among ev evs
        → has_group V cfg net_id
            (event_scope V cfg net_id ev)
            (place_events V cfg net_id rfc3339 evs gs)
          ≡ true
    unfolding place_events
    place_events-present [] gs ev m = absurd m
    place_events-present (x ∷ evs) gs ev (inl e) =
        let scope = event_scope V cfg net_id x in
        let put = add_event V cfg net_id (agg_event rfc3339 x) in
        rw e (
          place_events-Grows evs (in_group V cfg net_id scope put gs) scope
            (in_group-present scope put gs))
    place_events-present (x ∷ evs) gs ev (inr m) =
        place_events-present evs
          (in_group V cfg net_id (event_scope V cfg net_id x)
            (add_event V cfg net_id (agg_event rfc3339 x)) gs)
          ev m

    place_devices-Grows :
        (ds : List (FwdDevice V)) (gs : Groups V cfg net_id)
        → Grows gs (place_devices V cfg net_id rfc3339 h ds gs)
    unfolding place_devices
    place_devices-Grows [] gs k e = e
    place_devices-Grows (d ∷ ds) gs k e =
        let scope = device_scope V cfg net_id d in
        let put = add_device V cfg net_id (agg_device rfc3339 V h d) in
        place_devices-Grows ds (in_group V cfg net_id scope put gs) k
          (in_group-Grows scope put gs k e)

    pub place_devices-present :
        (ds : List (FwdDevice V)) (gs : Groups V cfg net_id) (d : FwdDevice V)
        → Among d ds
        → has_group V cfg net_id
            (device_scope V cfg net_id d)
            (place_devices V cfg net_id rfc3339 h ds gs)
          ≡ true
    unfolding place_devices
    place_devices-present [] gs d m = absurd m
    place_devices-present (x ∷ ds) gs d (inl e) =
        let scope = device_scope V cfg net_id x in
        let put = add_device V cfg net_id (agg_device rfc3339 V h x) in
        rw e (
          place_devices-Grows ds (in_group V cfg net_id scope put gs) scope
            (in_group-present scope put gs))
    place_devices-present (x ∷ ds) gs d (inr m) =
        place_devices-present ds
          (in_group V cfg net_id (device_scope V cfg net_id x)
            (add_device V cfg net_id (agg_device rfc3339 V h x)) gs)
          d m

    place_devices-IsDistinct :
        (ds : List (FwdDevice V)) (gs : Groups V cfg net_id)
        → IsDistinct V cfg net_id gs
        → IsDistinct V cfg net_id (place_devices V cfg net_id rfc3339 h ds gs)
    unfolding place_devices
    place_devices-IsDistinct [] gs apart = apart
    place_devices-IsDistinct (d ∷ ds) gs apart =
        let scope = device_scope V cfg net_id d in
        let put = add_device V cfg net_id (agg_device rfc3339 V h d) in
        place_devices-IsDistinct ds (in_group V cfg net_id scope put gs)
          (in_group-IsDistinct V cfg net_id scope put gs apart)

    place_events-IsDistinct :
        (evs : List FwdEvent) (gs : Groups V cfg net_id)
        → IsDistinct V cfg net_id gs
        → IsDistinct V cfg net_id (place_events V cfg net_id rfc3339 evs gs)
    unfolding place_events
    place_events-IsDistinct [] gs apart = apart
    place_events-IsDistinct (ev ∷ evs) gs apart =
        let scope = event_scope V cfg net_id ev in
        let put = add_event V cfg net_id (agg_event rfc3339 ev) in
        place_events-IsDistinct evs (in_group V cfg net_id scope put gs)
          (in_group-IsDistinct V cfg net_id scope put gs apart)

    pub build_groups-IsDistinct :
        (ds : List (FwdDevice V)) (tls : List FwdTopologyLink) (evs : List FwdEvent)
        → IsDistinct V cfg net_id (build_groups V cfg net_id rfc3339 h ds tls evs)
    unfolding build_groups IsDistinct
    build_groups-IsDistinct ds tls evs =
        let hosts = host_scopes V cfg net_id ds [] in
        let g1 = place_devices V cfg net_id rfc3339 h ds [] in
        place_events-IsDistinct evs (place_links V cfg net_id hosts tls g1)
          (place_links-IsDistinct hosts tls g1 (place_devices-IsDistinct ds [] tt))

    pub build_groups-has_group :
        (ds : List (FwdDevice V)) (tls : List FwdTopologyLink) (evs : List FwdEvent)
        (d : FwdDevice V)
        → Among d ds
        → has_group V cfg net_id
            (device_scope V cfg net_id d)
            (build_groups V cfg net_id rfc3339 h ds tls evs)
          ≡ true
    unfolding build_groups
    build_groups-has_group ds tls evs d m =
        let hosts = host_scopes V cfg net_id ds [] in
        let g1 = place_devices V cfg net_id rfc3339 h ds [] in
        place_events-Grows evs (place_links V cfg net_id hosts tls g1) (device_scope V cfg net_id d)
          (place_links-has_group hosts tls g1 (device_scope V cfg net_id d)
            ∙ place_devices-present ds [] d m)
