-- ===== src/Forward/Scope/Place.antt =====
-- Where the loops of buildPayloads put the rows (fwDCS/internal/forwarder/forwarder.go).
use dcim_data_reader.Prelude.{
  ℕ, ◌≡◌, ◌∙◌, refl, sym, ap, subst, Bool, true, false, ◌||◌, Option, none, some, List, [], ◌∷◌,
  String, str_eq, if◌then◌else◌, arith, inl, inr, Bool-cases, select,
}
use dcim_data_reader.Prelude.Dict.{lookup, insert, lookup-insert}
use dcim_data_reader.Forward.Rows.{FwdDevice, FwdTopologyLink, FwdEvent}
use dcim_data_reader.Forward.Payload.{AggPayload, AggTopoLink}
use dcim_data_reader.Forward.Convert.{Hydration, agg_device, agg_topo_link, agg_event}
use dcim_data_reader.Forward.Scope.{
  AggregatorConfig, ScopeKey, same_scope, same_scopes, link_scope, device_scope, event_scope,
  host_scopes, Groups, in_group, add_device, add_link, add_event, place_link, place_links,
  place_devices, place_events,
}
use dcim_data_reader.Forward.Scope.Groups.{
  same_scope_refl, group_at, has_group, in_group-group_at, if_group-group_at, in_group-has_group,
  if_group-has_group,
}

-- A link that both ends place in the scope.
unfoldable pub is_in : ScopeKey → Option ScopeKey → Bool
is_in k none = false
is_in k (some j) = same_scope j k

found_scope :
    (b : Bool) (scope k : ScopeKey) (o : Option ScopeKey) (has : Bool)
    → (o ≡ some k → has ≡ true)
    → (if b then some scope else o) ≡ some k
    → same_scope scope k || has ≡ true
found_scope true scope k o has h e =
    let same : same_scope scope k ≡ true =
      subst (λ x. same_scope scope x ≡ true) (cc e) (same_scope_refl scope) in
    rw same refl
found_scope false scope k o has h e = rw (h e) (ground arith)

module _ (V : Type 0) (cfg : AggregatorConfig) (net_id : String) where
  abbrev pub at : ScopeKey → Groups V cfg net_id → AggPayload V
  at = group_at V cfg net_id

  -- The scopes that the loop over the devices gives their hosts are scopes of devices.
  abbrev pub AllGrouped : List (String × ScopeKey) → Groups V cfg net_id → Type 0
  AllGrouped hosts gs =
      (host : String) (k : ScopeKey)
      → lookup host hosts ≡ some k
      → has_group V cfg net_id k gs ≡ true

  -- The rows, put into a payload one after the other.
  unfoldable pub put_all :
      {A : Type 0} → (A → AggPayload V → AggPayload V) → List A → AggPayload V → AggPayload V
  put_all put [] p = p
  put_all put (x ∷ xs) p = put_all put xs (put x p)

  put_next :
      {A : Type 0} (put : A → AggPayload V → AggPayload V) (x : A) (xs : List A) (b : Bool)
      (p : AggPayload V)
      → put_all put xs (if b then put x p else p) ≡ put_all put (if b then x ∷ xs else xs) p
  unfolding put_all
  put_next put x xs true p = refl
  put_next put x xs false p = refl

  abbrev IsGrouped : Option ScopeKey → Groups V cfg net_id → Type 0
  IsGrouped none gs = Unit
  IsGrouped (some k) gs = has_group V cfg net_id k gs ≡ true

  place_link-group_at :
      (o : Option ScopeKey) (l : AggTopoLink) (gs : Groups V cfg net_id) (k : ScopeKey)
      → IsGrouped o gs
      → at k (place_link V cfg net_id o l gs)
        ≡ (if is_in k o then add_link V cfg net_id l (at k gs) else at k gs)
  unfolding place_link is_in
  place_link-group_at none l gs k h = refl
  place_link-group_at (some j) l gs k h =
      if_group-group_at V cfg net_id j k (add_link V cfg net_id l) gs h

  pub place_link-has_group :
      (o : Option ScopeKey) (l : AggTopoLink) (gs : Groups V cfg net_id) (k : ScopeKey)
      → has_group V cfg net_id k (place_link V cfg net_id o l gs) ≡ has_group V cfg net_id k gs
  unfolding place_link
  place_link-has_group none l gs k = refl
  place_link-has_group (some j) l gs k =
      if_group-has_group V cfg net_id j k (add_link V cfg net_id l) gs

  same_scopes-IsGrouped :
      (src dst : Option ScopeKey) (gs : Groups V cfg net_id)
      → ((k : ScopeKey) → src ≡ some k → has_group V cfg net_id k gs ≡ true)
      → IsGrouped (same_scopes src dst) gs
  unfolding same_scopes
  same_scopes-IsGrouped none dst gs h = tt
  same_scopes-IsGrouped (some k) none gs h = tt
  same_scopes-IsGrouped (some k) (some j) gs h = elim (Bool-cases (same_scope k j)) [
    | inl e ↦ rw e (h k refl)
    | inr e ↦ rw e tt
  ]

  link_scope-IsGrouped :
      (hosts : List (String × ScopeKey)) (tl : FwdTopologyLink) (gs : Groups V cfg net_id)
      → AllGrouped hosts gs
      → IsGrouped (link_scope hosts tl) gs
  unfolding link_scope
  link_scope-IsGrouped hosts tl gs all =
      same_scopes-IsGrouped (lookup tl.src_hostname hosts) (lookup tl.dst_hostname hosts) gs
        (all tl.src_hostname)

  pub place_links-group_at :
      (hosts : List (String × ScopeKey)) (tls : List FwdTopologyLink) (gs : Groups V cfg net_id)
      (k : ScopeKey)
      → AllGrouped hosts gs
      → at k (place_links V cfg net_id hosts tls gs)
        ≡ put_all
            (λ tl. add_link V cfg net_id (agg_topo_link tl))
            (select (λ tl. is_in k (link_scope hosts tl)) tls)
            (at k gs)
  unfolding place_links put_all
  place_links-group_at hosts [] gs k all = refl
  place_links-group_at hosts (tl ∷ tls) gs k all =
      let o = link_scope hosts tl in
      let put = λ (x : FwdTopologyLink). add_link V cfg net_id (agg_topo_link x) in
      let rest = select (λ x. is_in k (link_scope hosts x)) tls in
      let gs' = place_link V cfg net_id o (agg_topo_link tl) gs in
      place_links-group_at hosts tls gs' k
        (λ host j e. place_link-has_group o (agg_topo_link tl) gs j ∙ all host j e)
      ∙ ap (put_all put rest)
          (place_link-group_at o (agg_topo_link tl) gs k (link_scope-IsGrouped hosts tl gs all))
      ∙ put_next put tl rest (is_in k o) (at k gs)

  module _ (rfc3339 : ℕ → String) (h : Hydration rfc3339 V) where
    pub place_devices-group_at :
        (ds : List (FwdDevice V)) (gs : Groups V cfg net_id) (k : ScopeKey)
        → at k (place_devices V cfg net_id rfc3339 h ds gs)
          ≡ put_all
              (λ d. add_device V cfg net_id (agg_device rfc3339 V h d))
              (select (λ d. same_scope (device_scope V cfg net_id d) k) ds)
              (at k gs)
    unfolding place_devices put_all
    place_devices-group_at [] gs k = refl
    place_devices-group_at (d ∷ ds) gs k =
        let scope = device_scope V cfg net_id d in
        let put = λ (x : FwdDevice V). add_device V cfg net_id (agg_device rfc3339 V h x) in
        let rest = select (λ x. same_scope (device_scope V cfg net_id x) k) ds in
        place_devices-group_at ds (in_group V cfg net_id scope (put d) gs) k
        ∙ ap (put_all put rest) (in_group-group_at V cfg net_id scope k (put d) gs)
        ∙ put_next put d rest (same_scope scope k) (at k gs)

    pub place_events-group_at :
        (evs : List FwdEvent) (gs : Groups V cfg net_id) (k : ScopeKey)
        → at k (place_events V cfg net_id rfc3339 evs gs)
          ≡ put_all
              (λ ev. add_event V cfg net_id (agg_event rfc3339 ev))
              (select (λ ev. same_scope (event_scope V cfg net_id ev) k) evs)
              (at k gs)
    unfolding place_events put_all
    place_events-group_at [] gs k = refl
    place_events-group_at (ev ∷ evs) gs k =
        let scope = event_scope V cfg net_id ev in
        let put = λ (x : FwdEvent). add_event V cfg net_id (agg_event rfc3339 x) in
        let rest = select (λ x. same_scope (event_scope V cfg net_id x) k) evs in
        place_events-group_at evs (in_group V cfg net_id scope (put ev) gs) k
        ∙ ap (put_all put rest) (in_group-group_at V cfg net_id scope k (put ev) gs)
        ∙ put_next put ev rest (same_scope scope k) (at k gs)

    insert-AllGrouped :
        (d : FwdDevice V) (hosts : List (String × ScopeKey)) (gs : Groups V cfg net_id)
        (change : AggPayload V → AggPayload V)
        → AllGrouped hosts gs
        → AllGrouped
            (insert d.hostname (device_scope V cfg net_id d) hosts)
            (in_group V cfg net_id (device_scope V cfg net_id d) change gs)
    insert-AllGrouped d hosts gs change all host k e =
        let scope = device_scope V cfg net_id d in
        in_group-has_group V cfg net_id scope k change gs
        ∙ found_scope (str_eq d.hostname host) scope k (lookup host hosts)
            (has_group V cfg net_id k gs) (all host k)
            (sym (lookup-insert d.hostname host scope hosts) ∙ e)

    pub host_scopes-AllGrouped :
        (ds : List (FwdDevice V)) (hosts : List (String × ScopeKey)) (gs : Groups V cfg net_id)
        → AllGrouped hosts gs
        → AllGrouped
            (host_scopes V cfg net_id ds hosts)
            (place_devices V cfg net_id rfc3339 h ds gs)
    unfolding host_scopes place_devices
    host_scopes-AllGrouped [] hosts gs all = all
    host_scopes-AllGrouped (d ∷ ds) hosts gs all =
        let scope = device_scope V cfg net_id d in
        let put = add_device V cfg net_id (agg_device rfc3339 V h d) in
        host_scopes-AllGrouped ds (insert d.hostname scope hosts)
          (in_group V cfg net_id scope put gs) (insert-AllGrouped d hosts gs put all)
