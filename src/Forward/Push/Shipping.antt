-- ===== src/Forward/Push/Shipping.antt =====
-- What a push that succeeds has sent (fwDCS/internal/forwarder/forwarder.go).
use dcim_data_reader.Prelude.{
  ℕ, ◌≡◌, ◌∙◌, refl, sym, ap, subst, Bool, true, false, Option, none, some, List, [], ◌∷◌, ◌++◌,
  String, if◌then◌else◌, arith, ok, concat_map, Among, Among-map, Among-select, Among-concat_map,
  Among-concat_map_of, Among-append-right,
}
use dcim_data_reader.Forward.Rows.{FwdDevice, FwdInterface, FwdTopologyLink, FwdEvent}
use dcim_data_reader.Forward.Payload.{AggPayload}
use dcim_data_reader.Forward.Convert.{Hydration, agg_event}
use dcim_data_reader.Forward.Chunk.Split.{JsonLen}
use dcim_data_reader.Forward.Chunk.{chunk_payload}
use dcim_data_reader.Forward.Chunk.Laws.{chunk_payload-contents}
use dcim_data_reader.Forward.Scope.{AggregatorConfig, build_payloads, event_scope, same_scope}
use dcim_data_reader.Forward.Scope.Groups.{same_scope_refl}
use dcim_data_reader.Forward.Scope.Laws.{scope_payload, build_payloads-scope_payload}
use dcim_data_reader.Forward.Post.{Aggregator, Posted, accepted, failed, PostError, post_with_retry}
use dcim_data_reader.Forward.Action.{Db, World, return}
use dcim_data_reader.Forward.Action.Laws.{Yields, bind-Yields, ask-Yields, return-Yields}
use dcim_data_reader.Forward.Queries.{
  Batch, endpoint_devices, query_ends, query_extra, changed_and_extra, query_ifaces, query_addrs,
  hydration, payloads_of,
}
use dcim_data_reader.Forward.Push.{
  keep_posting, post_chunks, post_scopes, first_error, post_outcome, post_all, ship_payloads,
  ship_devices, is_idle, ship,
}

module _ (V : Type 0) (cfg : AggregatorConfig) (rfc3339 : ℕ → String) (len : JsonLen V) (db : Db V)
    (agg : Aggregator V) where
  keep_posting-none :
      (r : Posted) (c : AggPayload V) (rest : List (AggPayload V) × Option PostError)
      (cs : List (AggPayload V))
      → (rest.1 ≡ none → rest.0 ≡ cs)
      → (keep_posting V cfg rfc3339 len db agg r c rest).1 ≡ none
      → (keep_posting V cfg rfc3339 len db agg r c rest).0 ≡ c ∷ cs
  unfolding keep_posting
  keep_posting-none (accepted r) c rest cs later e = ap (λ xs. c ∷ xs) (later e)
  keep_posting-none (failed why) c rest cs later e = ground arith

  post_chunks-none :
      (cs : List (AggPayload V))
      → (post_chunks V cfg rfc3339 len db agg cs).1 ≡ none
      → (post_chunks V cfg rfc3339 len db agg cs).0 ≡ cs
  unfolding post_chunks
  post_chunks-none [] e = refl
  post_chunks-none (c ∷ cs) e =
      keep_posting-none (post_with_retry V agg c) c (post_chunks V cfg rfc3339 len db agg cs) cs
        (post_chunks-none cs) e

  first_error-none :
      (a b : Option PostError)
      → first_error V cfg rfc3339 len db agg a b ≡ none
      → (a ≡ none) × (b ≡ none)
  unfolding first_error
  first_error-none none b e = (refl, e)
  first_error-none (some why) b e = ground arith

  post_scopes-none :
      (ps : List (AggPayload V))
      → (post_scopes V cfg rfc3339 len db agg ps).1 ≡ none
      → (post_scopes V cfg rfc3339 len db agg ps).0 ≡ concat_map (chunk_payload V len) ps
  unfolding post_scopes
  post_scopes-none [] e = refl
  post_scopes-none (p ∷ ps) e =
      let (here, later) = first_error-none _ _ e in
      rw (post_chunks-none (chunk_payload V len p) here, post_scopes-none ps later) refl

  post_outcome-ok :
      (why : Option PostError) (w w' : World V)
      → post_outcome V cfg rfc3339 len db agg why w ≡ (ok true, w')
      → (why ≡ none) × (w' ≡ w)
  unfolding post_outcome
  post_outcome-ok none w w' e = (refl, ap (λ r. r.1) (sym e))
  post_outcome-ok (some why) w w' e = absurd (ground (arith, ap (λ r. r.0) e))

  ship_payloads-sent :
      (ps : List (AggPayload V)) (w w' : World V)
      → ship_payloads V cfg rfc3339 len db agg ps w ≡ (ok true, w')
      → w'.sent ≡ w.sent ++ concat_map (chunk_payload V len) ps
  unfolding ship_payloads post_all return
  ship_payloads-sent [] w w' e = absurd (ground (arith, ap (λ r. r.0) e))
  ship_payloads-sent (p ∷ ps) w w' e =
      let sent = post_scopes V cfg rfc3339 len db agg (p ∷ ps) in
      let (all, same) = post_outcome-ok sent.1 (record w { sent = w.sent ++ sent.0 }) w' e in
      ap (λ x. x.sent) same ∙ ap (λ more. w.sent ++ more) (post_scopes-none (p ∷ ps) all)

  query_extra-Yields :
      (b : Batch V) (w : World V)
      → Yields (query_extra V cfg rfc3339 len db agg b) w (λ found w'. w' ≡ w)
  unfolding query_extra
  query_extra-Yields b w = ask-Yields _ _ w

  query_ends-Yields :
      (net_id : String) (links : List FwdTopologyLink) (w : World V)
      → Yields (query_ends V cfg rfc3339 len db agg net_id links) w (λ found w'. w' ≡ w)
  unfolding query_ends
  query_ends-Yields net_id links w = ask-Yields _ _ w

  query_ifaces-Yields :
      (all : List (FwdDevice V)) (w : World V)
      → Yields (query_ifaces V cfg rfc3339 len db agg all) w (λ found w'. w' ≡ w)
  unfolding query_ifaces
  query_ifaces-Yields all w = ask-Yields _ _ w

  query_addrs-Yields :
      (ifaces : List FwdInterface) (w : World V)
      → Yields (query_addrs V cfg rfc3339 len db agg ifaces) w (λ found w'. w' ≡ w)
  unfolding query_addrs
  query_addrs-Yields ifaces w = ask-Yields _ _ w

  changed_and_extra-Yields :
      (b : Batch V) (w : World V)
      → Yields (changed_and_extra V cfg rfc3339 len db agg b) w (λ all w'. w' ≡ w)
  unfolding changed_and_extra
  changed_and_extra-Yields b w =
      bind-Yields _ _ w (λ found w1. w1 ≡ w) _ (query_extra-Yields b w)
        (λ found w1 same. return-Yields _ w1 (λ all w'. w' ≡ w) same)

  endpoint_devices-Yields :
      (net_id : String) (links : List FwdTopologyLink) (all : List (FwdDevice V)) (w : World V)
      → Yields
          (endpoint_devices V cfg rfc3339 len db agg net_id links all)
          w
          (λ with_ends w'. w' ≡ w)
  unfolding endpoint_devices
  endpoint_devices-Yields net_id [] all w = return-Yields _ w (λ with_ends w'. w' ≡ w) refl
  endpoint_devices-Yields net_id (tl ∷ tls) all w =
      bind-Yields _ _ w (λ found w1. w1 ≡ w) _ (query_ends-Yields net_id (tl ∷ tls) w)
        (λ found w1 same. return-Yields _ w1 (λ with_ends w'. w' ≡ w) same)

  -- The payloads are those of buildPayloads for some devices and what belongs to them.
  unfoldable pub AreBuilt : String → Batch V → List (AggPayload V) → Type 0
  AreBuilt net_id b payloads =
      (h : Hydration rfc3339 V) × ((all : List (FwdDevice V)) × (payloads
          ≡ build_payloads V cfg net_id rfc3339 h all b.links b.events))

  payloads_of-Yields :
      (net_id : String) (b : Batch V) (all : List (FwdDevice V)) (w : World V)
      → Yields
          (payloads_of V cfg rfc3339 len db agg net_id b all)
          w
          (λ payloads w'. AreBuilt net_id b payloads × (w' ≡ w))
  unfolding payloads_of AreBuilt
  payloads_of-Yields net_id b all w =
      bind-Yields _ _ w (λ ifaces w1. w1 ≡ w) _ (query_ifaces-Yields all w)
        (λ ifaces w1 same.
          bind-Yields _ _ w1 (λ addrs w2. w2 ≡ w1) _ (query_addrs-Yields ifaces w1)
            (λ addrs w2 same'.
              return-Yields _ w2 (λ payloads w'. AreBuilt net_id b payloads × (w' ≡ w))
                ((hydration V cfg rfc3339 len db agg b ifaces addrs, (all, refl)), same' ∙ same)))

  -- Where the cursors are to be advanced, the chunks of all the payloads have been accepted.
  unfoldable pub HasSent : String → Batch V → World V → Bool → World V → Type 0
  unfolding AreBuilt
  HasSent net_id b w false w' = Unit
  HasSent net_id b w true w' =
      (payloads : List (AggPayload V)) × (AreBuilt net_id b payloads
        × (w'.sent ≡ w.sent ++ concat_map (chunk_payload V len) payloads))

  ship_payloads-HasSent :
      (net_id : String) (b : Batch V) (payloads : List (AggPayload V)) (w : World V)
      → AreBuilt net_id b payloads
      → Yields (ship_payloads V cfg rfc3339 len db agg payloads) w (HasSent net_id b w)
  unfolding Yields HasSent
  ship_payloads-HasSent net_id b payloads w built false w' e = tt
  ship_payloads-HasSent net_id b payloads w built true w' e =
      (payloads, (built, ship_payloads-sent payloads w w' e))

  ship_or_idle-HasSent :
      (idle : Bool) (net_id : String) (b : Batch V) (all : List (FwdDevice V)) (w : World V)
      → Yields
          (if idle then return false else ship_devices V cfg rfc3339 len db agg net_id b all)
          w
          (HasSent net_id b w)
  unfolding ship_devices HasSent
  ship_or_idle-HasSent true net_id b all w = return-Yields false w (HasSent net_id b w) tt
  ship_or_idle-HasSent false net_id b all w =
      bind-Yields _ _ w (λ with_ends w1. w1 ≡ w) _ (endpoint_devices-Yields net_id b.links all w)
        (λ with_ends w1 same.
          bind-Yields _ _ w1 (λ payloads w2. AreBuilt net_id b payloads × (w2 ≡ w1)) _
            (payloads_of-Yields net_id b with_ends w1)
            (λ payloads w2 (built, same').
              rw (same' ∙ same) (ship_payloads-HasSent net_id b payloads w built)))

  pub ship-HasSent :
      (net_id : String) (b : Batch V) (w : World V)
      → Yields (ship V cfg rfc3339 len db agg net_id b) w (HasSent net_id b w)
  unfolding ship
  ship-HasSent net_id b w =
      bind-Yields _ _ w (λ all w1. w1 ≡ w) _ (changed_and_extra-Yields b w)
        (λ all w1 same.
          rw same (ship_or_idle-HasSent (is_idle V cfg rfc3339 len db agg b all) net_id b all w))

  -- An event is in a chunk that was accepted.
  unfoldable pub IsSent : FwdEvent → List (AggPayload V) → Type 0
  IsSent ev sent = (c : AggPayload V) × (Among c sent × Among (agg_event rfc3339 ev) c.events)

  scope_payload-IsSent :
      (net_id : String) (h : Hydration rfc3339 V) (all : List (FwdDevice V))
      (links : List FwdTopologyLink) (events : List FwdEvent) (ev : FwdEvent)
      → Among ev events
      → Among
          (agg_event rfc3339 ev)
          (scope_payload V cfg net_id rfc3339 h all links events
            (event_scope V cfg net_id ev)).events
  unfolding scope_payload
  scope_payload-IsSent net_id h all links events ev m =
      let scope = event_scope V cfg net_id ev in
      Among-map (agg_event rfc3339) ev _ (
        Among-select (λ x. same_scope (event_scope V cfg net_id x) scope) ev events m
          (same_scope_refl scope))

  -- Every event of the batch has been accepted.
  pub HasSent-IsSent :
      (net_id : String) (b : Batch V) (w w' : World V) (ev : FwdEvent)
      → HasSent net_id b w true w'
      → Among ev b.events
      → IsSent ev w'.sent
  unfolding HasSent AreBuilt IsSent
  HasSent-IsSent net_id b w w' ev (payloads, ((h, (all, built)), sent)) m =
      let scope = event_scope V cfg net_id ev in
      let p = scope_payload V cfg net_id rfc3339 h all b.links b.events scope in
      let there : Among p payloads =
        subst (Among p) (sym built)
          ((build_payloads-scope_payload V cfg net_id rfc3339 h all b.links b.events).2 ev m) in
      let carried : Among (agg_event rfc3339 ev)
          (concat_map (λ c. c.events) (chunk_payload V len p)) =
        subst (Among (agg_event rfc3339 ev)) (sym (chunk_payload-contents V len p).4)
          (scope_payload-IsSent net_id h all b.links b.events ev m) in
      let (c, (in_chunks, here)) =
        Among-concat_map (λ c. c.events) (agg_event rfc3339 ev) (chunk_payload V len p) carried in
      (
        c,
        (
          subst (Among c) (sym sent) (
              Among-append-right c w.sent _
                (Among-concat_map_of (chunk_payload V len) c p payloads there in_chunks)),
          here,
        ),
      )
