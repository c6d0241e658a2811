-- ===== src/Forward/Push/Keeps.antt =====
-- What a push keeps, however it ends (fwDCS/internal/forwarder/forwarder.go).
use dcim_data_reader.Prelude.{
  ℕ, ◌*◌, ◌≡◌, ◌∙◌, refl, ap, Bool, true, false, Option, none, some, List, [], ◌∷◌, ◌++◌, String,
  if◌then◌else◌, arith, err,
}
use dcim_data_reader.Forward.Rows.{FwdDevice, FwdInterface, FwdTopologyLink}
use dcim_data_reader.Forward.Payload.{AggPayload}
use dcim_data_reader.Forward.Chunk.Split.{JsonLen}
use dcim_data_reader.Forward.Scope.{AggregatorConfig}
use dcim_data_reader.Forward.Gate.{Gates}
use dcim_data_reader.Forward.Post.{Aggregator, PostError}
use dcim_data_reader.Forward.Action.{Db, World, PushError, return, ask}
use dcim_data_reader.Forward.Action.Laws.{
  Relation, Keeps, same_cursors, FailsClean, bind-Keeps, return-Keeps, ask-Keeps, bind-FailsClean,
}
use dcim_data_reader.Forward.Queries.{
  Batch, gate_opens, after_query, run_query, query_table, query_batch, query_devices, query_metrics,
  query_energy, query_links, query_events, endpoint_devices, query_ends, query_extra,
  changed_and_extra, query_ifaces, query_addrs, payloads_of, batch_limit_of,
}
use dcim_data_reader.Forward.Push.{
  write_cursor, post_scopes, post_outcome, post_all, ship_payloads, ship_devices, is_idle, ship,
  advance_table, advance, finish_push, push_network,
}

module _ (V : Type 0) (cfg : AggregatorConfig) (rfc3339 : ℕ → String) (len : JsonLen V) (db : Db V)
    (agg : Aggregator V) where
  -- A relation that a change of the gates and a chunk that is accepted keep.
  module _ (R : Relation V)
      (gates-Holds : (w : World V) (gates : Gates) → R.Holds w (record w { gates = gates }))
      (sent-Holds : (w : World V) (more : List (AggPayload V))
        → R.Holds w (record w { sent = w.sent ++ more })) where
    gate_opens-Holds :
        (force : Bool) (table net_id : String) (w : World V)
        → R.Holds w (gate_opens V cfg rfc3339 len db agg force table net_id w).1
    unfolding gate_opens
    gate_opens-Holds true table net_id w = R.holds_refl w
    gate_opens-Holds false table net_id w = gates-Holds w _

    after_query-Keeps :
        {A : Type 0} (table net_id : String) (rows : Option (List A))
        → Keeps R (after_query V cfg rfc3339 len db agg table net_id rows)
    unfolding after_query ask Keeps
    after_query-Keeps {A} table net_id none w = R.holds_refl w
    after_query-Keeps table net_id (some rows) w = gates-Holds w _

    run_query-Keeps :
        {A : Type 0} (asks : Bool) (table net_id : String) (rows_after : ℕ → Option (List A))
        → Keeps R (run_query V cfg rfc3339 len db agg asks table net_id rows_after)
    unfolding run_query Keeps
    run_query-Keeps true table net_id rows_after w = after_query-Keeps table net_id _ w
    run_query-Keeps false table net_id rows_after w = R.holds_refl w

    query_table-Keeps :
        {A : Type 0} (force : Bool) (table net_id : String) (rows_after : ℕ → Option (List A))
        → Keeps R (query_table V cfg rfc3339 len db agg force table net_id rows_after)
    unfolding query_table Keeps
    query_table-Keeps force table net_id rows_after w =
        let opened = gate_opens V cfg rfc3339 len db agg force table net_id w in
        R.holds_trans w opened.1 _ (gate_opens-Holds force table net_id w)
          (run_query-Keeps opened.0 table net_id rows_after opened.1)

    pub query_devices-Keeps :
        (force : Bool) (net_id : String)
        → Keeps R (query_devices V cfg rfc3339 len db agg force net_id)
    unfolding query_devices
    query_devices-Keeps force net_id =
        query_table-Keeps force "devices" net_id
          (λ since. db.devices_updated_since net_id since (batch_limit_of cfg))

    pub query_metrics-Keeps :
        (force : Bool) (net_id : String)
        → Keeps R (query_metrics V cfg rfc3339 len db agg force net_id)
    unfolding query_metrics
    query_metrics-Keeps force net_id =
        query_table-Keeps force "metrics" net_id
          (λ since. db.metrics_since net_id since (batch_limit_of cfg * 50))

    pub query_energy-Keeps :
        (force : Bool) (net_id : String)
        → Keeps R (query_energy V cfg rfc3339 len db agg force net_id)
    unfolding query_energy
    query_energy-Keeps force net_id =
        query_table-Keeps force "energy" net_id
          (λ since. db.energy_since net_id since (batch_limit_of cfg * 50))

    pub query_links-Keeps :
        (force : Bool) (net_id : String)
        → Keeps R (query_links V cfg rfc3339 len db agg force net_id)
    unfolding query_links
    query_links-Keeps force net_id =
        query_table-Keeps force "topology" net_id
          (λ since. db.topology_links_since net_id since (batch_limit_of cfg))

    pub query_events-Keeps :
        (force : Bool) (net_id : String)
        → Keeps R (query_events V cfg rfc3339 len db agg force net_id)
    unfolding query_events
    query_events-Keeps force net_id =
        query_table-Keeps force "events" net_id
          (λ since. db.events_since net_id since (batch_limit_of cfg))

    pub query_batch-Keeps :
        (force : Bool) (net_id : String)
        → Keeps R (query_batch V cfg rfc3339 len db agg force net_id)
    unfolding query_batch
    query_batch-Keeps force net_id = bind-Keeps R _ _ (query_devices-Keeps force net_id) (λ ds.
        bind-Keeps R _ _ (query_metrics-Keeps force net_id) (λ ms.
          bind-Keeps R _ _ (query_energy-Keeps force net_id) (λ es.
            bind-Keeps R _ _ (query_links-Keeps force net_id) (λ ls.
              bind-Keeps R _ _ (query_events-Keeps force net_id) (λ evs. return-Keeps R _)))))

    query_extra-Keeps : (b : Batch V) → Keeps R (query_extra V cfg rfc3339 len db agg b)
    unfolding query_extra
    query_extra-Keeps b = ask-Keeps R _ _

    query_ends-Keeps :
        (net_id : String) (links : List FwdTopologyLink)
        → Keeps R (query_ends V cfg rfc3339 len db agg net_id links)
    unfolding query_ends
    query_ends-Keeps net_id links = ask-Keeps R _ _

    changed_and_extra-Keeps : (b : Batch V) → Keeps R (changed_and_extra V cfg rfc3339 len db agg b)
    unfolding changed_and_extra
    changed_and_extra-Keeps b = bind-Keeps R _ _ (query_extra-Keeps b) (λ found. return-Keeps R _)

    endpoint_devices-Keeps :
        (net_id : String) (links : List FwdTopologyLink) (all : List (FwdDevice V))
        → Keeps R (endpoint_devices V cfg rfc3339 len db agg net_id links all)
    unfolding endpoint_devices
    endpoint_devices-Keeps net_id [] all = return-Keeps R all
    endpoint_devices-Keeps net_id (tl ∷ tls) all =
        bind-Keeps R _ _ (query_ends-Keeps net_id (tl ∷ tls)) (λ found. return-Keeps R _)

    query_ifaces-Keeps :
        (all : List (FwdDevice V)) → Keeps R (query_ifaces V cfg rfc3339 len db agg all)
    unfolding query_ifaces
    query_ifaces-Keeps all = ask-Keeps R _ _

    query_addrs-Keeps :
        (ifaces : List FwdInterface) → Keeps R (query_addrs V cfg rfc3339 len db agg ifaces)
    unfolding query_addrs
    query_addrs-Keeps ifaces = ask-Keeps R _ _

    payloads_of-Keeps :
        (net_id : String) (b : Batch V) (all : List (FwdDevice V))
        → Keeps R (payloads_of V cfg rfc3339 len db agg net_id b all)
    unfolding payloads_of
    payloads_of-Keeps net_id b all =
        bind-Keeps R _ _ (query_ifaces-Keeps all)
          (λ ifaces. bind-Keeps R _ _ (query_addrs-Keeps ifaces) (λ addrs. return-Keeps R _))

    post_outcome-world :
        (why : Option PostError) (w : World V) → (post_outcome V cfg rfc3339 len db agg why w).1 ≡ w
    unfolding post_outcome
    post_outcome-world none w = refl
    post_outcome-world (some e) w = refl

    post_all-Keeps :
        (payloads : List (AggPayload V)) → Keeps R (post_all V cfg rfc3339 len db agg payloads)
    unfolding post_all Keeps
    post_all-Keeps payloads w =
        let (sent, why) = post_scopes V cfg rfc3339 len db agg payloads in
        rw (post_outcome-world why (record w { sent = w.sent ++ sent })) (sent-Holds w sent)

    ship_payloads-Keeps :
        (payloads : List (AggPayload V)) → Keeps R (ship_payloads V cfg rfc3339 len db agg payloads)
    unfolding ship_payloads
    ship_payloads-Keeps [] = return-Keeps R false
    ship_payloads-Keeps (p ∷ ps) = post_all-Keeps (p ∷ ps)

    ship_devices-Keeps :
        (net_id : String) (b : Batch V) (all : List (FwdDevice V))
        → Keeps R (ship_devices V cfg rfc3339 len db agg net_id b all)
    unfolding ship_devices
    ship_devices-Keeps net_id b all =
        bind-Keeps R _ _ (endpoint_devices-Keeps net_id b.links all)
          (λ with_ends. bind-Keeps R _ _ (payloads_of-Keeps net_id b with_ends) ship_payloads-Keeps)

    ship_or_idle-Keeps :
        (idle : Bool) (net_id : String) (b : Batch V) (all : List (FwdDevice V))
        → Keeps R
            (if idle then return false else ship_devices V cfg rfc3339 len db agg net_id b all)
    ship_or_idle-Keeps true net_id b all = return-Keeps R false
    ship_or_idle-Keeps false net_id b all = ship_devices-Keeps net_id b all

    pub ship-Keeps :
        (net_id : String) (b : Batch V) → Keeps R (ship V cfg rfc3339 len db agg net_id b)
    unfolding ship
    ship-Keeps net_id b =
        bind-Keeps R _ _ (changed_and_extra-Keeps b)
          (λ all. ship_or_idle-Keeps (is_idle V cfg rfc3339 len db agg b all) net_id b all)

  push_network-FailsClean :
      (force : Bool) (net_id : String)
      → FailsClean (push_network V cfg rfc3339 len db agg force net_id)
  unfolding push_network finish_push
  push_network-FailsClean force net_id =
      bind-FailsClean _ _
        (query_batch-Keeps same_cursors (λ w gates. refl) (λ w more. refl) force net_id)
        (λ b.
          bind-FailsClean _ _ (ship-Keeps same_cursors (λ w gates. refl) (λ w more. refl) net_id b)
            (λ shipped w w' e h. absurd (ground (arith, ap (λ r. r.0) h))))

  -- A pushNetwork that fails, in a query or in a post, leaves every cursor as it was.
  pub push_network-err :
      (force : Bool) (net_id : String) (w w' : World V) (why : PushError)
      → push_network V cfg rfc3339 len db agg force net_id w ≡ (err why, w')
      → w'.cursors ≡ w.cursors
  push_network-err force net_id w w' why e = push_network-FailsClean force net_id w w' why e

  advance_table-sent :
      {A : Type 0} (name net_id : String) (ts : A → ℕ) (rows : List A) (w : World V)
      → (advance_table V cfg rfc3339 len db agg name net_id ts rows w).sent ≡ w.sent
  unfolding advance_table write_cursor
  advance_table-sent name net_id ts rows w = ground arith

  pub advance-sent :
      (net_id : String) (b : Batch V) (w : World V)
      → (advance V cfg rfc3339 len db agg net_id b w).sent ≡ w.sent
  unfolding advance
  advance-sent net_id b w =
      advance_table-sent _ _ _ b.events _
      ∙ advance_table-sent _ _ _ b.links _
      ∙ advance_table-sent _ _ _ b.energy _
      ∙ advance_table-sent _ _ _ b.metrics _
      ∙ advance_table-sent _ _ _ b.devices w
