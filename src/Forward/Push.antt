-- ===== src/Forward/Push.antt =====
-- push and pushNetwork of fwDCS/internal/forwarder/forwarder.go. The goroutines that post the scopes
-- are run one after the other: they share no chunk. drainNotify and the ticks of Run only decide
-- when a push starts, and with which `force`.
pub mod Keeps
pub mod Shipping
pub mod Queried
pub mod Advance
pub mod Delivery
use dcim_data_reader.Prelude.{
  ℕ, Bool, true, false, ◌&&◌, Option, none, some, List, [], ◌∷◌, ◌++◌, String, length,
  if◌then◌else◌, last, Run, ok, err, panic, hang, ◌==◌,
}
use dcim_data_reader.Forward.Rows.{FwdDevice}
use dcim_data_reader.Forward.Payload.{AggPayload}
use dcim_data_reader.Forward.Chunk.Split.{JsonLen}
use dcim_data_reader.Forward.Chunk.{chunk_payload}
use dcim_data_reader.Forward.Scope.{AggregatorConfig}
use dcim_data_reader.Forward.Post.{
  Aggregator, Posted, accepted, failed, PostError, post_with_retry, exhausted,
}
use dcim_data_reader.Forward.Cursor.{set_cursor}
use dcim_data_reader.Forward.Action.{Db, World, PushError, post_failed, Action, return, ◌>>=◌, ask}
use dcim_data_reader.Forward.Queries.{
  Batch, query_batch, endpoint_devices, changed_and_extra, payloads_of,
}

module _ (V : Type 0) (cfg : AggregatorConfig) (rfc3339 : ℕ → String) (len : JsonLen V) (db : Db V)
    (agg : Aggregator V) where
  -- SetForwarderCursor, whose error is dropped.
  unfoldable pub write_cursor : String → String → ℕ → World V → World V
  unfolding set_cursor
  write_cursor name net_id t w =
      if db.writes_cursor name net_id
      then record w { cursors = set_cursor name net_id t w.cursors }
      else w

  -- What the post of a chunk and the posts after it give.
  unfoldable pub keep_posting :
      Posted
      → AggPayload V
      → List (AggPayload V) × Option PostError
      → List (AggPayload V) × Option PostError
  keep_posting (accepted r) c rest = (c ∷ rest.0, rest.1)
  keep_posting (failed why) c rest = ([], some why)

  -- The chunks of a scope up to the first that fails, and its error.
  unfoldable pub post_chunks : List (AggPayload V) → List (AggPayload V) × Option PostError
  unfolding post_with_retry keep_posting
  post_chunks [] = ([], none)
  post_chunks (c ∷ cs) = keep_posting (post_with_retry V agg c) c (post_chunks cs)

  first_error : Option PostError → Option PostError → Option PostError
  first_error none later = later
  first_error (some why) later = some why

  -- Every scope, also after one that fails.
  unfoldable pub post_scopes : List (AggPayload V) → List (AggPayload V) × Option PostError
  unfolding post_chunks chunk_payload first_error
  post_scopes [] = ([], none)
  post_scopes (p ∷ ps) =
      let (sent, why) = post_chunks (chunk_payload V len p) in
      let (later, why') = post_scopes ps in (sent ++ later, first_error why why')

  post_outcome : Option PostError → World V → Run PushError Bool × World V
  post_outcome none w = (ok true, w)
  post_outcome (some why) w = (err (post_failed why), w)

  unfoldable pub post_all : List (AggPayload V) → Action V Bool
  unfolding post_scopes post_outcome
  post_all payloads w =
      let (sent, why) = post_scopes payloads in
      post_outcome why (record w { sent = w.sent ++ sent })

  unfoldable pub ship_payloads : List (AggPayload V) → Action V Bool
  unfolding return post_all
  ship_payloads [] = return false
  ship_payloads (p ∷ ps) = post_all (p ∷ ps)

  unfoldable pub ship_devices : String → Batch V → List (FwdDevice V) → Action V Bool
  unfolding endpoint_devices payloads_of ship_payloads ◌>>=◌
  ship_devices net_id b all = do
    with_ends ← endpoint_devices V cfg rfc3339 len db agg net_id b.links all
    payloads ← payloads_of V cfg rfc3339 len db agg net_id b with_ends
    ship_payloads payloads

  -- Whether nothing changed.
  unfoldable pub is_idle : Batch V → List (FwdDevice V) → Bool
  is_idle b all = length all == 0 && length b.links == 0 && length b.events == 0

  -- Everything between the queries and the cursors: whether the cursors are to be advanced.
  unfoldable pub ship : String → Batch V → Action V Bool
  unfolding changed_and_extra ship_devices return is_idle ◌>>=◌
  ship net_id b = do
    all ← changed_and_extra V cfg rfc3339 len db agg b
    if is_idle b all then return false else ship_devices net_id b all

  unfoldable pub advance_table :
      {A : Type 0} → String → String → (A → ℕ) → List A → World V → World V
  unfolding write_cursor
  advance_table name net_id ts rows w = elim (last rows) [
    | none ↦ w
    | some row ↦ write_cursor name net_id (ts row) w
  ]

  unfoldable pub advance : String → Batch V → World V → World V
  unfolding advance_table
  advance net_id b w =
      advance_table "events" net_id (λ e. e.ts) b.events
        (advance_table "topology" net_id (λ l. l.updated_at) b.links
          (advance_table "energy" net_id (λ e. e.ts) b.energy
            (advance_table "metrics" net_id (λ m. m.ts) b.metrics
              (advance_table "devices" net_id (λ d. d.updated_at) b.devices w))))

  unfoldable pub finish_push : String → Batch V → Bool → Action V Unit
  unfolding advance
  finish_push net_id b shipped w = (ok tt, if shipped then advance net_id b w else w)

  unfoldable pub push_network : Bool → String → Action V Unit
  unfolding query_batch ship finish_push ◌>>=◌
  push_network force net_id = do
    b ← query_batch V cfg rfc3339 len db agg force net_id
    shipped ← ship net_id b
    finish_push net_id b shipped

  -- `if err != nil && firstErr == nil`
  keep_first : Run PushError Unit → Run PushError Unit → Run PushError Unit
  keep_first (ok u) r = r
  keep_first (err e) r = err e
  keep_first panic r = panic
  keep_first hang r = hang

  -- The loop over the networks, with the pull of commands after each as a parameter.
  unfoldable pub push_networks :
      (String → World V → World V) → Bool → List String → Run PushError Unit → Action V Unit
  unfolding push_network keep_first
  push_networks pull force [] first w = (first, w)
  push_networks pull force (net_id ∷ nets) first w =
      let (r, w') = push_network force net_id w in
      push_networks pull force nets (keep_first first r) (pull net_id w')

  or_configured : List String → List String
  or_configured [] = cfg.network_id ∷ []
  or_configured (net_id ∷ nets) = net_id ∷ nets

  unfoldable pub push : (String → World V → World V) → Bool → Action V Unit
  unfolding ask push_networks or_configured ◌>>=◌
  push pull force = do
    nets ← ask "distinct networks" db.distinct_networks
    push_networks pull force (or_configured nets) (ok tt)
