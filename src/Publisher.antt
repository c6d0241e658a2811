-- ===== src/Publisher.antt =====
-- The publisher (fwEDR/internal/publisher/publisher.go), which drains the queue to DCS, and the gate
-- of fwEDR/internal/health/gate.go that stops the pollers while DCS is down.
pub mod Gate
pub mod Requeue
use dcim_data_reader.Prelude.{
  ℕ, ◌+◌, Bool, true, false, not, ◌&&◌, Option, none, some, List, [], ◌∷◌, ◌++◌, take, drop,
  get_elem?, leb, ◌==◌, if◌then◌else◌,
}
use dcim_data_reader.Queue.{Codec, Queue, Result, ok, err, push, push_batch, pop_batch}
use dcim_data_reader.Queue.Bbolt.{Bolt}

-- PublisherConfig, as far as the loop reads it. A value below 1 in the file is 0 here.
pub record PublisherConfig : Type 0 where
  pub batch_size : ℕ
  pub flush_interval_ms : ℕ
  pub max_in_flight : ℕ
  pub dcs_down_after : ℕ
  pub dcs_probe_interval_ms : ℕ

abbrev default_to : ℕ → ℕ → ℕ
default_to default n = if n == 0 then default else n

-- The defaults that New fills in.
unfoldable pub with_defaults : PublisherConfig → PublisherConfig
with_defaults cfg = record {
  batch_size = default_to 512 cfg.batch_size;
  flush_interval_ms = default_to 200 cfg.flush_interval_ms;
  max_in_flight = default_to 8 cfg.max_in_flight;
  dcs_down_after = default_to 3 cfg.dcs_down_after;
  dcs_probe_interval_ms = default_to 5000 cfg.dcs_probe_interval_ms;
}

module _ (c : Codec) (db : Bolt) where
  -- `gate` is `none` for a nil gate, and else whether DCS is down. `in_flight` has the batches whose
  -- goroutines have not ended.
  pub record Publisher : Type 0 where
    pub queue : Queue c db
    pub cfg : PublisherConfig
    pub gate : Option Bool
    pub fail_streak : ℕ
    pub in_flight : List (List c.Packet)

  unfoldable pub new_publisher : Queue c db → PublisherConfig → Option Bool → Publisher
  unfolding with_defaults
  new_publisher q cfg gate = record {
    queue = q;
    cfg = with_defaults cfg;
    gate = gate;
    fail_streak = 0;
    in_flight = [];
  }

  unfoldable pub record_result : Bool → Publisher → Publisher
  record_result success p = elim p.gate [
    | none ↦ p
    | some down ↦ if success then record p { fail_streak = 0; gate = some false } else record p {
      fail_streak = p.fail_streak + 1;
      gate = some (if leb p.cfg.dcs_down_after (p.fail_streak + 1) && not down then true else down);
    }
  ]

  -- probeDCS, by the outcome of its empty BatchPush.
  unfoldable pub probe_dcs : Bool → Publisher → Publisher
  unfolding record_result
  probe_dcs success p = record_result success p

  -- `_ = p.q.PushBatch(pkts)`
  unfoldable pub requeue : List c.Packet → Publisher → Publisher
  requeue pkts p = elim (push_batch c db pkts p.queue) [ ok q ↦ record p { queue = q } | err e ↦ p ]

  -- sendBatch, by the outcome of its BatchPush.
  unfoldable pub send_batch : Bool → List c.Packet → Publisher → Publisher
  unfolding record_result requeue
  send_batch success pkts p =
      if success then record_result true p else requeue pkts (record_result false p)

  unfoldable pub dcs_down : Publisher → Bool
  dcs_down p = elim p.gate [ none ↦ false | some down ↦ down ]

  -- What the loop of drain meets in a round: whether the context is done when it waits for a place
  -- among the batches in flight, and the outcome of a probe.
  pub record Meets : Type 0 where
    pub done : Bool
    pub probe : Bool

  -- A batch that has been popped: a goroutine sends it, or the shutdown puts it back.
  unfoldable pub dispatch : Bool → List c.Packet → Publisher → Publisher
  unfolding requeue
  dispatch done [] p = p
  dispatch done (pkt ∷ pkts) p =
      if done then requeue (pkt ∷ pkts) p else record p { in_flight = (pkt ∷ pkts) ∷ p.in_flight }

  -- One round of drain, at a moment when the context is live.
  unfoldable pub drain_round : Meets → Publisher → Publisher
  unfolding probe_dcs dcs_down dispatch
  drain_round m p =
      if dcs_down p then probe_dcs m.probe p else elim (pop_batch c db p.cfg.batch_size p.queue) [
        | err e ↦ p
        | ok popped ↦ dispatch m.done popped.0 (record p { queue = popped.1 })
      ]

  -- The goroutine of the batch in flight at `i` ends: it sends the batch and leaves its place.
  unfoldable pub complete : ℕ → Bool → Publisher → Publisher
  unfolding send_batch
  complete i success p = elim (get_elem? p.in_flight i) [
    | none ↦ p
    | some pkts ↦
        send_batch success pkts
          (record p { in_flight = take i p.in_flight ++ drop (i + 1) p.in_flight })
  ]

  -- Enqueue and EnqueueBatch.
  unfoldable pub enqueue : c.Packet → Publisher → Result Publisher
  enqueue pkt p = elim (push c db pkt p.queue) [
    | err e ↦ err e
    | ok q ↦ ok (record p { queue = q })
  ]

  unfoldable pub enqueue_batch : List c.Packet → Publisher → Result Publisher
  enqueue_batch pkts p = elim (push_batch c db pkts p.queue) [
    | err e ↦ err e
    | ok q ↦ ok (record p { queue = q })
  ]
