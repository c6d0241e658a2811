-- ===== src/Idr/Publisher.antt =====
-- The publisher of the host agent (fwIDR/internal/publisher/publisher.go), which sends its queue to
-- DCS over one stream.
pub mod Drain
pub mod Laws
pub mod Refines
use dcim_data_reader.Prelude.{
  ℕ, Bool, true, false, List, [], ◌∷◌, if◌then◌else◌, Run, ok, err, panic, hang,
}
use dcim_data_reader.Queue.{Codec}
use dcim_data_reader.Queue.Bbolt.{Bolt}
use dcim_data_reader.Idr.Queue.{Error, Queue, push, pop}

module _ (c : Codec) (db : Bolt) (leaf_inuse : db.Bucket → ℕ) where
  open c use {Packet}

  abbrev IdrQueue : Type 0
  IdrQueue = Queue c db leaf_inuse

  -- `_ = p.q.Push(pkt)`
  unfoldable pub requeue : Packet → IdrQueue → IdrQueue
  requeue p q = elim (push c db leaf_inuse p q) [ ok q' ↦ q' | err e ↦ q | panic ↦ q | hang ↦ q ]

  -- What a round of drain does: it goes on with a packet sent or with none, or it returns.
  pub data Step : Type 0 where
    sent : Packet → IdrQueue → Step
    waits : IdrQueue → Step
    returns : IdrQueue → Step

  -- A round of drain, by the outcome of stream.Send. An empty queue and a failed Pop go on.
  unfoldable pub drain_round : Bool → IdrQueue → Step
  unfolding requeue
  drain_round success q = elim (pop c db leaf_inuse q) [
    | ok (p, q') ↦ if success then sent p q' else returns (requeue p q')
    | err e ↦ waits q
    | panic ↦ waits q
    | hang ↦ waits q
  ]

  -- The rounds of drain, and the packets that they send.
  unfoldable pub drain : List Bool → IdrQueue → List Packet × IdrQueue
  unfolding drain_round
  drain [] q = ([], q)
  drain (success ∷ rounds) q = elim (drain_round success q) [
    | sent p q' ↦ let rest = drain rounds q' in (p ∷ rest.0, rest.1)
    | waits q' ↦ drain rounds q'
    | returns q' ↦ ([], q')
  ]

  -- Enqueue.
  unfoldable pub enqueue : Packet → IdrQueue → Run Error IdrQueue
  enqueue p q = push c db leaf_inuse p q
