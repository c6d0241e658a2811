-- ===== src/Idr/Queue.antt =====
-- The queue of the host agent (fwIDR/internal/queue/queue.go), one packet at a time, over the bucket
-- and the codec of the EDR queue. A transaction that returns an error is rolled back.
use dcim_data_reader.Prelude.{
  ℕ, none, some, List, [], ◌∷◌, leb, if◌then◌else◌, length, String, Run, ok, err, ◌>>=◌, or_fail,
}
use dcim_data_reader.Queue.{Codec, is_urgent, evict_oldest_non_critical}
use dcim_data_reader.Queue.Bbolt.{Bolt}

-- ErrFull, ErrEmpty, and the errors of protobuf and of bbolt that are passed on.
pub data Error : Type 0 where
  full empty marshal_failed unmarshal_failed store_failed : Error

-- `leaf_inuse` is the field LeafInuse of the bucket's statistics.
module _ (c : Codec) (db : Bolt) (leaf_inuse : db.Bucket → ℕ) where
  open c use {Packet, severity, marshal, unmarshal}
  open db use {Bucket, entries, put, delete, next_sequence}

  pub record Queue : Type 0 where
    pub bucket : Bucket
    pub max_bytes : ℕ

  -- The bucket after the size check.
  unfoldable pub room : String → Queue → Run Error Bucket
  room level q =
      if leb q.max_bytes (leaf_inuse q.bucket)
      then if is_urgent level
        then elim (evict_oldest_non_critical c db q.bucket) [
          | none ↦ err full
          | some (freed, b) ↦ ok b
        ]
        else err full
      else ok q.bucket

  unfoldable pub push : Packet → Queue → Run Error Queue
  unfolding room
  push p q = do
    bytes ← or_fail marshal_failed (marshal p)
    b ← room (severity p) q
    (seq, b1) ← or_fail store_failed (next_sequence b)
    b2 ← or_fail store_failed (put seq bytes b1)
    ok (record q { bucket = b2 })

  -- The Delete of an entry that does not unmarshal is rolled back with its transaction.
  unfoldable pub pop_first : List (ℕ × List ℕ) → Queue → Run Error (Packet × Queue)
  pop_first [] q = err empty
  pop_first ((key, value) ∷ rest) q = do
    p ← or_fail unmarshal_failed (unmarshal value)
    b ← or_fail store_failed (delete key q.bucket)
    ok (p, record q { bucket = b })

  unfoldable pub pop : Queue → Run Error (Packet × Queue)
  unfolding pop_first
  pop q = pop_first (entries q.bucket) q

  unfoldable pub len : Queue → ℕ
  len q = length (entries q.bucket)
