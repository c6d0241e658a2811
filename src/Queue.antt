-- ===== src/Queue.antt =====
-- The persistent queue of the EDR agent (fwEDR/internal/queue/queue.go): PushBatch, Push, PopBatch,
-- Pop, Len and evictOldestNonCritical over a bbolt bucket. The mutex makes each operation one step,
-- and a transaction that fails leaves the queue as it was.
pub mod Bbolt
pub mod Laws
use dcim_data_reader.Prelude.{
  ℕ, zero, suc, ◌+◌, ◌-◌, Bool, true, false, ◌||◌, Option, none, some, List, [], ◌∷◌, ltb, leb,
  ◌==◌, if◌then◌else◌, length, String, str_eq, take,
}
use mathlib.Core.Option
use Bbolt.{Bolt}

-- ErrFull, ErrEmpty, and the errors of proto.Marshal and of bbolt that are passed on.
pub data Error : Type 0 where
  full empty marshal_failed store_failed : Error

pub data Result (A : Type 0) : Type 0 where
  ok : A → Result A
  err : Error → Result A

infixl 5 ◌>>=◌
abbrev pub ◌>>=◌ : {A B : Type 0} → Result A → (A → Result B) → Result B
ok a >>= f = f a
err e >>= f = err e

abbrev pub or_err : {A : Type 0} → Error → Option A → Result A
or_err e none = err e
or_err e (some a) = ok a

-- What the queue uses of packets: the severity field, proto.Marshal and proto.Unmarshal, and the
-- `severity` that json.Unmarshal finds in a stored value, which is "" where that is no JSON object
-- with such a field.
pub record Codec : Type 1 where
  pub Packet : Type 0
  pub severity : Packet → String
  pub marshal : Packet → Option (List ℕ)
  pub unmarshal : List ℕ → Option Packet
  pub json_severity : List ℕ → String

abbrev pub is_urgent : String → Bool
is_urgent s = str_eq s "critical" || str_eq s "major"

module _ (c : Codec) (db : Bolt) where
  open c use {Packet, severity, marshal, unmarshal, json_severity}
  open db use {Bucket, entries, put, delete, next_sequence}

  pub record Queue : Type 0 where
    pub bucket : Bucket
    pub max_bytes : ℕ
    pub used_bytes : ℕ

  -- The loop of evictOldestNonCritical over the entries from the cursor on.
  evict_from : List (ℕ × List ℕ) → Bucket → Option (ℕ × Bucket)
  evict_from [] b = none
  evict_from ((key, value) ∷ rest) b =
      let later = evict_from rest b in
      if is_urgent (json_severity value)
      then later
      else Option.map (λ b'. (length value, b')) (delete key b)

  unfoldable pub evict_oldest_non_critical : Bucket → Option (ℕ × Bucket)
  unfolding evict_from
  evict_oldest_non_critical b = evict_from (entries b) b

  -- A marshalled packet: the loop of PushBatch before the transaction.
  pub record Entry : Type 0 where
    pub payload : List ℕ
    pub level : String

  marshal_all : List Packet → Result (List Entry)
  marshal_all [] = ok []
  marshal_all (p ∷ ps) = do
    bytes ← or_err marshal_failed (marshal p)
    rest ← marshal_all ps
    ok (record { payload = bytes; level = severity p } ∷ rest)

  -- The room that an entry needs: the bucket and the bytes in use after an eviction, if there is one.
  -- The source's int64 does not go below 0 here: the bytes in use count those of every entry.
  make_room : ℕ → Entry → Bucket → ℕ → Result (Bucket × ℕ)
  make_room max_bytes e b used =
      if ltb used max_bytes
      then ok (b, used)
      else if is_urgent e.level
      then elim (evict_oldest_non_critical b) [
        | none ↦ err full
        | some (freed, b') ↦ ok (b', used - freed)
      ]
      else err full

  push_entry : ℕ → Entry → Bucket → ℕ → Result (Bucket × ℕ)
  unfolding make_room
  push_entry max_bytes e b used = do
    (roomy, used') ← make_room max_bytes e b used
    (seq, b1) ← or_err store_failed (next_sequence roomy)
    b2 ← or_err store_failed (put seq e.payload b1)
    ok (b2, used' + length e.payload)

  push_entries : ℕ → List Entry → Bucket → ℕ → Result (Bucket × ℕ)
  unfolding push_entry
  push_entries max_bytes [] b used = ok (b, used)
  push_entries max_bytes (e ∷ es) b used = do
    (b', used') ← push_entry max_bytes e b used
    push_entries max_bytes es b' used'

  -- The new queue; on an error the transaction is rolled back and the counter is kept.
  unfoldable pub push_batch : List Packet → Queue → Result Queue
  unfolding marshal_all push_entries
  push_batch [] q = ok q
  push_batch (p ∷ ps) q = do
    es ← marshal_all (p ∷ ps)
    (b, used) ← push_entries q.max_bytes es q.bucket q.used_bytes
    ok (record q { bucket = b; used_bytes = used })

  unfoldable pub push : Packet → Queue → Result Queue
  unfolding push_batch
  push p q = push_batch (p ∷ []) q

  pub delete_all : List (ℕ × List ℕ) → Bucket → Result Bucket
  delete_all [] b = ok b
  delete_all ((key, value) ∷ rest) b = do
    b' ← or_err store_failed (delete key b)
    delete_all rest b'

  unfoldable pub total_bytes : List (ℕ × List ℕ) → ℕ
  total_bytes [] = 0
  total_bytes ((key, value) ∷ rest) = length value + total_bytes rest

  -- A value that does not unmarshal is dropped.
  unmarshal_all : List (ℕ × List ℕ) → List Packet
  unmarshal_all [] = []
  unmarshal_all ((key, value) ∷ rest) = elim (unmarshal value) [
    | none ↦ unmarshal_all rest
    | some p ↦ p ∷ unmarshal_all rest
  ]

  -- The packets and the new queue; the counter stops at 0.
  pop_some : List (ℕ × List ℕ) → Queue → Result (List Packet × Queue)
  unfolding delete_all total_bytes unmarshal_all
  pop_some [] q = err empty
  pop_some (e ∷ es) q = do
    b ← delete_all (e ∷ es) q.bucket
    ok (
      unmarshal_all (e ∷ es),
      record q { bucket = b; used_bytes = q.used_bytes - total_bytes (e ∷ es) },
    )

  unfoldable pub pop_batch : ℕ → Queue → Result (List Packet × Queue)
  unfolding pop_some
  pop_batch zero q = ok ([], q)
  pop_batch (suc n) q = pop_some (take (suc n) (entries q.bucket)) q

  -- `none` is ErrEmpty after an entry that does not unmarshal has been taken out.
  unfoldable pub pop : Queue → Result (Option Packet × Queue)
  unfolding pop_batch
  pop q = do (pkts, q') ← pop_batch 1 q; ok (elim pkts [ [] ↦ none | p ∷ rest ↦ some p ], q')

  -- Len, by the number of keys.
  unfoldable pub len : Queue → ℕ
  len q = length (entries q.bucket)
