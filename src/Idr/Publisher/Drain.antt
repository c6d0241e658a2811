-- ===== src/Idr/Publisher/Drain.antt =====
-- The rounds of drain (fwIDR/internal/publisher/publisher.go) over the queue of
-- fwIDR/internal/queue/queue.go.
use dcim_data_reader.Prelude.{
  ℕ, zero, suc, ◌≤◌, ◌≡◌, refl, ap, arith, Bool, true, none, some, List, [], ◌∷◌, length, ok, err,
}
use dcim_data_reader.Queue.{Codec}
use dcim_data_reader.Queue.Bbolt.{Bolt}
use dcim_data_reader.Idr.Queue.{Queue, empty, unmarshal_failed, pop, pop_first}
use dcim_data_reader.Idr.Publisher.{drain, drain_round, waits, sent}
use dcim_data_reader.Idr.Publisher.Laws.{Represents, Stored, pop-Represents}

-- Rounds in each of which stream.Send succeeds.
abbrev pub all_sent : ℕ → List Bool
all_sent zero = []
all_sent (suc n) = true ∷ all_sent n

tail_eq : {A : Type 0} {x y : A} {xs ys : List A} → x ∷ xs ≡ y ∷ ys → ys ≡ xs
tail_eq e = cc

module _ (c : Codec) (db : Bolt) (leaf_inuse : db.Bucket → ℕ) where
  open c use {Packet, unmarshal}
  open db use {Bucket, entries, delete}

  pop_first_empty :
      (es : List (ℕ × List ℕ)) (q : Queue c db leaf_inuse)
      → Stored c db leaf_inuse [] es
      → pop_first c db leaf_inuse es q ≡ err empty
  unfolding pop_first
  pop_first_empty [] q h = refl
  pop_first_empty (e ∷ es) q h = absurd h

  pop-undecodable :
      (q : Queue c db leaf_inuse) (key : ℕ) (value : List ℕ) (rest : List (ℕ × List ℕ))
      → entries q.bucket ≡ (key, value) ∷ rest
      → unmarshal value ≡ none
      → pop c db leaf_inuse q ≡ err unmarshal_failed
  unfolding pop pop_first
  pop-undecodable q key value rest e u = rw (pop_first, e, u) refl

  round-blocked :
      (success : Bool) (q : Queue c db leaf_inuse) (key : ℕ) (value : List ℕ)
      (rest : List (ℕ × List ℕ))
      → entries q.bucket ≡ (key, value) ∷ rest
      → unmarshal value ≡ none
      → drain_round c db leaf_inuse success q ≡ waits q
  unfolding drain_round
  round-blocked success q key value rest e u =
      rw (drain_round, pop-undecodable q key value rest e u) refl

  round-sent :
      (p : Packet) (q q' : Queue c db leaf_inuse)
      → pop c db leaf_inuse q ≡ ok (p, q')
      → drain_round c db leaf_inuse true q ≡ sent p q'
  unfolding drain_round
  round-sent p q q' r = rw (drain_round, r) refl

  pop-empty :
      (q : Queue c db leaf_inuse)
      → Represents c db leaf_inuse [] q.bucket
      → pop c db leaf_inuse q ≡ err empty
  unfolding pop
  pop-empty q h = pop_first_empty (entries q.bucket) q h.stored

  -- If the oldest value in the queue of the host agent does not unmarshal, drain sends nothing
  -- and leaves the queue as it is, in any number of rounds and with any outcomes of Send: the
  -- Delete of the value is rolled back with the error of Pop.
  pub drain-blocked :
      (rounds : List Bool) (q : Queue c db leaf_inuse) (key : ℕ) (value : List ℕ)
      (rest : List (ℕ × List ℕ))
      → entries q.bucket ≡ (key, value) ∷ rest
      → unmarshal value ≡ none
      → drain c db leaf_inuse rounds q ≡ ([], q)
  unfolding drain
  drain-blocked [] q key value rest e u = refl
  drain-blocked (success ∷ rounds) q key value rest e u =
      rw (drain, round-blocked success q key value rest e u)
        (drain-blocked rounds q key value rest e u)

  pop_first_nonempty :
      (p : Packet) (ps : List Packet) (es : List (ℕ × List ℕ)) (q : Queue c db leaf_inuse)
      → ((b : Bucket) (k : ℕ) → (b' : Bucket) × (delete k b ≡ some b'))
      → Stored c db leaf_inuse (p ∷ ps) es
      → (q' : Queue c db leaf_inuse) × (pop_first c db leaf_inuse es q ≡ ok (p, q'))
  unfolding pop_first
  pop_first_nonempty p ps [] q deletes h = absurd h
  pop_first_nonempty p ps ((key, value) ∷ rest) q deletes h =
      let (b, d) = deletes q.bucket key in (record q { bucket = b }, rw (h.0, d) refl)

  -- Pop of a list that is not empty, where the store deletes.
  pop_nonempty :
      (p : Packet) (ps : List Packet) (q : Queue c db leaf_inuse)
      → ((b : Bucket) (k : ℕ) → (b' : Bucket) × (delete k b ≡ some b'))
      → Represents c db leaf_inuse (p ∷ ps) q.bucket
      → (q' : Queue c db leaf_inuse) × (pop c db leaf_inuse q ≡ ok (p, q'))
  unfolding pop
  pop_nonempty p ps q deletes h = pop_first_nonempty p ps (entries q.bucket) q deletes h.stored

  empty-waits :
      (q : Queue c db leaf_inuse)
      → Represents c db leaf_inuse [] q.bucket
      → drain_round c db leaf_inuse true q ≡ waits q
  unfolding drain_round
  empty-waits q h = rw (drain_round, pop-empty q h) refl

  -- Where the store deletes and every Send succeeds, drain empties a queue that stores a list
  -- of packets within as many rounds as there are packets, and what it has sent is that list,
  -- in order.
  pub drain-all_sent :
      (n : ℕ) (ps : List Packet) (q : Queue c db leaf_inuse)
      → ((b : Bucket) (k : ℕ) → (b' : Bucket) × (delete k b ≡ some b'))
      → Represents c db leaf_inuse ps q.bucket
      → length ps ≤ n
      → ((drain c db leaf_inuse (all_sent n) q).0 ≡ ps)
        × Represents c db leaf_inuse [] ((drain c db leaf_inuse (all_sent n) q).1).bucket
  unfolding drain
  drain-all_sent zero [] q deletes h l = (refl, h)
  drain-all_sent zero (p ∷ ps) q deletes h l = absurd (omega arith)
  drain-all_sent (suc n) [] q deletes h l =
      rw (drain, empty-waits q h) (drain-all_sent n [] q deletes h (omega arith))
  drain-all_sent (suc n) (p ∷ ps) q deletes h l =
      let (q', r) = pop_nonempty p ps q deletes h in
      let (rest, h', split) = pop-Represents c db leaf_inuse (p ∷ ps) p q q' h r in
      let same : rest ≡ ps = tail_eq split in
      let later = drain-all_sent n ps q' deletes (rw (← same) h') (omega arith) in
      rw (drain, round-sent p q q' r) (ap (λ ys. p ∷ ys) later.0, later.1)
