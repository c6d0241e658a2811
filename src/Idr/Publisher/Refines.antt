-- ===== src/Idr/Publisher/Refines.antt =====
-- The queue of the host agent (fwIDR/internal/queue/queue.go) beside a list of packets, over any
-- successful operations.
use dcim_data_reader.Prelude.{ℕ, ◌≡◌, refl, some, List, [], ◌∷◌, ok}
use dcim_data_reader.Queue.{Codec}
use dcim_data_reader.Queue.Bbolt.{Bolt}
use dcim_data_reader.Idr.Queue.{Queue, push, pop}
use dcim_data_reader.Idr.Publisher.Laws.{Represents, Pushes, push-Represents, pop-Represents}

module _ (c : Codec) (db : Bolt) (leaf_inuse : db.Bucket → ℕ) where
  open c use {Packet, marshal, unmarshal}

  -- A successful operation of the queue, with the packet that it adds or takes out.
  pub data Op : Type 0 where
    adds takes : Packet → Op

  -- The operations succeed in this order, from the one queue to the other.
  abbrev pub Implements : List Op → Queue c db leaf_inuse → Queue c db leaf_inuse → Type 0
  Implements [] q last = q ≡ last
  Implements (adds p ∷ ops) q last =
      (next : Queue c db leaf_inuse) × (push c db leaf_inuse p q ≡ ok next)
      × Implements ops next last
  Implements (takes p ∷ ops) q last =
      (next : Queue c db leaf_inuse) × (pop c db leaf_inuse q ≡ ok (p, next))
      × Implements ops next last

  -- The same operations on a list of packets.
  abbrev pub Specifies : List Op → List Packet → List Packet → Type 0
  Specifies [] ps last = ps ≡ last
  Specifies (adds p ∷ ops) ps last =
      (next : List Packet) × Pushes c db leaf_inuse p ps next × Specifies ops next last
  Specifies (takes p ∷ ops) ps last =
      (next : List Packet) × (ps ≡ p ∷ next) × Specifies ops next last

  -- Where every marshalled packet unmarshals to itself, the queue of the host agent refines a
  -- list of packets: from a queue that stores a list in order under ascending keys, any pushes
  -- and pops that succeed lead to a queue that stores, in the same way, a list that the same
  -- operations reach, where a pop takes the first packet out, and a push puts its packet behind
  -- the others and takes at most one other out, that only if its own severity is critical or
  -- major.
  pub queue-refines_list :
      (ops : List Op) (ps : List Packet) (q q' : Queue c db leaf_inuse)
      → ((p : Packet) (v : List ℕ) → marshal p ≡ some v → unmarshal v ≡ some p)
      → Represents c db leaf_inuse ps q.bucket
      → Implements ops q q'
      → (ps' : List Packet) × Represents c db leaf_inuse ps' q'.bucket × Specifies ops ps ps'
  queue-refines_list [] ps q q' codec h same = (ps, rw (← same) h, refl)
  queue-refines_list (adds p ∷ ops) ps q q' codec h (next, r, later) =
      let (ps1, h1, step) = push-Represents c db leaf_inuse ps p q next (codec p) h r in
      let (ps', h', rest) = queue-refines_list ops ps1 next q' codec h1 later in
      (ps', h', (ps1, step, rest))
  queue-refines_list (takes p ∷ ops) ps q q' codec h (next, r, later) =
      let (ps1, h1, step) = pop-Represents c db leaf_inuse ps p q next h r in
      let (ps', h', rest) = queue-refines_list ops ps1 next q' codec h1 later in
      (ps', h', (ps1, step, rest))
