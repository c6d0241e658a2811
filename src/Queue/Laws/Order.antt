-- ===== src/Queue/Laws/Order.antt =====
-- The order of the packets in the queue: PushBatch and PopBatch (fwEDR/internal/queue/queue.go).
use mathlib.Core.List.{append_assoc, append-nil}
use dcim_data_reader.Prelude.{
  ℕ, suc, ◌+◌, ◌<◌, ◌≡◌, ◌∙◌, refl, sym, ap, subst, Option-cases, inl, inr, arith, true, none, some,
  List, [], ◌∷◌, ◌++◌, ltb, length, take, drop, take-append-drop,
}
use dcim_data_reader.Queue.{
  ok, Codec, Queue, Entry, or_err, make_room, push_entry, push_entries, push_batch, marshal_all,
  marshal_failed, unmarshal_all, delete_all, pop_some, pop_batch, store_failed,
}
use dcim_data_reader.Queue.Bbolt.{Bolt}
use dcim_data_reader.Queue.Bbolt.Keys.{Ascending, without-AllAbove}
use dcim_data_reader.Queue.Laws.{IsSound, >>=-eq-ok, or_err-eq-ok, put-IsSound, push_entry-IsSound}

module _ (c : Codec) (db : Bolt) where
  open c use {Packet, marshal, unmarshal}
  open db use {Bucket, entries, sequence, put, delete, next_sequence}

  -- The packets in the queue, oldest first, without values that do not unmarshal.
  pub contents : Queue c db → List Packet
  contents q = unmarshal_all c db (entries q.bucket)

  unmarshal_all-append :
      (xs ys : List (ℕ × List ℕ))
      → unmarshal_all c db (xs ++ ys) ≡ unmarshal_all c db xs ++ unmarshal_all c db ys
  unfolding unmarshal_all
  unmarshal_all-append [] ys = refl
  unmarshal_all-append ((key, value) ∷ xs) ys = ground (arith, unmarshal_all-append xs ys)

  -- Deleting the oldest entries leaves the others.
  pub delete_all_lem :
      (es rest : List (ℕ × List ℕ)) (b b' : Bucket)
      → entries b ≡ es ++ rest
      → Ascending (es ++ rest)
      → delete_all c db es b ≡ ok b'
      → (entries b' ≡ rest) × (sequence b' ≡ sequence b)
  unfolding delete_all
  delete_all_lem [] rest b b' e a r = let same : b ≡ b' = cc in rw (← same) (e, refl)
  delete_all_lem ((key, value) ∷ es) rest b b' e a r =
      let (b1, d, r1) = >>=-eq-ok (or_err store_failed (delete key b)) _ r in
      let (kept, gone) = db.delete_removes b b1 key (or_err-eq-ok store_failed (delete key b) d) in
      let left = without-AllAbove key (es ++ rest) a.0 in
      let (e', kept') = delete_all_lem es rest b1 b' (rw (gone, e) (ground (arith, left))) a.1 r1 in
      (e', kept' ∙ kept)

  -- A PopBatch of at least one packet that succeeds on a sound queue takes the oldest entries,
  -- as many as asked for or all there are: the packets that it returns, followed by those that
  -- stay, are the packets that were there, in order.
  pub pop_batch-contents :
      (n : ℕ) (q q' : Queue c db) (pkts : List Packet)
      → IsSound c db q.bucket q.used_bytes
      → pop_batch c db (suc n) q ≡ ok (pkts, q')
      → (contents q ≡ pkts ++ contents q') × (entries q'.bucket ≡ drop (suc n) (entries q.bucket))
  unfolding pop_batch contents
  pop_batch-contents n q q' pkts h r = popped (take (suc n) (entries q.bucket)) refl r
    where
      all : take (suc n) (entries q.bucket) ++ drop (suc n) (entries q.bucket) ≡ entries q.bucket
      all = take-append-drop (suc n) (entries q.bucket)

      popped :
          (es : List (ℕ × List ℕ))
          → take (suc n) (entries q.bucket) ≡ es
          → pop_some c db es q ≡ ok (pkts, q')
          → (unmarshal_all c db (entries q.bucket) ≡ pkts ++ unmarshal_all c db (entries q'.bucket))
            × (entries q'.bucket ≡ drop (suc n) (entries q.bucket))
      popped [] e r = cc
      popped (x ∷ xs) e r =
          let rest = drop (suc n) (entries q.bucket) in
          let split : entries q.bucket ≡ (x ∷ xs) ++ rest = sym all ∙ ap (λ es. es ++ rest) e in
          let (b, d, r1) = >>=-eq-ok (delete_all c db (x ∷ xs) q.bucket) _ r in
          let (left, _) =
            delete_all_lem (x ∷ xs) rest q.bucket b split (rw split at h.ascending) d in
          let taken : unmarshal_all c db (x ∷ xs) ≡ pkts = cc r1 in
          let same : b ≡ q'.bucket = ground (arith, r1) in
          let behind : entries q'.bucket ≡ rest = ap entries (sym same) ∙ left in
          (
            ap (unmarshal_all c db) split
                ∙ unmarshal_all-append (x ∷ xs) rest
                ∙ ap (λ ps. ps ++ unmarshal_all c db rest) taken
                ∙ ap (λ es. pkts ++ unmarshal_all c db es) (sym behind),
            behind,
          )

  -- The packets that the payloads stand for, and the bytes that they take.
  packets_of : List (Entry c db) → List Packet
  packets_of [] = []
  packets_of (e ∷ es) = elim (unmarshal e.payload) [
    | none ↦ packets_of es
    | some p ↦ p ∷ packets_of es
  ]

  size_of : List (Entry c db) → ℕ
  size_of [] = 0
  size_of (e ∷ es) = length e.payload + size_of es

  -- The bytes that a batch takes when it is marshalled.
  unfoldable pub marshalled_size : List Packet → ℕ
  marshalled_size [] = 0
  marshalled_size (p ∷ ps) = elim (marshal p) [
    | none ↦ 0
    | some bytes ↦ length bytes + marshalled_size ps
  ]

  marshalled_cons :
      (p : Packet) (ps : List Packet) (e : Entry c db) (es : List (Entry c db))
      → marshal p ≡ some e.payload
      → unmarshal e.payload ≡ some p
      → packets_of es ≡ ps
      → size_of es ≡ marshalled_size ps
      → (packets_of (e ∷ es) ≡ p ∷ ps) × (size_of (e ∷ es) ≡ marshalled_size (p ∷ ps))
  unfolding packets_of size_of marshalled_size
  marshalled_cons p ps e es m u ih size = (
    rw (packets_of, u) (ap (λ l. p ∷ l) ih),
    rw (marshalled_size, m) (ap (λ k. length e.payload + k) size),
  )

  nothing_marshalled : (packets_of [] ≡ []) × (size_of [] ≡ marshalled_size [])
  unfolding packets_of size_of marshalled_size
  nothing_marshalled = (refl, refl)

  marshal_all_lem :
      ((p : Packet) (bytes : List ℕ) → marshal p ≡ some bytes → unmarshal bytes ≡ some p)
      → (ps : List Packet) (es : List (Entry c db)) → marshal_all c db ps ≡ ok es
      → (packets_of es ≡ ps) × (size_of es ≡ marshalled_size ps)
  unfolding marshal_all
  marshal_all_lem law [] es r = let same : [] ≡ es = cc in rw (← same) nothing_marshalled
  marshal_all_lem law (p ∷ ps) es r =
      let (bytes, m, r1) = >>=-eq-ok (or_err marshal_failed (marshal p)) _ r in
      let (rest, m', r2) = >>=-eq-ok (marshal_all c db ps) _ r1 in
      let (ih, size) = marshal_all_lem law ps rest m' in
      let written = or_err-eq-ok marshal_failed (marshal p) m in
      let e : Entry c db = record { payload = bytes; level = c.severity p } in
      let written = or_err-eq-ok marshal_failed (marshal p) m in
      let same : e ∷ rest ≡ es = cc r2 in
      subst (λ es. (packets_of es ≡ p ∷ ps) × (size_of es ≡ marshalled_size (p ∷ ps))) same
        (marshalled_cons p ps e rest written (law p bytes written) ih size)

  push_entry_room :
      (max_bytes used used' : ℕ) (e : Entry c db) (b b' : Bucket)
      → IsSound c db b used
      → used < max_bytes
      → push_entry c db max_bytes e b used ≡ ok (b', used')
      → (seq : ℕ) × (entries b' ≡ entries b ++ (seq, e.payload) ∷ [])
        × (used' ≡ used + length e.payload)
  unfolding push_entry make_room
  push_entry_room max_bytes used used' e b b' h l r =
      let room : ltb used max_bytes ≡ true = ground arith in
      let r0 = rw room at r in
      let ((seq, b1), n, r2) = >>=-eq-ok (or_err store_failed (next_sequence b)) _ r0 in
      let (b2, p, r3) = >>=-eq-ok (or_err store_failed (put seq e.payload b1)) _ r2 in
      let same : b2 ≡ b' = cc r3 in
      (
        seq,
        ap entries (sym same)
            ∙ (put-IsSound c db b b1 b2 seq used e.payload h
                (or_err-eq-ok store_failed (next_sequence b) n)
                (or_err-eq-ok store_failed (put seq e.payload b1) p)).1,
        cc r3,
      )

  appended_packets :
      (e : Entry c db) (es : List (Entry c db)) (old new : List (ℕ × List ℕ)) (seq : ℕ)
      → new ≡ old ++ (seq, e.payload) ∷ []
      → unmarshal_all c db new ++ packets_of es ≡ unmarshal_all c db old ++ packets_of (e ∷ es)
  unfolding packets_of unmarshal_all
  appended_packets e es old new seq h =
      rw (h, unmarshal_all-append old ((seq, e.payload) ∷ []))
        (elim (Option-cases (unmarshal e.payload)) [
          | inl n ↦
              rw (packets_of, unmarshal_all, n)
                (ap (λ l. l ++ packets_of es) (append-nil (unmarshal_all c db old)))
          | inr (p, s) ↦
              rw (packets_of, unmarshal_all, s)
                (append_assoc (unmarshal_all c db old) (p ∷ []) (packets_of es))
        ])

  push_entries_room :
      (max_bytes used used' : ℕ) (es : List (Entry c db)) (b b' : Bucket)
      → IsSound c db b used
      → used + size_of es < max_bytes
      → push_entries c db max_bytes es b used ≡ ok (b', used')
      → unmarshal_all c db (entries b') ≡ unmarshal_all c db (entries b) ++ packets_of es
  unfolding push_entries packets_of size_of
  push_entries_room max_bytes used used' [] b b' h l r =
      let same : b ≡ b' = cc in rw (← same) (sym (append-nil _))
  push_entries_room max_bytes used used' (e ∷ es) b b' h l r =
      let ((b1, u), m, r1) = >>=-eq-ok (push_entry c db max_bytes e b used) _ r in
      let (seq, appended, count) = push_entry_room max_bytes used u e b b1 h (omega (arith, l)) m in
      let sound = push_entry-IsSound c db max_bytes used u e b b1 h m in
      push_entries_room max_bytes u used' es b1 b' sound (omega (arith, l, count)) r1
      ∙ appended_packets e es (entries b) (entries b1) seq appended

  -- Where every marshalled packet unmarshals to itself and the queue is sound, a PushBatch that
  -- succeeds and leaves the queue below its bound puts the batch behind the packets that are
  -- there, in its order, and evicts none of them.
  pub push_batch-contents :
      (pkts : List Packet) (q q' : Queue c db)
      → ((p : Packet) (bytes : List ℕ) → marshal p ≡ some bytes → unmarshal bytes ≡ some p)
      → IsSound c db q.bucket q.used_bytes
      → q.used_bytes + marshalled_size pkts < q.max_bytes
      → push_batch c db pkts q ≡ ok q'
      → contents q' ≡ contents q ++ pkts
  unfolding push_batch contents
  push_batch-contents [] q q' law h l r = let same : q ≡ q' = cc in rw (← same) (sym (append-nil _))
  push_batch-contents (p ∷ ps) q q' law h l r =
      let (es, m, r1) = >>=-eq-ok (marshal_all c db (p ∷ ps)) _ r in
      let ((b, u), n, r2) =
        >>=-eq-ok (push_entries c db q.max_bytes es q.bucket q.used_bytes) _ r1 in
      let (same_packets, same_size) = marshal_all_lem law (p ∷ ps) es m in
      let same : b ≡ q'.bucket = cc r2 in
      ap (λ b. unmarshal_all c db (entries b)) (sym same)
      ∙ push_entries_room q.max_bytes q.used_bytes u es q.bucket b h (omega (arith, l, same_size)) n
      ∙ ap (λ l. contents q ++ l) same_packets
