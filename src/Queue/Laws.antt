-- ===== src/Queue/Laws.antt =====
-- The invariant of the queue, and PushBatch (fwEDR/internal/queue/queue.go).
pub mod Order
pub mod Pop
pub mod Severity
use mathlib.Core.Option
use dcim_data_reader.Prelude.{
  ℕ, zero, suc, ◌+◌, ◌-◌, ◌≤◌, ◌<◌, ◌≡◌, ◌∙◌, refl, sym, ap, arith, Bool, true, false, Option, none,
  some, List, [], ◌∷◌, ◌++◌, ltb, leb, ◌==◌, if◌then◌else◌, length, String, take, drop,
  Option-cases, Bool-cases, inl, inr, ◌⊎◌,
}
use dcim_data_reader.Queue.{
  Error, Result, ok, err, Codec, Queue, Entry, or_err, ◌>>=◌, total_bytes, evict_from,
  evict_oldest_non_critical, make_room, push_entry, push_entries, push_batch, marshal_all,
  delete_all, pop_some, pop_batch, is_urgent, store_failed, full,
}
use dcim_data_reader.Queue.Bbolt.{Bolt, AllBelow, without}
use dcim_data_reader.Queue.Bbolt.Keys.{
  Ascending, AllBelow-without, Ascending-without, AllBelow-append, Ascending-append, In,
}

Entries : Type 0
Entries = List (ℕ × List ℕ)

module _ (c : Codec) (db : Bolt) where
  open db use {Bucket, entries, sequence, put, delete, next_sequence}

  total-append :
      (es : List (ℕ × List ℕ)) (n : ℕ) (v : List ℕ)
      → total_bytes c db (es ++ (n, v) ∷ []) ≡ total_bytes c db es + length v
  unfolding total_bytes
  total-append [] n v = omega arith
  total-append ((key, value) ∷ rest) n v = omega (arith, total-append rest n v)

  total-without :
      (k : ℕ) (es : List (ℕ × List ℕ)) → total_bytes c db (without k es) ≤ total_bytes c db es
  unfolding total_bytes
  total-without k [] = omega arith
  total-without k ((key, value) ∷ rest) = ground (arith, total-without k rest)

  -- The bucket's keys ascend up to its sequence, and the bytes that it stores are counted.
  pub record IsSound (b : Bucket) (used : ℕ) : Type 0 where
    pub below : AllBelow (suc (sequence b)) (entries b)
    pub ascending : Ascending (entries b)
    pub counted : total_bytes c db (entries b) ≤ used

  put-IsSound :
      (b b1 b2 : Bucket) (seq used : ℕ) (v : List ℕ)
      → IsSound b used
      → next_sequence b ≡ some (seq, b1)
      → put seq v b1 ≡ some b2
      → IsSound b2 (used + length v) × (entries b2 ≡ entries b ++ (seq, v) ∷ [])
  put-IsSound b b1 b2 seq used v h n p =
      let (is_next, kept, same) = db.next_sequence_gives b b1 seq n in
      let below : AllBelow seq (entries b1) = rw (same, is_next) h.below in
      let (kept', appended) = db.put_appends b1 b2 seq v p below in
      let e = appended ∙ ap (λ es. es ++ (seq, v) ∷ []) same in
      let below' : AllBelow seq (entries b) = rw is_next h.below in
      (
        record {
          below = rw (e, kept', kept) (AllBelow-append seq (entries b) v below');
          ascending = rw e (Ascending-append seq (entries b) v below' h.ascending);
          counted = rw (e, total-append (entries b) seq v) (omega (arith, h.counted));
        },
        e,
      )

pub >>=-eq-ok :
    {A B : Type 0} (first : Result A) (next : A → Result B) {last : B}
    → (first >>= next) ≡ ok last
    → (between : A) × (first ≡ ok between) × (next between ≡ ok last)
>>=-eq-ok (ok between) next done = (between, refl, done)
>>=-eq-ok (err failure) next done = cc

pub or_err-eq-ok : {A : Type 0} (e : Error) (o : Option A) {a : A} → or_err e o ≡ ok a → o ≡ some a
or_err-eq-ok e none h = cc
or_err-eq-ok e (some x) h = cc

module _ (c : Codec) (db : Bolt) where
  open c use {json_severity}
  open db use {Bucket, entries, sequence, put, delete, next_sequence}

  total-without-In :
      (k : ℕ) (v : List ℕ) (es : List (ℕ × List ℕ))
      → In k v es
      → total_bytes c db (without k es) + length v ≤ total_bytes c db es
  unfolding total_bytes
  total-without-In k v [] h = absurd h
  total-without-In k v ((key, value) ∷ rest) (inl (e, f)) =
      ground (arith, total-without c db k rest, ap length f)
  total-without-In k v ((key, value) ∷ rest) (inr h) = ground (arith, total-without-In k v rest h)

  -- What an eviction has deleted: an entry in which json.Unmarshal finds no urgent severity.
  evict_from_lem :
      (es : List (ℕ × List ℕ)) (b b' : Bucket) (freed : ℕ)
      → evict_from c db es b ≡ some (freed, b')
      → (key : ℕ) × (value : List ℕ) × In key value es
        × (delete key b ≡ some b')
        × (freed ≡ length value)
        × (is_urgent (json_severity value) ≡ false)
  unfolding evict_from
  evict_from_lem [] b b' freed h = cc
  evict_from_lem ((key, value) ∷ rest) b b' freed h =
      elim (Bool-cases (is_urgent (json_severity value))) [
        | inl e ↦
            let (k, v, i, d, f, u) = evict_from_lem rest b b' freed (rw e at h) in
            (k, v, inr i, d, f, u)
        | inr e ↦ elim (Option-cases (delete key b)) [
          | inl n ↦ absurd (ground arith)
          | inr (b'', d) ↦ (key, value, inl (refl, refl), ground arith, ground arith, e)
        ]
      ]

  pub evict_oldest_lem :
      (b b' : Bucket) (freed : ℕ)
      → evict_oldest_non_critical c db b ≡ some (freed, b')
      → (key : ℕ) × (value : List ℕ) × In key value (entries b)
        × (delete key b ≡ some b')
        × (freed ≡ length value)
        × (is_urgent (json_severity value) ≡ false)
  unfolding evict_oldest_non_critical
  evict_oldest_lem b b' freed h = evict_from_lem (entries b) b b' freed h

  delete-IsSound :
      (b b' : Bucket) (key used : ℕ) (value : List ℕ)
      → IsSound c db b used
      → In key value (entries b)
      → delete key b ≡ some b'
      → IsSound c db b' (used - length value)
  delete-IsSound b b' key used value h i d =
      let (kept, e) = db.delete_removes b b' key d in
      record {
        below = rw (e, kept) (AllBelow-without (suc (sequence b)) key (entries b) h.below);
        ascending = rw e (Ascending-without key (entries b) h.ascending);
        counted = rw e (omega (arith, total-without-In key value (entries b) i, h.counted));
      }

  make_room_cases :
      (max_bytes used used' : ℕ) (e : Entry c db) (b b' : Bucket)
      → make_room c db max_bytes e b used ≡ ok (b', used')
      → ((b ≡ b') × (used ≡ used'))
        ⊎ ((freed : ℕ) × (evict_oldest_non_critical c db b ≡ some (freed, b'))
            × (used - freed ≡ used'))
  unfolding make_room
  make_room_cases max_bytes used used' e b b' r = elim (Bool-cases (ltb used max_bytes)) [
    | inl t ↦ let same = rw t at r in inl (cc same, cc same)
    | inr f ↦ elim (Bool-cases (is_urgent e.level)) [
      | inr n ↦ absurd (ground arith)
      | inl u ↦ elim (Option-cases (evict_oldest_non_critical c db b)) [
        | inl n ↦ absurd (ground arith)
        | inr ((freed, b''), found) ↦ inr (freed, ground arith, ground arith)
      ]
    ]
  ]

  make_room-IsSound :
      (max_bytes used used' : ℕ) (e : Entry c db) (b b' : Bucket)
      → IsSound c db b used
      → make_room c db max_bytes e b used ≡ ok (b', used')
      → IsSound c db b' used'
  make_room-IsSound max_bytes used used' e b b' h r =
      elim (make_room_cases max_bytes used used' e b b' r) [
        | inl (same, count) ↦ rw (← same, ← count) h
        | inr (freed, found, count) ↦
            let (key, value, i, d, f, _) = evict_oldest_lem b b' freed found in
            rw (← count, f) (delete-IsSound b b' key used value h i d)
      ]

  -- One entry, with its eviction if it needs room.
  push_entry-IsSound :
      (max_bytes used used' : ℕ) (e : Entry c db) (b b' : Bucket)
      → IsSound c db b used
      → push_entry c db max_bytes e b used ≡ ok (b', used')
      → IsSound c db b' used'
  unfolding push_entry
  push_entry-IsSound max_bytes used used' e b b' h r =
      let ((roomy, u), m, r1) = >>=-eq-ok (make_room c db max_bytes e b used) _ r in
      let ((seq, b1), n, r2) = >>=-eq-ok (or_err store_failed (next_sequence roomy)) _ r1 in
      let (b2, p, r3) = >>=-eq-ok (or_err store_failed (put seq e.payload b1)) _ r2 in
      let same : b2 ≡ b' = cc r3 in
      let count : u + length e.payload ≡ used' = cc r3 in
      rw (← same, ← count)
        (put-IsSound c db roomy b1 b2 seq u e.payload
          (make_room-IsSound max_bytes used u e b roomy h m)
          (or_err-eq-ok store_failed (next_sequence roomy) n)
          (or_err-eq-ok store_failed (put seq e.payload b1) p)).0

  push_entries-IsSound :
      (max_bytes used used' : ℕ) (es : List (Entry c db)) (b b' : Bucket)
      → IsSound c db b used
      → push_entries c db max_bytes es b used ≡ ok (b', used')
      → IsSound c db b' used'
  unfolding push_entries
  push_entries-IsSound max_bytes used used' [] b b' h r =
      let same : b ≡ b' = cc in let count : used ≡ used' = cc in rw (← same, ← count) h
  push_entries-IsSound max_bytes used used' (e ∷ es) b b' h r =
      let ((b1, u), m, r1) = >>=-eq-ok (push_entry c db max_bytes e b used) _ r in
      push_entries-IsSound max_bytes u used' es b1 b'
        (push_entry-IsSound max_bytes used u e b b1 h m) r1

  -- PushBatch, with its evictions, keeps the queue sound: the keys ascend up to the sequence of
  -- the bucket, and the bytes that are stored are at most the bytes counted.
  pub push_batch-IsSound :
      (pkts : List c.Packet) (q q' : Queue c db)
      → IsSound c db q.bucket q.used_bytes
      → push_batch c db pkts q ≡ ok q'
      → IsSound c db q'.bucket q'.used_bytes
  unfolding push_batch
  push_batch-IsSound [] q q' h r = let same : q ≡ q' = cc in rw (← same) h
  push_batch-IsSound (p ∷ ps) q q' h r =
      let (es, m, r1) = >>=-eq-ok (marshal_all c db (p ∷ ps)) _ r in
      let ((b, u), n, r2) =
        >>=-eq-ok (push_entries c db q.max_bytes es q.bucket q.used_bytes) _ r1 in
      let same : record q { bucket = b; used_bytes = u } ≡ q' = cc r2 in
      rw (← same) (push_entries-IsSound q.max_bytes q.used_bytes u es q.bucket b h n)
