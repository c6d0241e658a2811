-- ===== src/Queue/Laws/Pop.antt =====
-- PopBatch and the invariant of the queue (fwEDR/internal/queue/queue.go).
use dcim_data_reader.Prelude.{
  ℕ, zero, suc, ◌+◌, ◌-◌, ◌≡◌, ◌∙◌, refl, sym, ap, subst, arith, List, [], ◌∷◌, ◌++◌, take, drop,
  take-append-drop,
}
use dcim_data_reader.Queue.{ok, Codec, Queue, total_bytes, delete_all, pop_some, pop_batch}
use dcim_data_reader.Queue.Bbolt.{Bolt, AllBelow}
use dcim_data_reader.Queue.Bbolt.Keys.{Ascending}
use dcim_data_reader.Queue.Laws.{IsSound, >>=-eq-ok}
use dcim_data_reader.Queue.Laws.Order.{delete_all_lem}

AllBelow-behind : (n : ℕ) (xs ys : List (ℕ × List ℕ)) → AllBelow n (xs ++ ys) → AllBelow n ys
AllBelow-behind n [] ys h = h
AllBelow-behind n ((key, value) ∷ xs) ys h = AllBelow-behind n xs ys h.1

Ascending-behind : (xs ys : List (ℕ × List ℕ)) → Ascending (xs ++ ys) → Ascending ys
Ascending-behind [] ys h = h
Ascending-behind ((key, value) ∷ xs) ys h = Ascending-behind xs ys h.1

module _ (c : Codec) (db : Bolt) where
  open db use {Bucket, entries, sequence}

  total-append_all :
      (xs ys : List (ℕ × List ℕ))
      → total_bytes c db (xs ++ ys) ≡ total_bytes c db xs + total_bytes c db ys
  unfolding total_bytes
  total-append_all [] ys = omega arith
  total-append_all ((key, value) ∷ xs) ys = omega (arith, total-append_all xs ys)

  behind-IsSound :
      (es rest : List (ℕ × List ℕ)) (b b' : Bucket) (used : ℕ)
      → IsSound c db b used
      → entries b ≡ es ++ rest
      → delete_all c db es b ≡ ok b'
      → IsSound c db b' (used - total_bytes c db es)
  behind-IsSound es rest b b' used h e d =
      let ascending = subst Ascending e h.ascending in
      let below = subst (AllBelow (suc (sequence b))) e h.below in
      let (left, kept) = delete_all_lem c db es rest b b' e ascending d in
      let counted = h.counted in
      record {
        below = rw (left, kept) (AllBelow-behind (suc (sequence b)) es rest below);
        ascending = rw left (Ascending-behind es rest ascending);
        counted =
            rw left (omega (arith, counted, ap (total_bytes c db) e, total-append_all es rest));
      }

  -- PopBatch keeps the queue sound: the keys ascend up to the sequence of the bucket, and the
  -- bytes that are stored are at most the bytes counted.
  pub pop_batch-IsSound :
      (n : ℕ) (q q' : Queue c db) (pkts : List c.Packet)
      → IsSound c db q.bucket q.used_bytes
      → pop_batch c db n q ≡ ok (pkts, q')
      → IsSound c db q'.bucket q'.used_bytes
  unfolding pop_batch
  pop_batch-IsSound zero q q' pkts h r = let same : q ≡ q' = cc r in rw (← same) h
  pop_batch-IsSound (suc n) q q' pkts h r = popped (take (suc n) (entries q.bucket)) refl r
    where
      popped :
          (es : List (ℕ × List ℕ))
          → take (suc n) (entries q.bucket) ≡ es
          → pop_some c db es q ≡ ok (pkts, q')
          → IsSound c db q'.bucket q'.used_bytes
      popped [] e r = cc
      popped (x ∷ xs) e r =
          let rest = drop (suc n) (entries q.bucket) in
          let split : entries q.bucket ≡ (x ∷ xs) ++ rest =
            sym (take-append-drop (suc n) (entries q.bucket)) ∙ ap (λ es. es ++ rest) e in
          let (b, d, r1) = >>=-eq-ok (delete_all c db (x ∷ xs) q.bucket) _ r in
          let same : record q { bucket = b; used_bytes = q.used_bytes - total_bytes c db (x ∷ xs) }
              ≡ q' =
            cc r1 in
          subst (λ q. IsSound c db q.bucket q.used_bytes) same
            (behind-IsSound (x ∷ xs) rest q.bucket b q.used_bytes h split d)
