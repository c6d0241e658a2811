-- ===== src/Idr/Publisher/Laws.antt =====
-- The queue of the host agent as a list of packets, and its publisher (fwIDR/internal/queue/queue.go,
-- fwIDR/internal/publisher/publisher.go).
use mathlib.Core.Option.{some-injective}
use dcim_data_reader.Prelude.{
  ℕ, suc, ◌<◌, ◌≡◌, ◌∙◌, refl, sym, subst, ap, arith, true, false, inl, inr, Bool-cases,
  Option-cases, Option, none, some, List, [], ◌∷◌, ◌++◌, leb, Run, ok, err, panic, hang, or_fail,
  ◌>>=◌, ◌==◌,
}
use dcim_data_reader.Queue.{Codec, is_urgent, evict_oldest_non_critical}
use dcim_data_reader.Queue.Bbolt.{Bolt, AllBelow, without}
use dcim_data_reader.Queue.Bbolt.Keys.{
  Ascending, AllAbove, In, without-AllAbove, AllBelow-without, Ascending-without, AllBelow-append,
  Ascending-append,
}
use dcim_data_reader.Queue.Laws.{evict_oldest_lem}
use dcim_data_reader.Idr.Queue.{
  Queue, push, pop, pop_first, room, unmarshal_failed, store_failed, marshal_failed,
}

pub >>=-eq-ok :
    {E A B : Type 0} (first : Run E A) (next : A → Run E B) {last : B}
    → (first >>= next) ≡ ok last
    → (between : A) × (first ≡ ok between) × (next between ≡ ok last)
>>=-eq-ok (ok between) next done = (between, refl, done)
>>=-eq-ok (err failure) next done = cc
>>=-eq-ok panic next done = cc
>>=-eq-ok hang next done = cc

or_fail-eq-ok : {E A : Type 0} (e : E) (o : Option A) {a : A} → or_fail e o ≡ ok a → o ≡ some a
or_fail-eq-ok e none h = cc
or_fail-eq-ok e (some x) h = cc

AllAbove-In : (n k : ℕ) (v : List ℕ) (es : List (ℕ × List ℕ)) → AllAbove n es → In k v es → n < k
AllAbove-In n k v [] h i = absurd i
AllAbove-In n k v ((key, value) ∷ rest) h (inl (e, _)) = omega (arith, e, h.0)
AllAbove-In n k v ((key, value) ∷ rest) h (inr i) = AllAbove-In n k v rest h.1 i

without-here :
    (key k : ℕ) (v : List ℕ) (es : List (ℕ × List ℕ))
    → key ≡ k
    → AllAbove k es
    → without key ((k, v) ∷ es) ≡ es
without-here key k v es e h = ground (arith, without-AllAbove k es h)

module _ (c : Codec) (db : Bolt) (leaf_inuse : db.Bucket → ℕ) where
  open c use {Packet, severity, marshal, unmarshal}
  open db use {Bucket, entries, sequence, put, delete, next_sequence}

  -- The entries are those of the packets, in their order.
  abbrev pub Stored : List Packet → List (ℕ × List ℕ) → Type 0
  Stored [] [] = Unit
  Stored [] (e ∷ es) = ⊥
  Stored (p ∷ ps) [] = ⊥
  Stored (p ∷ ps) ((key, value) ∷ rest) = (unmarshal value ≡ some p) × Stored ps rest

  -- The queue as a list of packets: it stores them in their order, under ascending keys.
  pub record Represents (ps : List Packet) (b : Bucket) : Type 0 where
    pub stored : Stored ps (entries b)
    pub below : AllBelow (suc (sequence b)) (entries b)
    pub ascending : Ascending (entries b)

  -- What a successful Push does to the list: it appends, and an urgent packet may take the place of
  -- one other.
  pub data Pushes (p : Packet) : List Packet → List Packet → Type 0 where
    appends : {ps : List Packet} → Pushes p ps (ps ++ p ∷ [])
    evicts :
        (xs ys : List Packet) (victim : Packet)
        → is_urgent (severity p) ≡ true
        → Pushes p (xs ++ victim ∷ ys) ((xs ++ ys) ++ p ∷ [])

  Stored-append :
      (ps : List Packet) (es : List (ℕ × List ℕ)) (p : Packet) (key : ℕ) (value : List ℕ)
      → unmarshal value ≡ some p
      → Stored ps es
      → Stored (ps ++ p ∷ []) (es ++ (key, value) ∷ [])
  Stored-append [] [] p key value u h = (u, tt)
  Stored-append [] (e ∷ es) p key value u h = absurd h
  Stored-append (x ∷ ps) [] p key value u h = absurd h
  Stored-append (x ∷ ps) ((k, v) ∷ es) p key value u h =
      (h.0, Stored-append ps es p key value u h.1)

  -- The packets before and behind the one that is stored under a key.
  Stored-without :
      (ps : List Packet) (es : List (ℕ × List ℕ)) (key : ℕ) (value : List ℕ)
      → Stored ps es
      → Ascending es
      → In key value es
      → (xs : List Packet) × (victim : Packet) × (ys : List Packet) × (ps ≡ xs ++ victim ∷ ys)
        × Stored (xs ++ ys) (without key es)
  Stored-without [] [] key value h a i = absurd i
  Stored-without [] (e ∷ es) key value h a i = absurd h
  Stored-without (x ∷ ps) [] key value h a i = absurd h
  Stored-without (x ∷ ps) ((k, v) ∷ es) key value h a (inl (e, _)) =
      ([], x, ps, refl, subst (λ zs. Stored ps zs) (sym (without-here key k v es e a.0)) h.1)
  Stored-without (x ∷ ps) ((k, v) ∷ es) key value h a (inr i) =
      let (xs, victim, ys, e, s) = Stored-without ps es key value h.1 a.1 i in
      let apart : (k == key) ≡ false = ground (arith, AllAbove-In k key value es a.0 i) in
      (x ∷ xs, victim, ys, ap (λ zs. x ∷ zs) e, rw apart (h.0, s))

  push_behind :
      (ps : List Packet) (p : Packet) (value : List ℕ) (b b1 b2 : Bucket) (seq : ℕ)
      → unmarshal value ≡ some p
      → Represents ps b
      → next_sequence b ≡ some (seq, b1)
      → put seq value b1 ≡ some b2
      → Represents (ps ++ p ∷ []) b2
  push_behind ps p value b b1 b2 seq u h n d =
      let (is_next, kept, same) = db.next_sequence_gives b b1 seq n in
      let below : AllBelow seq (entries b1) = rw (same, is_next) h.below in
      let (kept', appended) = db.put_appends b1 b2 seq value d below in
      let e = appended ∙ ap (λ es. es ++ (seq, value) ∷ []) same in
      let below' : AllBelow seq (entries b) = rw is_next h.below in
      record {
        stored = rw e (Stored-append ps (entries b) p seq value u h.stored);
        below = rw (e, kept', kept) (AllBelow-append seq (entries b) value below');
        ascending = rw e (Ascending-append seq (entries b) value below' h.ascending);
      }

  room-Represents :
      (ps : List Packet) (p : Packet) (q : Queue c db leaf_inuse) (b : Bucket)
      → Represents ps q.bucket
      → room c db leaf_inuse (severity p) q ≡ ok b
      → (left : List Packet) × Represents left b × Pushes p ps (left ++ p ∷ [])
  unfolding room
  room-Represents ps p q b h r = elim (Bool-cases (leb q.max_bytes (leaf_inuse q.bucket))) [
    | inr f ↦ let same : q.bucket ≡ b = cc (rw f at r) in (ps, rw (← same) h, appends)
    | inl t ↦ elim (Bool-cases (is_urgent (severity p))) [
      | inr n ↦ absurd (ground arith)
      | inl u ↦ elim (Option-cases (evict_oldest_non_critical c db q.bucket)) [
        | inl n ↦ absurd (ground arith)
        | inr ((freed, b'), found) ↦
            let same : b' ≡ b = ground arith in
            let (key, value, i, d, f, _) = evict_oldest_lem c db q.bucket b' freed found in
            let (kept, e) = db.delete_removes q.bucket b' key d in
            let (xs, victim, ys, split, s) =
              Stored-without ps (entries q.bucket) key value h.stored h.ascending i in
            (
              xs ++ ys,
              rw (← same) (record {
                stored = rw e s;
                below =
                    rw (e, kept)
                      (AllBelow-without (suc (sequence q.bucket)) key (entries q.bucket) h.below);
                ascending = rw e (Ascending-without key (entries q.bucket) h.ascending);
              }),
              rw split (evicts xs ys victim u),
            )
      ]
    ]
  ]

  -- Push refines the list.
  pub push-Represents :
      (ps : List Packet) (p : Packet) (q q' : Queue c db leaf_inuse)
      → ((v : List ℕ) → marshal p ≡ some v → unmarshal v ≡ some p)
      → Represents ps q.bucket
      → push c db leaf_inuse p q ≡ ok q'
      → (ps' : List Packet) × Represents ps' q'.bucket × Pushes p ps ps'
  unfolding push
  push-Represents ps p q q' codec h r =
      let (bytes, m, r1) = >>=-eq-ok (or_fail marshal_failed (marshal p)) _ r in
      let (roomy, made, r2) = >>=-eq-ok (room c db leaf_inuse (severity p) q) _ r1 in
      let ((seq, b1), n, r3) = >>=-eq-ok (or_fail store_failed (next_sequence roomy)) _ r2 in
      let (b2, d, r4) = >>=-eq-ok (or_fail store_failed (put seq bytes b1)) _ r3 in
      let same : record q { bucket = b2 } ≡ q' = cc r4 in
      let (left, rep, step) = room-Represents ps p q roomy h made in
      let behind =
        push_behind left p bytes roomy b1 b2 seq
          (codec bytes (or_fail-eq-ok marshal_failed (marshal p) m)) rep
          (or_fail-eq-ok store_failed (next_sequence roomy) n)
          (or_fail-eq-ok store_failed (put seq bytes b1) d) in
      (left ++ p ∷ [], rw (← same) behind, step)

  pop_first-Represents :
      (ps : List Packet) (es : List (ℕ × List ℕ)) (p : Packet) (q q' : Queue c db leaf_inuse)
      → entries q.bucket ≡ es
      → Stored ps es
      → Represents ps q.bucket
      → pop_first c db leaf_inuse es q ≡ ok (p, q')
      → (rest : List Packet) × Represents rest q'.bucket × (ps ≡ p ∷ rest)
  unfolding pop_first
  pop_first-Represents [] [] p q q' e s h r = absurd (ground arith)
  pop_first-Represents (x ∷ ps) [] p q q' e s h r = absurd s
  pop_first-Represents [] (x ∷ es) p q q' e s h r = absurd s
  pop_first-Represents (x ∷ ps) ((key, value) ∷ es) p q q' e s h r =
      let (p', u, r1) = >>=-eq-ok (or_fail unmarshal_failed (unmarshal value)) _ r in
      let (b, d, r2) = >>=-eq-ok (or_fail store_failed (delete key q.bucket)) _ r1 in
      let (kept, removed) =
        db.delete_removes q.bucket b key (or_fail-eq-ok store_failed (delete key q.bucket) d) in
      let same : record q { bucket = b } ≡ q' = cc r2 in
      let packet : p' ≡ p = cc r2 in
      let decoded = or_fail-eq-ok unmarshal_failed (unmarshal value) u in
      let first : x ≡ p = some-injective _ _ (sym s.0 ∙ decoded) ∙ packet in
      let above : Ascending ((key, value) ∷ es) = subst Ascending e h.ascending in
      let left : entries b ≡ es =
        removed ∙ ap (without key) e ∙ without-here key key value es refl above.0 in
      (
        ps,
        rw (← same) (record {
          stored = subst (Stored ps) (sym left) s.1;
          below =
              rw (removed, kept)
                (AllBelow-without (suc (sequence q.bucket)) key (entries q.bucket) h.below);
          ascending = subst Ascending (sym left) above.1;
        }),
        ap (λ y. y ∷ ps) first,
      )

  -- Pop refines the list.
  pub pop-Represents :
      (ps : List Packet) (p : Packet) (q q' : Queue c db leaf_inuse)
      → Represents ps q.bucket
      → pop c db leaf_inuse q ≡ ok (p, q')
      → (rest : List Packet) × Represents rest q'.bucket × (ps ≡ p ∷ rest)
  unfolding pop
  pop-Represents ps p q q' h r = pop_first-Represents ps (entries q.bucket) p q q' refl h.stored h r
