-- ===== src/Ingest/Cache/Laws.antt =====
-- The invariant of the cache (fwDCS/internal/ingest/cache.go).
use text.Mathlib.TextPositions.{eq_refl}
use dcim_data_reader.Prelude.{
  ℕ, suc, ◌+◌, ◌≤◌, ◌<◌, ◌≡◌, refl, arith, true, none, some, List, [], ◌∷◌, ltb, ◌==◌, str_eq,
  eq_iff, if◌then◌else◌, length, String, Option-cases, Bool-cases, inl, inr,
}
use dcim_data_reader.Ingest.Cache.{
  LruEntry, Lru, new_lru_with_ttl, find, remove_key, without_back, expired, get, put, invalidate,
  flush,
}

-- The operations, with the time at which each is called.
pub data Operation : Type 0 where
  get_at : ℕ → String → Operation
  put_at : ℕ → String → String → Operation
  invalidate_key : String → Operation
  flush_all : Operation

pub apply : Operation → Lru → Lru
apply (get_at now key) c = (get now key c).1
apply (put_at now key val) c = put now key val c
apply (invalidate_key key) c = invalidate key c
apply flush_all c = (flush c).1

pub apply_all : List Operation → Lru → Lru
apply_all [] c = c
apply_all (o ∷ os) c = apply_all os (apply o c)

abbrev pub Distinct : List LruEntry → Type 0
Distinct [] = Unit
Distinct (e ∷ es) = (find e.key es ≡ none) × Distinct es

pub find-remove_key :
    (key other : String) (es : List LruEntry)
    → find other (remove_key key es) ≡ (if str_eq key other then none else find other es)
unfolding find remove_key
find-remove_key key other [] = ground arith
find-remove_key key other (e ∷ es) =
    ground
      (arith, find-remove_key key other es, eq_iff key other, eq_iff key e.key, eq_iff other e.key)

remove_key-Distinct :
    (key : String) (es : List LruEntry) → Distinct es → Distinct (remove_key key es)
unfolding remove_key
remove_key-Distinct key [] h = tt
remove_key-Distinct key (e ∷ es) h =
    ground (arith, remove_key-Distinct key es h.1, find-remove_key key e.key es)

length-remove_key : (key : String) (es : List LruEntry) → length (remove_key key es) ≤ length es
unfolding remove_key
length-remove_key key [] = omega arith
length-remove_key key (e ∷ es) = ground (arith, length-remove_key key es)

length-remove_key_found :
    (key : String) (es : List LruEntry) (found : LruEntry)
    → find key es ≡ some found
    → (length (remove_key key es) < length es) × (str_eq key found.key ≡ true)
unfolding remove_key find
length-remove_key_found key [] found h = cc
length-remove_key_found key (e ∷ es) found h =
    ground (arith, length-remove_key key es, length-remove_key_found key es found)

find-without_back :
    (key : String) (es : List LruEntry) → find key es ≡ none → find key (without_back es) ≡ none
unfolding find without_back
find-without_back key [] h = refl
find-without_back key (e ∷ []) h = refl
find-without_back key (e ∷ f ∷ es) h = ground (arith, find-without_back key (f ∷ es))

without_back-Distinct : (es : List LruEntry) → Distinct es → Distinct (without_back es)
unfolding without_back
without_back-Distinct [] h = tt
without_back-Distinct (e ∷ []) h = tt
without_back-Distinct (e ∷ f ∷ es) h =
    (find-without_back e.key (f ∷ es) h.0, without_back-Distinct (f ∷ es) h.1)

length-without_back :
    (e : LruEntry) (es : List LruEntry) → length (without_back (e ∷ es)) ≡ length es
unfolding without_back
length-without_back e [] = refl
length-without_back e (f ∷ es) = omega (arith, length-without_back f es)

-- One entry for each key, and no more entries than the capacity.
pub record IsLru (c : Lru) : Type 0 where
  pub positive : 0 < c.cap
  pub distinct : Distinct c.entries
  pub bounded : length c.entries ≤ c.cap

-- An entry for a key that is there goes to the front.
front-IsLru :
    (c : Lru) (e found : LruEntry)
    → IsLru c
    → find e.key c.entries ≡ some found
    → IsLru (record c { entries = e ∷ remove_key e.key c.entries })
front-IsLru c e found h f =
    let (shorter, _) = length-remove_key_found e.key c.entries found f in
    let bounded = h.bounded in
    record {
      positive = h.positive;
      distinct = (gone, remove_key-Distinct e.key c.entries h.distinct);
      bounded = omega (arith, shorter, bounded);
    }
  where
    gone : find e.key (remove_key e.key c.entries) ≡ none
    gone = rw (find-remove_key e.key e.key c.entries, eq_refl e.key)

remove-IsLru :
    (c : Lru) (key : String) → IsLru c → IsLru (record c { entries = remove_key key c.entries })
remove-IsLru c key h =
    let bounded = h.bounded in
    record {
      positive = h.positive;
      distinct = remove_key-Distinct key c.entries h.distinct;
      bounded = omega (arith, bounded, length-remove_key key c.entries);
    }

get-IsLru : (now : ℕ) (key : String) (c : Lru) → IsLru c → IsLru (get now key c).1
unfolding get
get-IsLru now key c h = elim (Option-cases (find key c.entries)) [
  | inl n ↦ rw (get, n) h
  | inr (e, f) ↦ elim (Bool-cases (expired now e)) [
    | inl t ↦ rw (get, f, t) (remove-IsLru c key h)
    | inr t ↦
        let same = (eq_iff key e.key).0 (length-remove_key_found key c.entries e f).1 in
        rw (get, f, t, same) (front-IsLru c e e h (rw same at f))
  ]
]

put-IsLru : (now : ℕ) (key val : String) (c : Lru) → IsLru c → IsLru (put now key val c)
unfolding put
put-IsLru now key val c h =
    let e : LruEntry = record {
      key = key;
      val = val;
      expires_at = if c.ttl == 0 then 0 else now + c.ttl;
    } in
    elim (Option-cases (find key c.entries)) [
      | inr (old, f) ↦ rw (put, f) (front-IsLru c e old h f)
      | inl n ↦ elim (Bool-cases (ltb c.cap (suc (length c.entries)))) [
        | inl t ↦
            rw (put, n, t)
              (record {
                positive = h.positive;
                distinct = without_back-Distinct (e ∷ c.entries) (n, h.distinct);
                bounded = rw (length-without_back e c.entries) h.bounded;
              })
        | inr t ↦
            rw (put, n, t)
              (record { positive = h.positive; distinct = (n, h.distinct); bounded = ground arith })
      ]
    ]

apply-IsLru : (o : Operation) (c : Lru) → IsLru c → IsLru (apply o c)
unfolding apply invalidate flush
apply-IsLru (get_at now key) c h = get-IsLru now key c h
apply-IsLru (put_at now key val) c h = put-IsLru now key val c h
apply-IsLru (invalidate_key key) c h = remove-IsLru c key h
apply-IsLru flush_all c h = record { positive = h.positive; distinct = tt; bounded = omega arith }

apply_all_lem : (os : List Operation) (c : Lru) → IsLru c → IsLru (apply_all os c)
unfolding apply_all
apply_all_lem [] c h = h
apply_all_lem (o ∷ os) c h = apply_all_lem os (apply o c) (apply-IsLru o c h)

-- After any gets, puts, invalidations and flushes, a new cache holds one entry for each key at
-- most and no more entries than its capacity, which is above 0.
pub apply_all-IsLru :
    (os : List Operation) (capacity ttl : ℕ) → IsLru (apply_all os (new_lru_with_ttl capacity ttl))
unfolding new_lru_with_ttl
apply_all-IsLru os capacity ttl =
    apply_all_lem os (new_lru_with_ttl capacity ttl)
      (record { positive = ground arith; distinct = tt; bounded = ground arith })
