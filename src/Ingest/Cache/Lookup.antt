-- ===== src/Ingest/Cache/Lookup.antt =====
-- Get after Put (fwDCS/internal/ingest/cache.go).
use text.Mathlib.TextPositions.{eq_refl}
use dcim_data_reader.Prelude.{
  ℕ, suc, ◌+◌, ◌≤◌, ◌<◌, ◌≡◌, ◌∙◌, sym, ap, arith, false, Option, none, some, List, [], ◌∷◌, ltb,
  ◌==◌, str_eq, eq_iff, if◌then◌else◌, length, String, ◌⊎◌, Option-cases, Bool-cases, inl, inr,
}
use dcim_data_reader.Ingest.Cache.{LruEntry, Lru, find, without_back, expired, get, put}
use dcim_data_reader.Ingest.Cache.Laws.{IsLru, find-remove_key}

-- The entry that Put makes.
abbrev made : ℕ → String → String → Lru → LruEntry
made now key val c = record {
  key = key;
  val = val;
  expires_at = if c.ttl == 0 then 0 else now + c.ttl;
}

answer : ℕ → Option LruEntry → Option String
answer now none = none
answer now (some e) = if expired now e then none else some e.val

get-answer :
    (now : ℕ) (key : String) (c : Lru) → (get now key c).0 ≡ answer now (find key c.entries)
unfolding get answer
get-answer now key c = ground arith

find_front :
    (e : LruEntry) (es : List LruEntry)
    → 0 < length es
    → find e.key (without_back (e ∷ es)) ≡ some e
unfolding find without_back
find_front e [] h = absurd (omega arith)
find_front e (f ∷ es) h = rw (eq_refl e.key)

find-put :
    (now : ℕ) (key val : String) (c : Lru)
    → IsLru c
    → find key (put now key val c).entries ≡ some (made now key val c)
unfolding put
find-put now key val c h = elim (Option-cases (find key c.entries)) [
  | inr (old, f) ↦ rw (put, f, find, eq_refl key)
  | inl n ↦ elim (Bool-cases (ltb c.cap (suc (length c.entries)))) [
    | inl t ↦
        let positive = h.positive in
        rw (put, n, t) (find_front (made now key val c) c.entries (ground arith))
    | inr t ↦ rw (put, n, t, find, eq_refl key)
  ]
]

find-put_other :
    (now : ℕ) (key val other : String) (c : Lru)
    → length c.entries < c.cap
    → str_eq other key ≡ false
    → find other (put now key val c).entries ≡ find other c.entries
unfolding put find
find-put_other now key val other c room ne =
    let full : ltb c.cap (suc (length c.entries)) ≡ false = ground arith in
    ground (arith, find-remove_key key other c.entries, eq_iff key other, eq_iff other key)

-- A Get of the key of a Put answers the value that was put, if the cache is sound and its
-- entries do not expire or the time-to-live has not passed.
pub get-put :
    (now later : ℕ) (key val : String) (c : Lru)
    → IsLru c
    → (c.ttl ≡ 0) ⊎ (later ≤ now + c.ttl)
    → (get later key (put now key val c)).0 ≡ some val
unfolding answer expired
get-put now later key val c h live =
    get-answer later key (put now key val c)
    ∙ ap (answer later) (find-put now key val c h)
    ∙ fresh live
  where
    fresh :
        (c.ttl ≡ 0) ⊎ (later ≤ now + c.ttl) → answer later (some (made now key val c)) ≡ some val
    fresh (inl z) = ground arith
    fresh (inr l) = ground arith

-- In a cache that is not full, a Put changes the answer to a Get of no other key, at any time.
pub get-put_other :
    (now later : ℕ) (key val other : String) (c : Lru)
    → length c.entries < c.cap
    → str_eq other key ≡ false
    → (get later other (put now key val c)).0 ≡ (get later other c).0
get-put_other now later key val other c room ne =
    get-answer later other (put now key val c)
    ∙ ap (answer later) (find-put_other now key val other c room ne)
    ∙ sym (get-answer later other c)
