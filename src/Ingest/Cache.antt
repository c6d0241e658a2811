-- ===== src/Ingest/Cache.antt =====
-- The LRU cache of fwDCS/internal/ingest/cache.go. The list `ll` is kept front first; the map `idx`
-- holds its elements under their keys, so a look-up in the map is a search of the list. Times are
-- nanoseconds above 0, and a time of 0 is the zero Time.
pub mod Laws
pub mod Lookup
use dcim_data_reader.Prelude.{
  ℕ, suc, ◌+◌, Bool, true, false, not, ◌&&◌, Option, none, some, List, [], ◌∷◌, ltb, ◌==◌, str_eq,
  if◌then◌else◌, length, String,
}

pub record LruEntry : Type 0 where
  pub key : String
  pub val : String
  pub expires_at : ℕ

pub record Lru : Type 0 where
  pub cap : ℕ
  pub ttl : ℕ
  pub entries : List LruEntry

unfoldable pub new_lru_with_ttl : ℕ → ℕ → Lru
new_lru_with_ttl capacity ttl = record {
  cap = if capacity == 0 then 1024 else capacity;
  ttl = ttl;
  entries = [];
}

unfoldable pub new_lru : ℕ → Lru
unfolding new_lru_with_ttl
new_lru capacity = new_lru_with_ttl capacity 0

-- c.idx[key]
unfoldable pub find : String → List LruEntry → Option LruEntry
find key [] = none
find key (e ∷ es) = let later = find key es in if str_eq key e.key then some e else later

-- c.ll.Remove(e) and delete(c.idx, key)
unfoldable pub remove_key : String → List LruEntry → List LruEntry
remove_key key [] = []
remove_key key (e ∷ es) =
    let later = remove_key key es in if str_eq key e.key then later else e ∷ later

-- Without c.ll.Back().
unfoldable pub without_back : List LruEntry → List LruEntry
without_back [] = []
without_back (e ∷ []) = []
without_back (e ∷ f ∷ es) = e ∷ without_back (f ∷ es)

unfoldable pub expired : ℕ → LruEntry → Bool
expired now e = not (e.expires_at == 0) && ltb e.expires_at now

unfoldable pub get : ℕ → String → Lru → Option String × Lru
unfolding find remove_key expired
get now key c = elim (find key c.entries) [
  | none ↦ (none, c)
  | some e ↦
      if expired now e
      then (none, record c { entries = remove_key key c.entries })
      else (some e.val, record c { entries = e ∷ remove_key key c.entries })
]

unfoldable pub put : ℕ → String → String → Lru → Lru
unfolding find remove_key without_back
put now key val c =
    let e : LruEntry = record {
      key = key;
      val = val;
      expires_at = if c.ttl == 0 then 0 else now + c.ttl;
    } in
    elim (find key c.entries) [
      | some old ↦ record c { entries = e ∷ remove_key key c.entries }
      | none ↦
          if ltb c.cap (suc (length c.entries))
          then record c { entries = without_back (e ∷ c.entries) }
          else record c { entries = e ∷ c.entries }
    ]

unfoldable pub invalidate : String → Lru → Lru
unfolding remove_key
invalidate key c = record c { entries = remove_key key c.entries }

-- The number of entries dropped.
unfoldable pub flush : Lru → ℕ × Lru
flush c = (length c.entries, record c { entries = [] })

unfoldable pub len : Lru → ℕ
len c = length c.entries
