-- ===== src/Ingest/Dedup.antt =====
-- The replay filter of fwDCS/internal/ingest/dedup.go. Redis is an interface; what it promises holds
-- within the windows of its keys, an hour for a packet and a day for a nonce.
pub mod Laws
use Prim.Native.Char.{code}
use Prim.Native.String.{◌++◌ as str_append}
use Prim.Native.String.append
use dcim_data_reader.Prelude.{
  ℕ, ◌≤◌, ◌<◌, ◌≡◌, ◌≢◌, ◌⊎◌, ◌↔◌, refl, arith, Bool, true, false, not, Option, none, some, String,
  str_eq, eq_iff, Bool-cases, ap, leb, if◌then◌else◌, inl, inr,
}

pub record Redis : Type 1 where
  pub State : Type 0
  -- The number that stands at a key that has not expired.
  pub value : String → State → Option ℕ
  -- SET NX of 1: whether it was set. `none` is an error.
  pub set_nx : String → State → Option (Bool × State)
  -- GET of a number, where a missing key is redis.Nil. `none` is another error.
  pub get : String → State → Option (Option ℕ)
  -- SET. `none` is an error.
  pub set : String → ℕ → State → Option State
  -- SET NX sets a key that is not there, and leaves it there; other keys stay as they are.
  pub set_nx_gives :
      (key : String) (s s' : State) (was_set : Bool)
      → set_nx key s ≡ some (was_set, s')
      → (was_set ≡ true ↔ value key s ≡ none)
        × (value key s' ≢ none)
        × ((other : String) → str_eq other key ≡ false → value other s' ≡ value other s)
  -- SET sets a key, and leaves other keys as they are.
  pub set_gives :
      (key : String) (n : ℕ) (s s' : State)
      → set key n s ≡ some s'
      → (value key s' ≡ some n)
        × ((other : String) → str_eq other key ≡ false → value other s' ≡ value other s)
  pub get_gives : (key : String) (s : State) (v : Option ℕ) → get key s ≡ some v → v ≡ value key s

-- "redis setNX" and "redis get nonce".
pub data Error : Type 0 where
  set_nx_failed get_failed : Error

pub data Verdict : Type 0 where
  duplicate : Bool → Verdict
  failed : Error → Verdict

abbrev pub packet_key : String → String
packet_key packet_id = str_append "pkt:" packet_id

abbrev pub nonce_key : String → String
nonce_key source_id = str_append "nonce:" source_id

module _ (redis : Redis) where
  open redis use {State, value, set_nx, get, set}

  -- The SET of a nonce, whose error is ignored.
  unfoldable pub store_nonce : String → ℕ → State → State
  store_nonce source_id nonce s = elim (set (nonce_key source_id) nonce s) [
    | none ↦ s
    | some s' ↦ s'
  ]

  -- The second layer: nothing at the key is 0, as the zero value that comes with redis.Nil.
  unfoldable pub judge_nonce : String → ℕ → State → Verdict × State
  unfolding store_nonce
  judge_nonce source_id nonce s = elim (get (nonce_key source_id) s) [
    | none ↦ (failed get_failed, s)
    | some prev ↦
        if leb nonce (elim prev [ none ↦ 0 | some n ↦ n ])
        then (duplicate true, s)
        else (duplicate false, store_nonce source_id nonce s)
  ]

  -- IsDuplicate.
  unfoldable pub is_duplicate : String → String → ℕ → State → Verdict × State
  unfolding judge_nonce
  is_duplicate packet_id source_id nonce s = elim (set_nx (packet_key packet_id) s) [
    | none ↦ (failed set_nx_failed, s)
    | some (was_set, s') ↦
        if not was_set then (duplicate true, s') else judge_nonce source_id nonce s'
  ]
