-- ===== src/Ingest/Dedup/Laws.antt =====
-- What the replay filter lets through (fwDCS/internal/ingest/dedup.go).
use Prim.Native.Char.{code}
use Prim.Native.String.append
use dcim_data_reader.Prelude.{
  ℕ, ◌≤◌, ◌<◌, ◌≡◌, Bool, false, not, some, List, [], ◌∷◌, map, select, if◌then◌else◌, String,
  str_eq,
}
use dcim_data_reader.Ingest.Dedup.{Redis, Verdict, duplicate, failed, nonce_key, is_duplicate}

first_code : String → ℕ
first_code String.[] = 0
first_code (String.◌∷◌ c rest) = code c

passes : Verdict → Bool
passes (duplicate d) = not d
passes (failed e) = false

-- What is passed to IsDuplicate.
pub record Packet : Type 0 where
  pub packet_id : String
  pub source_id : String
  pub nonce : ℕ

-- The nonces are above the bound and increase.
abbrev pub IncreaseFrom : ℕ → List ℕ → Type 0
IncreaseFrom bound [] = Unit
IncreaseFrom bound (n ∷ ns) = (bound < n) × IncreaseFrom n ns

abbrev pub Increase : List ℕ → Type 0
Increase [] = Unit
Increase (n ∷ ns) = IncreaseFrom n ns

-- The nonces of a source.
abbrev pub nonces_of : String → List Packet → List ℕ
nonces_of source_id ps = map (λ p. p.nonce) (select (λ p. str_eq p.source_id source_id) ps)

module _ (redis : Redis) where
  open redis use {State, value, set_nx, get, set}

  -- The packets that IsDuplicate lets through, one after the other.
  unfoldable pub let_through : List Packet → State → List Packet
  unfolding is_duplicate passes
  let_through [] s = []
  let_through (p ∷ ps) s =
      let (verdict, s') = is_duplicate redis p.packet_id p.source_id p.nonce s in
      let rest = let_through ps s' in if passes verdict then p ∷ rest else rest

  -- A nonce that is no lower than the bound is stored for the source.
  abbrev IsStored : String → ℕ → State → Type 0
  IsStored source_id bound s = (n : ℕ) × (value (nonce_key source_id) s ≡ some n) × (bound ≤ n)

  -- What IsDuplicate keeps stored of every source; and of a packet that it lets through, that its
  -- nonce is stored and was above the stored one.
  abbrev IsKept : State → State → Type 0
  IsKept s s' = (other : String) (bound : ℕ) → IsStored other bound s → IsStored other bound s'
