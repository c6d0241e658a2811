-- ===== src/Tests/Dedup.antt =====
-- The replay filter's theorem at a store that is a list (fwDCS/internal/ingest/dedup.go).
use mathlib.Core.Option.{some-injective}
use text.Mathlib.TextPositions.{eq_refl}
use dcim_data_reader.Prelude.{
  ℕ, ◌≡◌, ◌≢◌, ◌↔◌, ◌∙◌, refl, sym, ap, arith, Bool, true, false, Option, none, some, List, [], ◌∷◌,
  String, str_eq, eq_iff,
}
use dcim_data_reader.Prelude.Dict.{lookup, insert, lookup-insert}
use dcim_data_reader.Ingest.Dedup.{Redis, store_nonce, judge_nonce, is_duplicate}
use dcim_data_reader.Ingest.Dedup.Laws.{Packet, nonces_of, let_through}

abbrev Store : Type 0
Store = List (String × ℕ)

abbrev set_absent : String → Store → Option ℕ → Option (Bool × Store)
set_absent key s none = some (true, insert key 1 s)
set_absent key s (some n) = some (false, s)

pub set_absent_lem :
    (key : String) (s s' : Store) (was_set : Bool) (found : Option ℕ)
    → lookup key s ≡ found
    → set_absent key s found ≡ some (was_set, s')
    → (was_set ≡ true ↔ lookup key s ≡ none)
      × (lookup key s' ≢ none)
      × ((other : String) → str_eq other key ≡ false → lookup other s' ≡ lookup other s)
set_absent_lem key s s' was_set none f e =
    let stored = ap (λ (x : Bool × Store). x.1) (some-injective _ _ e) in
    let set = ap (λ (x : Bool × Store). x.0) (some-injective _ _ e) in
    let there : lookup key s' ≡ some 1 =
      ap (lookup key) (sym stored) ∙ lookup-insert key key 1 s ∙ rw (eq_refl key) in
    (
      (λ _. f, λ _. sym set),
      λ gone. cc,
      λ other ne.
          ap (lookup other) (sym stored)
          ∙ lookup-insert key other 1 s
          ∙ ground (arith, eq_iff key other, eq_iff other key),
    )
set_absent_lem key s s' was_set (some n) f e =
    let stored = ap (λ (x : Bool × Store). x.1) (some-injective _ _ e) in
    let set = ap (λ (x : Bool × Store). x.0) (some-injective _ _ e) in
    ((λ t. cc, λ gone. cc), λ gone. cc, λ other ne. ap (lookup other) (sym stored))

pub insert_lem :
    (key : String) (n : ℕ) (s s' : Store)
    → some (insert key n s) ≡ some s'
    → (lookup key s' ≡ some n)
      × ((other : String) → str_eq other key ≡ false → lookup other s' ≡ lookup other s)
insert_lem key n s s' e =
    let stored = some-injective _ _ e in
    (
      ap (lookup key) (sym stored) ∙ lookup-insert key key n s ∙ rw (eq_refl key),
      λ other ne.
          ap (lookup other) (sym stored)
          ∙ lookup-insert key other n s
          ∙ ground (arith, eq_iff key other, eq_iff other key),
    )

abbrev pub list_redis : Redis
list_redis = record {
  State = Store;
  value = lookup;
  set_nx = λ key s. set_absent key s (lookup key s);
  get = λ key s. some (lookup key s);
  set = λ key n s. some (insert key n s);
  set_nx_gives = λ key s s' was_set e. set_absent_lem key s s' was_set (lookup key s) refl e;
  set_gives = insert_lem;
  get_gives = λ key s v e. sym (some-injective _ _ e);
}

abbrev no_keys : Store
no_keys = []

-- The fourth packet has a new id and the nonce of the third.
abbrev some_packets : List Packet
some_packets =
    record { packet_id = "p1"; source_id = "edr-1"; nonce = 4 }
    ∷ record { packet_id = "p2"; source_id = "edr-2"; nonce = 2 }
    ∷ record { packet_id = "p3"; source_id = "edr-1"; nonce = 6 }
    ∷ record { packet_id = "p4"; source_id = "edr-1"; nonce = 6 }
    ∷ record { packet_id = "p5"; source_id = "edr-1"; nonce = 7 }
    ∷ []

some_packets-let_through :
    nonces_of "edr-1" (let_through list_redis some_packets no_keys) ≡ 4 ∷ 6 ∷ 7 ∷ []
unfolding let_through is_duplicate judge_nonce store_nonce lookup insert
some_packets-let_through = refl
