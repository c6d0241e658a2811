-- ===== src/Prelude/Dict.antt =====
-- A Go map with string keys, as an association list. The code modelled never depends on an order.
use Prim.Native.String.{String}
use mathlib.Core.Path.{◌≡◌}
use mathlib.Core.Option.{Option, none, some}
use mathlib.Core.List.{List, [], ◌∷◌}
use native.Mathlib.Omega.{arith}
use text.Mathlib.Text.{◌==◌}
use text.Mathlib.TextEquality.{eq_iff}
use dcim_data_reader.Prelude.Tests.{if◌then◌else◌}

module _ {ℓ} {V : Type ℓ} where
  -- m[key]
  unfoldable pub lookup : String → List (String × V) → Option V
  lookup key [] = none
  lookup key (pair ∷ m) = let later = lookup key m in if key == pair.0 then some pair.1 else later

  -- m[key] = value
  unfoldable pub insert : String → V → List (String × V) → List (String × V)
  insert key value [] = (key, value) ∷ []
  insert key value (pair ∷ m) =
      let later = pair ∷ insert key value m in if key == pair.0 then (key, value) ∷ m else later

  -- delete(m, key)
  unfoldable pub remove : String → List (String × V) → List (String × V)
  remove key [] = []
  remove key (pair ∷ m) = let later = remove key m in if key == pair.0 then later else pair ∷ later

  pub lookup-insert :
      (key other : String) (value : V) (m : List (String × V))
      → lookup other (insert key value m) ≡ (if key == other then some value else lookup other m)
  unfolding lookup insert
  lookup-insert key other value [] = ground (arith, eq_iff key other, eq_iff other key)
  lookup-insert key other value (pair ∷ m) = ground (
    arith,
    eq_iff other key,
    eq_iff key other,
    eq_iff key pair.0,
    eq_iff other pair.0,
    lookup-insert key other value m,
  )

  pub lookup-remove :
      (key other : String) (m : List (String × V))
      → lookup other (remove key m) ≡ (if key == other then none else lookup other m)
  unfolding lookup remove
  lookup-remove key other [] = ground arith
  lookup-remove key other (pair ∷ m) = ground (
    arith,
    eq_iff other key,
    eq_iff key other,
    eq_iff key pair.0,
    eq_iff other pair.0,
    lookup-remove key other m,
  )
