-- ===== src/Prelude/Loop.antt =====
-- A Go `for` loop whose rounds can fail, on fuel, with the rule that shows it to end.
use Prim.Native.Nat.{ℕ, zero, suc, ◌<◌}
use native.Mathlib.Omega.{arith}
use dcim_data_reader.Prelude.Outcome.{Run, ok, hang, ◌>>=◌, Total, Ends-bind}

-- How a round of a loop ends: the loop goes on with its variables, or is left.
pub data Round (S R : Type 0) : Type 0 where
  again : S → Round S R
  leave : R → Round S R

-- A `for` over the variables of type `S`, its test in the body, on fuel.
unfoldable pub loop : {E S R : Type 0} → ℕ → (S → Run E (Round S R)) → S → Run E R
loop zero body s = hang
loop (suc f) body s =
    body s >>= λ round. elim round [ again next ↦ loop f body next | leave r ↦ ok r ]

-- What a round keeps: the invariant with a smaller measure, or the result's property.
abbrev pub Keeps : {S R : Type 0} → (S → Type 0) → (S → ℕ) → (R → Type 0) → S → Round S R → Type 0
Keeps Inv measure Q s (again next) = Inv next × (measure next < measure s)
Keeps Inv measure Q s (leave r) = Q r

-- A loop whose rounds return and lower a measure below the fuel returns.
pub Total-loop :
    {E S R : Type 0} (Inv : S → Type 0) (measure : S → ℕ) (Q : R → Type 0)
    (body : S → Run E (Round S R))
    → ((s : S) → Inv s → Total (body s) (Keeps Inv measure Q s))
    → (f : ℕ) (s : S) → Inv s
    → measure s < f
    → Total (loop f body s) Q
unfolding loop
Total-loop Inv measure Q body keep zero s h m = absurd (omega arith)
Total-loop {S = S} {R = R} Inv measure Q body keep (suc f) s h m =
    Ends-bind (λ _. ⊥) (Keeps Inv measure Q s) Q (body s) _ (keep s h)
      (after (λ next i lt. Total-loop Inv measure Q body keep f next i (omega arith)))
  where
    after :
        ((next : S) → Inv next → measure next < measure s → Total (loop f body next) Q)
        → (r : Round S R) → Keeps Inv measure Q s r
        → Total (elim r [ again next ↦ loop f body next | leave x ↦ ok x ]) Q
    after ih (again next) k = ih next k.0 k.1
    after ih (leave r) k = k
