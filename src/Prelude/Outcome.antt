-- ===== src/Prelude/Outcome.antt =====
-- How a call of a Go function can end: with a value, with an error value, with a run-time panic
-- (an index or a slice out of range), or not within the fuel that its loop is given.
use Prim.Native.Nat.{ℕ, ◌+◌, ◌-◌, ◌≤◌, ◌<◌}
use mathlib.Core.Path.{◌≡◌, refl, ap}
use mathlib.Core.Bool.{Bool, true, false, ◌&&◌}
use mathlib.Core.Logic.{◌≢◌, ◌⊎◌, inl, inr}
use mathlib.Core.Option.{Option, none, some}
use mathlib.Core.List.{List, [], ◌∷◌, ◌++◌}
use native.Mathlib.Omega.{arith}
use dcim_data_reader.Prelude.Tests.{leb, if◌then◌else◌}
use dcim_data_reader.Prelude.Lists.{
  length, get_elem?, take, drop, get_elem?-lt, length-take, length-drop, length-append,
  get_elem?-drop, drop-drop,
}

pub data Run (E A : Type 0) : Type 0 where
  ok : A → Run E A
  err : E → Run E A
  panic : Run E A
  hang : Run E A

infixl 5 ◌>>=◌
abbrev pub ◌>>=◌ : {E A B : Type 0} → Run E A → (A → Run E B) → Run E B
ok a >>= f = f a
err e >>= f = err e
panic >>= f = panic
hang >>= f = hang

-- `v, err := f()` where the caller goes on after an error: `none` is an error.
abbrev pub attempt : {E A : Type 0} → Run E A → Run E (Option A)
attempt (ok a) = ok (some a)
attempt (err e) = ok none
attempt panic = panic
attempt hang = hang

abbrev pub or_panic : {E A : Type 0} → Option A → Run E A
or_panic none = panic
or_panic (some a) = ok a

-- A call that fails with `e` where it gives nothing.
abbrev pub or_fail : {E A : Type 0} → E → Option A → Run E A
or_fail e none = err e
or_fail e (some a) = ok a

-- `xs[i]`
abbrev pub index : {E A : Type 0} → List A → ℕ → Run E A
index xs i = or_panic (get_elem? xs i)

-- `xs[a:b]` of a slice that no capacity stretches further.
abbrev pub slice : {E A : Type 0} → List A → ℕ → ℕ → Run E (List A)
slice xs a b = if leb a b && leb b (length xs) then ok (take (b - a) (drop a xs)) else panic

-- The call ends with a value, and `P` holds of it.
abbrev pub Returns : {E A : Type 0} → Run E A → (A → Type 0) → Type 0
Returns {A} r P = (a : A) × (r ≡ ok a) × P a

pub Returns-bind :
    {E A B : Type 0} {P : A → Type 0} {Q : B → Type 0} (m : Run E A) (f : A → Run E B)
    → Returns m P
    → ((a : A) → P a → Returns (f a) Q)
    → Returns (m >>= f) Q
Returns-bind m f (a, e, p) k = rw e (k a p)

pub index_lt :
    {E A : Type 0} (xs : List A) (i : ℕ)
    → i < length xs
    → Returns (index {E = E} xs i) (λ a. get_elem? xs i ≡ some a)
index_lt xs i h = let (a, e) = get_elem?-lt xs i h in (a, rw e, e)

pub slice_within :
    {E A : Type 0} (xs : List A) (a b : ℕ)
    → a ≤ b
    → b ≤ length xs
    → slice {E = E} xs a b ≡ ok (take (b - a) (drop a xs))
slice_within xs a b p q = ground arith

-- Where a call can end: with a value of which `P` holds, or with an error of which `F` holds, and
-- neither by a panic nor out of fuel.
abbrev pub Ends : {E A : Type 0} → (E → Type 0) → Run E A → (A → Type 0) → Type 0
Ends F (ok a) P = P a
Ends F (err e) P = F e
Ends F panic P = ⊥
Ends F hang P = ⊥

-- No error is returned either.
abbrev pub Total : {E A : Type 0} → Run E A → (A → Type 0) → Type 0
Total r P = Ends (λ _. ⊥) r P

pub Total-Returns : {E A : Type 0} {P : A → Type 0} (r : Run E A) → Total r P → Returns r P
Total-Returns (ok a) h = (a, refl, h)
Total-Returns (err e) h = absurd h
Total-Returns panic h = absurd h
Total-Returns hang h = absurd h

module _ {E A : Type 0} (F : E → Type 0) where
  pub Ends-bind :
      {B : Type 0} (P : A → Type 0) (Q : B → Type 0) (m : Run E A) (f : A → Run E B)
      → Ends F m P
      → ((a : A) → P a → Ends F (f a) Q)
      → Ends F (m >>= f) Q
  Ends-bind P Q (ok a) f h k = k a h
  Ends-bind P Q (err e) f h k = h
  Ends-bind P Q panic f h k = h
  Ends-bind P Q hang f h k = h

  pub Ends-index : (xs : List A) (i : ℕ) → i < length xs → Ends F (index xs i) (λ _. Unit {0})
  Ends-index xs i h = let (a, e) = get_elem?-lt xs i h in rw e tt

  pub Ends-slice :
      (xs : List A) (a b : ℕ)
      → a ≤ b
      → b ≤ length xs
      → Ends F (slice xs a b) (λ ys. length ys ≡ b - a)
  Ends-slice xs a b p q =
      rw (slice_within xs a b p q)
        (omega (arith, length-take (b - a) (drop a xs), length-drop a xs))

-- An optional value of which `P` holds, if there is one.
abbrev pub IfSome : {A : Type 0} → (A → Type 0) → Option A → Type 0
IfSome P none = Unit
IfSome P (some a) = P a

pub Total-attempt :
    {E A : Type 0} (F : E → Type 0) (P : A → Type 0) (r : Run E A)
    → Ends F r P
    → Total (attempt r) (IfSome P)
Total-attempt F P (ok a) h = h
Total-attempt F P (err e) h = tt
Total-attempt F P panic h = h
Total-attempt F P hang h = h

-- `m` gives an optional value, and either case goes on to a value of which `Q` holds.
pub Total-bind_some :
    {E A B : Type 0} (P : A → Type 0) (Q : B → Type 0) (m : Run E (Option A)) (k : Run E B)
    (f : A → Run E B)
    → Total m (IfSome P)
    → Total k Q
    → ((a : A) → P a → Total (f a) Q)
    → Total (m >>= λ o. elim o [ none ↦ k | some a ↦ f a ]) Q
Total-bind_some P Q (ok none) k f h hk hf = hk
Total-bind_some P Q (ok (some a)) k f h hk hf = hf a h
Total-bind_some P Q (err e) k f h hk hf = h
Total-bind_some P Q panic k f h hk hf = h
Total-bind_some P Q hang k f h hk hf = h

pub Total-mono :
    {E A : Type 0} (P Q : A → Type 0) (r : Run E A) → Total r P → ((a : A) → P a → Q a) → Total r Q
Total-mono P Q (ok a) h k = k a h
Total-mono P Q (err e) h k = h
Total-mono P Q panic h k = h
Total-mono P Q hang h k = h

pub Total-if :
    {E A : Type 0} (Q : A → Type 0) (b : Bool) (r s : Run E A)
    → (b ≡ true → Total r Q)
    → (b ≡ false → Total s Q)
    → Total (if b then r else s) Q
Total-if Q true r s h k = h refl
Total-if Q false r s h k = k refl

-- A position of `xs` at which `x` stands, with `rest` behind it.
module _ {A : Type 0} (xs : List A) (i : ℕ) {x : A} {rest : List A}
    (here : drop i xs ≡ x ∷ rest) where
  pub lt_here : i < length xs
  lt_here = omega (arith, length-drop i xs, ap length here)

  pub index_here : {E : Type 0} → index {E = E} xs i ≡ ok x
  index_here = rw (get_elem?-drop xs i here)

  pub drop_next : drop (i + 1) xs ≡ rest
  drop_next = rw (← drop-drop 1 i xs, here)

pub lt_append :
    {A : Type 0} (xs : List A) (i : ℕ) (ys zs : List A)
    → drop i xs ≡ ys ++ zs
    → (length ys ≡ 0) ⊎ (i + length ys ≤ length xs)
lt_append xs i [] zs h = inl refl
lt_append xs i (y ∷ ys) zs h =
    inr (omega (arith, length-drop i xs, ap length h, length-append (y ∷ ys) zs))

pub Ends-no_panic :
    {E A : Type 0} (F : E → Type 0) (P : A → Type 0) (r : Run E A)
    → Ends F r P
    → (r ≢ panic) × (r ≢ hang)
Ends-no_panic F P (ok a) h = (λ e. cc, λ e. cc)
Ends-no_panic F P (err e) h = (λ e. cc, λ e. cc)
Ends-no_panic F P panic h = absurd h
Ends-no_panic F P hang h = absurd h

pub Ends-if :
    {E A : Type 0} (F : E → Type 0) (Q : A → Type 0) (b : Bool) (r s : Run E A)
    → (b ≡ true → Ends F r Q)
    → (b ≡ false → Ends F s Q)
    → Ends F (if b then r else s) Q
Ends-if F Q true r s h k = h refl
Ends-if F Q false r s h k = k refl
