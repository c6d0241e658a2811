-- ===== src/Prelude/Sequences.antt =====
-- Lists cut up, joined, selected from and measured.
use Prim.Native.Nat.{ℕ, ◌+◌}
use mathlib.Core.Path.{◌≡◌, refl, sym, ap, subst}
use mathlib.Core.Bool.{Bool, true}
use mathlib.Core.Logic.{◌⊎◌, inl, inr}
use mathlib.Core.Option.{Option, none, some}
use mathlib.Core.List.{List, [], ◌∷◌, ◌++◌, map, append_assoc}
use native.Mathlib.Omega.{arith}
use dcim_data_reader.Prelude.Tests.{if◌then◌else◌, Bool-cases}

abbrev pub All {ℓ κ} : {A : Type ℓ} → (A → Type κ) → List A → Type κ
All P [] = Unit
All P (x ∷ xs) = P x × All P xs

abbrev pub Among : {A : Type 0} → A → List A → Type 0
Among x [] = ⊥
Among x (y ∷ ys) = (x ≡ y) ⊎ Among x ys

module _ {ℓ} {A : Type ℓ} where
  -- The elements that pass the test, in order.
  abbrev pub select : (A → Bool) → List A → List A
  select test [] = []
  select test (x ∷ xs) = let later = select test xs in if test x then x ∷ later else later

  -- The last element.
  abbrev pub last : List A → Option A
  last [] = none
  last (x ∷ []) = some x
  last (x ∷ y ∷ ys) = last (y ∷ ys)

  -- `xs[len(xs)-1]` changed in place.
  abbrev pub on_last : (A → A) → List A → List A
  on_last f [] = []
  on_last f (x ∷ []) = f x ∷ []
  on_last f (x ∷ y ∷ ys) = x ∷ on_last f (y ∷ ys)

  abbrev pub total_of : (A → ℕ) → List A → ℕ
  total_of size [] = 0
  total_of size (x ∷ xs) = size x + total_of size xs

  pub total_of-append :
      (size : A → ℕ) (xs ys : List A)
      → total_of size (xs ++ ys) ≡ total_of size xs + total_of size ys
  total_of-append size [] ys = omega arith
  total_of-append size (x ∷ xs) ys = omega (arith, total_of-append size xs ys)

  pub last-append : (xs : List A) (x : A) → last (xs ++ x ∷ []) ≡ some x
  last-append [] x = refl
  last-append (y ∷ []) x = refl
  last-append (y ∷ z ∷ zs) x = last-append (z ∷ zs) x

  pub on_last-append : (f : A → A) (xs : List A) (x : A) → on_last f (xs ++ x ∷ []) ≡ xs ++ f x ∷ []
  on_last-append f [] x = refl
  on_last-append f (y ∷ []) x = refl
  on_last-append f (y ∷ z ∷ zs) x = ap (λ rest. y ∷ rest) (on_last-append f (z ∷ zs) x)

  -- A list is empty or ends with an element.
  pub last-cases : (xs : List A) → (xs ≡ []) ⊎ ((init : List A) × ((x : A) × (xs ≡ init ++ x ∷ [])))
  last-cases [] = inl refl
  last-cases (x ∷ xs) = elim (last-cases xs) [
    | inl e ↦ inr ([], (x, ap (λ rest. x ∷ rest) e))
    | inr (init, (y, e)) ↦ inr (x ∷ init, (y, ap (λ rest. x ∷ rest) e))
  ]

  pub All-append {κ} : (P : A → Type κ) (xs ys : List A) → All P xs → All P ys → All P (xs ++ ys)
  All-append P [] ys hx hy = hy
  All-append P (x ∷ xs) ys (h, hx) hy = (h, All-append P xs ys hx hy)

  pub All-append-left {κ} : (P : A → Type κ) (xs ys : List A) → All P (xs ++ ys) → All P xs
  All-append-left P [] ys h = tt
  All-append-left P (x ∷ xs) ys (p, h) = (p, All-append-left P xs ys h)

  pub All-append-right {κ} : (P : A → Type κ) (xs ys : List A) → All P (xs ++ ys) → All P ys
  All-append-right P [] ys h = h
  All-append-right P (x ∷ xs) ys (p, h) = All-append-right P xs ys h

  pub All-weaken {κ κ'} :
      (P : A → Type κ) (Q : A → Type κ') (xs : List A) → ((x : A) → P x → Q x) → All P xs → All Q xs
  All-weaken P Q [] k h = tt
  All-weaken P Q (x ∷ xs) k (p, h) = (k x p, All-weaken P Q xs k h)

  pub select-append :
      (test : A → Bool) (xs ys : List A) → select test (xs ++ ys) ≡ select test xs ++ select test ys
  select-append test [] ys = refl
  select-append test (x ∷ xs) ys = ground (arith, select-append test xs ys)

module _ {ℓ κ} {A : Type ℓ} {B : Type κ} where
  -- The lists that `f` gives, joined.
  abbrev pub concat_map : (A → List B) → List A → List B
  concat_map f [] = []
  concat_map f (x ∷ xs) = f x ++ concat_map f xs

  pub concat_map-append :
      (f : A → List B) (xs ys : List A)
      → concat_map f (xs ++ ys) ≡ concat_map f xs ++ concat_map f ys
  concat_map-append f [] ys = refl
  concat_map-append f (x ∷ xs) ys =
      rw (concat_map-append f xs ys) (sym (append_assoc (f x) (concat_map f xs) (concat_map f ys)))

module _ {ℓ κ} {A : Type ℓ} {B : Type κ} where
  pub concat_map-nothing : (xs : List A) → concat_map {B = B} (λ x. []) xs ≡ []
  concat_map-nothing [] = refl
  concat_map-nothing (x ∷ xs) = concat_map-nothing xs

module _ {ℓ} {A : Type ℓ} where
  pub concat_map-single : (xs : List A) → concat_map (λ x. x ∷ []) xs ≡ xs
  concat_map-single [] = refl
  concat_map-single (x ∷ xs) = ap (λ rest. x ∷ rest) (concat_map-single xs)

module _ {A : Type 0} where
  pub Among-append-left : (x : A) (xs ys : List A) → Among x xs → Among x (xs ++ ys)
  Among-append-left x [] ys m = absurd m
  Among-append-left x (y ∷ xs) ys (inl e) = inl e
  Among-append-left x (y ∷ xs) ys (inr m) = inr (Among-append-left x xs ys m)

  pub Among-append-right : (x : A) (xs ys : List A) → Among x ys → Among x (xs ++ ys)
  Among-append-right x [] ys m = m
  Among-append-right x (y ∷ xs) ys m = inr (Among-append-right x xs ys m)

  pub Among-append-cases : (x : A) (xs ys : List A) → Among x (xs ++ ys) → Among x xs ⊎ Among x ys
  Among-append-cases x [] ys m = inr m
  Among-append-cases x (y ∷ xs) ys (inl e) = inl (inl e)
  Among-append-cases x (y ∷ xs) ys (inr m) = elim (Among-append-cases x xs ys m) [
    | inl here ↦ inl (inr here)
    | inr there ↦ inr there
  ]

  pub All-Among : (P : A → Type 0) (x : A) (xs : List A) → All P xs → Among x xs → P x
  All-Among P x [] h m = absurd m
  All-Among P x (y ∷ ys) (p, h) (inl e) = subst P (sym e) p
  All-Among P x (y ∷ ys) (p, h) (inr m) = All-Among P x ys h m

  pub All-of-Among : (P : A → Type 0) (xs : List A) → ((x : A) → Among x xs → P x) → All P xs
  All-of-Among P [] h = tt
  All-of-Among P (x ∷ xs) h = (h x (inl refl), All-of-Among P xs (λ y m. h y (inr m)))

  pub Among-select :
      (test : A → Bool) (x : A) (xs : List A)
      → Among x xs
      → test x ≡ true
      → Among x (select test xs)
  Among-select test x [] m passes = absurd m
  Among-select test x (y ∷ ys) (inl e) passes =
      let here : test y ≡ true = subst (λ z. test z ≡ true) e passes in rw here (inl e)
  Among-select test x (y ∷ ys) (inr m) passes = elim (Bool-cases (test y)) [
    | inl here ↦ rw here (inr (Among-select test x ys m passes))
    | inr skips ↦ rw skips (Among-select test x ys m passes)
  ]

module _ {A B : Type 0} where
  Among-part :
      (f : A → List B) (y : B) (x : A) (xs : List A) (front : List B)
      → ((z : B) → Among z front → Among z (f x))
      → (Among y (concat_map f xs) → (x' : A) × (Among x' xs × Among y (f x')))
      → Among y (front ++ concat_map f xs)
      → (x' : A) × (Among x' (x ∷ xs) × Among y (f x'))
  Among-part f y x xs [] sub later m = let (x', (here, there)) = later m in (x', (inr here, there))
  Among-part f y x xs (z ∷ zs) sub later (inl e) = (x, (inl refl, sub y (inl e)))
  Among-part f y x xs (z ∷ zs) sub later (inr m) =
      Among-part f y x xs zs (λ w k. sub w (inr k)) later m

  -- What is in the joined lists is in one of them.
  pub Among-concat_map :
      (f : A → List B) (y : B) (xs : List A)
      → Among y (concat_map f xs)
      → (x : A) × (Among x xs × Among y (f x))
  Among-concat_map f y [] m = absurd m
  Among-concat_map f y (x ∷ xs) m = Among-part f y x xs (f x) (λ z k. k) (Among-concat_map f y xs) m

  pub Among-map : (f : A → B) (x : A) (xs : List A) → Among x xs → Among (f x) (map f xs)
  Among-map f x [] m = absurd m
  Among-map f x (y ∷ ys) (inl e) = inl (ap f e)
  Among-map f x (y ∷ ys) (inr m) = inr (Among-map f x ys m)

  -- What is in one of the lists is in the joined ones.
  pub Among-concat_map_of :
      (f : A → List B) (y : B) (x : A) (xs : List A)
      → Among x xs
      → Among y (f x)
      → Among y (concat_map f xs)
  Among-concat_map_of f y x [] m k = absurd m
  Among-concat_map_of f y x (z ∷ zs) (inl e) k =
      Among-append-left y (f z) (concat_map f zs) (subst (λ w. Among y (f w)) e k)
  Among-concat_map_of f y x (z ∷ zs) (inr m) k =
      Among-append-right y (f z) (concat_map f zs) (Among-concat_map_of f y x zs m k)
