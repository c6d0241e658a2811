-- ===== src/Queue/Bbolt/Keys.antt =====
-- The order of the keys of a bucket (go.etcd.io/bbolt), as the queues use it.
use dcim_data_reader.Prelude.{ℕ, suc, ◌≤◌, ◌<◌, ◌≡◌, ◌⊎◌, refl, arith, List, [], ◌∷◌, ◌++◌}
use dcim_data_reader.Queue.Bbolt.{AllBelow, without}

abbrev pub AllAbove : ℕ → List (ℕ × List ℕ) → Type 0
AllAbove n [] = Unit
AllAbove n ((key, value) ∷ rest) = (n < key) × AllAbove n rest

-- Strictly increasing keys.
abbrev pub Ascending : List (ℕ × List ℕ) → Type 0
Ascending [] = Unit
Ascending ((key, value) ∷ rest) = AllAbove key rest × Ascending rest

pub AllBelow-without :
    (n k : ℕ) (es : List (ℕ × List ℕ)) → AllBelow n es → AllBelow n (without k es)
AllBelow-without n k [] h = tt
AllBelow-without n k ((key, value) ∷ rest) h = ground (arith, AllBelow-without n k rest h.1)

AllAbove-without : (n k : ℕ) (es : List (ℕ × List ℕ)) → AllAbove n es → AllAbove n (without k es)
AllAbove-without n k [] h = tt
AllAbove-without n k ((key, value) ∷ rest) h = ground (arith, AllAbove-without n k rest h.1)

pub Ascending-without : (k : ℕ) (es : List (ℕ × List ℕ)) → Ascending es → Ascending (without k es)
Ascending-without k [] h = tt
Ascending-without k ((key, value) ∷ rest) h =
    ground (arith, Ascending-without k rest h.1, AllAbove-without key k rest h.0)

pub AllBelow-mono : (n m : ℕ) (es : List (ℕ × List ℕ)) → n ≤ m → AllBelow n es → AllBelow m es
AllBelow-mono n m [] l h = tt
AllBelow-mono n m ((key, value) ∷ rest) l h = (omega arith, AllBelow-mono n m rest l h.1)

pub AllBelow-append :
    (n : ℕ) (es : List (ℕ × List ℕ)) (v : List ℕ)
    → AllBelow n es
    → AllBelow (suc n) (es ++ (n, v) ∷ [])
AllBelow-append n [] v h = (omega arith, tt)
AllBelow-append n ((key, value) ∷ rest) v h = (omega arith, AllBelow-append n rest v h.1)

AllAbove-append :
    (k n : ℕ) (es : List (ℕ × List ℕ)) (v : List ℕ)
    → k < n
    → AllAbove k es
    → AllAbove k (es ++ (n, v) ∷ [])
AllAbove-append k n [] v l h = (l, tt)
AllAbove-append k n ((key, value) ∷ rest) v l h = (h.0, AllAbove-append k n rest v l h.1)

pub Ascending-append :
    (n : ℕ) (es : List (ℕ × List ℕ)) (v : List ℕ)
    → AllBelow n es
    → Ascending es
    → Ascending (es ++ (n, v) ∷ [])
Ascending-append n [] v b h = (tt, tt)
Ascending-append n ((key, value) ∷ rest) v b h =
    (AllAbove-append key n rest v b.0 h.0, Ascending-append n rest v b.1 h.1)

-- A key below all the others is not among them.
pub without-AllAbove : (k : ℕ) (es : List (ℕ × List ℕ)) → AllAbove k es → without k es ≡ es
without-AllAbove k [] h = refl
without-AllAbove k ((key, value) ∷ rest) h = ground (arith, without-AllAbove k rest h.1)

-- The key stands in the bucket with the value.
abbrev pub In : ℕ → List ℕ → List (ℕ × List ℕ) → Type 0
In k v [] = ⊥
In k v ((key, value) ∷ rest) = ((k ≡ key) × (v ≡ value)) ⊎ In k v rest
