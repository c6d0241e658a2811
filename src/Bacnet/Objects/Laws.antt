-- ===== src/Bacnet/Objects/Laws.antt =====
-- The keys of the objects of a meter (fwEDR/internal/bacnet/objects.go).
use dcim_data_reader.Prelude.{
  ℕ, zero, suc, ◌+◌, ◌*◌, ◌≤◌, ◌<◌, ◌≡◌, ◌∙◌, refl, ap, arith, Bool, true, ◌&&◌, Option, none, some,
  List, [], ◌∷◌, ◌++◌, ltb, ◌==◌, if◌then◌else◌, inl, inr, ◌⊎◌, Bool-cases,
}
use dcim_data_reader.Bacnet.Objects.{
  ObjMeta, panel_objects, circuit_offsets, circuit_rows, circuits_from, circuit_objects,
  objects_for, meta_at, meta_index,
}

-- The objects of a list, by a position.
abbrev pub Among : ObjMeta → List ObjMeta → Type 0
Among o [] = ⊥
Among o (x ∷ xs) = (o ≡ x) ⊎ Among o xs

-- The list's instances lie from `lo` on and ascend, so that no two are alike.
abbrev pub From : ℕ → List ObjMeta → Type 0
From lo [] = Unit
From lo (x ∷ xs) = (lo ≤ x.inst) × From (suc x.inst) xs

From-mono : (lo low : ℕ) (xs : List ObjMeta) → low ≤ lo → From lo xs → From low xs
From-mono lo low [] h f = tt
From-mono lo low (x ∷ xs) h f = (omega (arith, f.0), f.1)

-- Nothing from `lo` on stands at a key below `lo`.
meta_at-From :
    (xs : List ObjMeta) (lo t i : ℕ) (found : Option ObjMeta)
    → From lo xs
    → i < lo
    → meta_at t i xs found ≡ found
unfolding meta_at
meta_at-From [] lo t i found f h = refl
meta_at-From (x ∷ xs) lo t i found f h =
    ground (arith, meta_at-From xs (suc x.inst) t i found f.1 (omega (arith, f.0)))

at_key :
    (o x : ObjMeta) (found : Option ObjMeta)
    → o ≡ x
    → (if x.obj_type == o.obj_type && x.inst == o.inst then some x else found) ≡ some o
at_key o x found e = rw e (ground arith)

meta_at-Among :
    (o : ObjMeta) (xs : List ObjMeta) (lo : ℕ) (found : Option ObjMeta)
    → From lo xs
    → Among o xs
    → meta_at o.obj_type o.inst xs found ≡ some o
unfolding meta_at
meta_at-Among o [] lo found f a = absurd a
meta_at-Among o (x ∷ xs) lo found f (inl e) =
    meta_at-From xs (suc x.inst) o.obj_type o.inst _ f.1 (omega (arith, ap (λ y. y.inst) e))
    ∙ at_key o x found e
meta_at-Among o (x ∷ xs) lo found f (inr a) = meta_at-Among o xs (suc x.inst) _ f.1 a

-- The five objects of a circuit lie within its thousand.
circuit_rows-From :
    (ckt : ℕ) (rest : List ObjMeta)
    → From ((ckt + 1) * 1000 + 6) rest
    → From ((ckt + 1) * 1000) (circuit_rows ckt circuit_offsets ++ rest)
unfolding circuit_rows circuit_offsets
circuit_rows-From ckt rest f = (
  omega arith,
  (omega arith, (omega arith, (omega arith, (omega arith, From-mono _ _ rest (omega arith) f)))),
)

circuits_from-From : (n ckt : ℕ) → From ((ckt + 1) * 1000) (circuits_from ckt n)
unfolding circuits_from
circuits_from-From zero ckt = tt
circuits_from-From (suc n) ckt = circuit_rows-From ckt (circuits_from (ckt + 1) n) (
    From-mono ((ckt + 1 + 1) * 1000) ((ckt + 1) * 1000 + 6) (circuits_from (ckt + 1) n)
      (omega arith) (circuits_from-From n (ckt + 1)))

-- Whether the instances of a list ascend from the first bound to before the second.
abbrev ascends : ℕ → List ObjMeta → ℕ → Bool
ascends lo [] hi = ltb lo (suc hi)
ascends lo (x ∷ xs) hi = ltb lo (suc x.inst) && ascends (suc x.inst) xs hi

ascends-From :
    (lo : ℕ) (xs : List ObjMeta) (hi : ℕ) (rest : List ObjMeta)
    → ascends lo xs hi ≡ true
    → From hi rest
    → From lo (xs ++ rest)
ascends-From lo [] hi rest e f = From-mono hi lo rest (ground (arith, e)) f
ascends-From lo (x ∷ xs) hi rest e f =
    (ground (arith, e), ascends-From (suc x.inst) xs hi rest (ground (arith, e)) f)

panel_objects-From : (rest : List ObjMeta) → From 1025 rest → From 1001 (panel_objects ++ rest)
unfolding panel_objects
panel_objects-From rest f = ascends-From 1001 panel_objects 1025 rest refl f

panel_alone : From 1001 panel_objects
unfolding panel_objects
panel_alone = panel_objects-From [] tt

objects_for-From : (circuits : ℕ) (b : Bool) → From 1001 (objects_for circuits b)
unfolding objects_for circuit_objects
objects_for-From circuits b = elim (Bool-cases (b && ltb 0 circuits)) [
  | inl t ↦
      rw (objects_for, t)
        (panel_objects-From (circuit_objects circuits) (
          From-mono 2000 1025 (circuit_objects circuits) (omega arith)
            (circuits_from-From circuits 1)))
  | inr n ↦ rw (objects_for, n) panel_alone
]

-- metaIndex finds every object of objectsFor under its type and its instance, for any number of
-- circuits: no two objects of a meter share a key.
pub meta_index-objects_for :
    (circuits : ℕ) (read_circuits : Bool) (o : ObjMeta)
    → Among o (objects_for circuits read_circuits)
    → meta_index (objects_for circuits read_circuits) o.obj_type o.inst ≡ some o
unfolding meta_index
meta_index-objects_for circuits read_circuits o a =
    meta_at-Among o (objects_for circuits read_circuits) 1001 none
      (objects_for-From circuits read_circuits) a
