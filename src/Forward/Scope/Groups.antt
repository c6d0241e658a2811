-- ===== src/Forward/Scope/Groups.antt =====
-- The map of groups of buildPayloads (fwDCS/internal/forwarder/forwarder.go).
use dcim_data_reader.Prelude.{
  ◌≡◌, refl, sym, ap, subst, Bool, true, false, ◌||◌, [], ◌∷◌, String, eq_iff, if◌then◌else◌, arith,
  inl, inr, Bool-cases, Among, map,
}
use dcim_data_reader.Forward.Payload.{AggPayload}
use dcim_data_reader.Forward.Scope.{
  AggregatorConfig, ScopeKey, same_scope, Groups, empty_payload, in_group, if_group,
}

pub same_scope-eq : (a b : ScopeKey) → same_scope a b ≡ true → a ≡ b
unfolding same_scope
same_scope-eq a b e =
    let dc : a.dc ≡ b.dc = ground (arith, eq_iff a.dc b.dc) in
    let floor : a.floor ≡ b.floor = ground (arith, eq_iff a.floor b.floor) in
    λ i. record { dc = dc i; floor = floor i }

pub same_scope_refl : (a : ScopeKey) → same_scope a a ≡ true
unfolding same_scope
same_scope_refl a = ground (arith, eq_iff a.dc a.dc, eq_iff a.floor a.floor)

pub same_scope-sym : (a b : ScopeKey) → same_scope a b ≡ same_scope b a
unfolding same_scope
same_scope-sym a b =
    ground
      (arith, eq_iff a.dc b.dc, eq_iff b.dc a.dc, eq_iff a.floor b.floor, eq_iff b.floor a.floor)

module _ (V : Type 0) (cfg : AggregatorConfig) (net_id : String) where
  -- `groups[k]`, where nil is a payload without rows.
  unfoldable pub group_at : ScopeKey → Groups V cfg net_id → AggPayload V
  unfolding empty_payload
  group_at k [] = empty_payload V cfg net_id k
  group_at k (g ∷ gs) = let later = group_at k gs in if same_scope g.0 k then g.1 else later

  unfoldable pub has_group : ScopeKey → Groups V cfg net_id → Bool
  has_group k [] = false
  has_group k (g ∷ gs) = same_scope g.0 k || has_group k gs

  not_both :
      (a k j : ScopeKey) → same_scope a j ≡ true → same_scope a k ≡ false → same_scope k j ≡ false
  unfolding same_scope
  not_both a k j here e = ground (
    arith,
    eq_iff a.dc j.dc,
    eq_iff a.dc k.dc,
    eq_iff k.dc j.dc,
    eq_iff a.floor j.floor,
    eq_iff a.floor k.floor,
    eq_iff k.floor j.floor,
  )

  pub in_group-group_at :
      (k j : ScopeKey) (change : AggPayload V → AggPayload V) (gs : Groups V cfg net_id)
      → group_at j (in_group V cfg net_id k change gs)
        ≡ (if same_scope k j then change (group_at j gs) else group_at j gs)
  unfolding group_at in_group
  in_group-group_at k j change [] = elim (Bool-cases (same_scope k j)) [
    | inl e ↦ rw e (ap (λ x. change (empty_payload V cfg net_id x)) (same_scope-eq k j e))
    | inr e ↦ rw e refl
  ]
  in_group-group_at k j change (g ∷ gs) = elim (Bool-cases (same_scope g.0 k)) [
    | inl e ↦
        let at : same_scope g.0 j ≡ same_scope k j =
          ap (λ x. same_scope x j) (same_scope-eq g.0 k e) in
        rw (e, at) (ground arith)
    | inr e ↦ elim (Bool-cases (same_scope g.0 j)) [
      | inl here ↦
          let apart : same_scope k j ≡ false = not_both g.0 k j here e in rw (e, here, apart) refl
      | inr later ↦ rw (e, later) (in_group-group_at k j change gs)
    ]
  ]

  pub if_group-group_at :
      (k j : ScopeKey) (change : AggPayload V → AggPayload V) (gs : Groups V cfg net_id)
      → has_group k gs ≡ true
      → group_at j (if_group V cfg net_id k change gs)
        ≡ (if same_scope k j then change (group_at j gs) else group_at j gs)
  unfolding group_at if_group has_group
  if_group-group_at k j change [] h = ground arith
  if_group-group_at k j change (g ∷ gs) h = elim (Bool-cases (same_scope g.0 k)) [
    | inl e ↦
        let at : same_scope g.0 j ≡ same_scope k j =
          ap (λ x. same_scope x j) (same_scope-eq g.0 k e) in
        rw (e, at) (ground arith)
    | inr e ↦
        let there : has_group k gs ≡ true = ground (arith, h, e) in
        elim (Bool-cases (same_scope g.0 j)) [
          | inl here ↦
              let apart : same_scope k j ≡ false = not_both g.0 k j here e in
              rw (e, here, apart) refl
          | inr later ↦ rw (e, later) (if_group-group_at k j change gs there)
        ]
  ]

  pub in_group-has_group :
      (k j : ScopeKey) (change : AggPayload V → AggPayload V) (gs : Groups V cfg net_id)
      → has_group j (in_group V cfg net_id k change gs) ≡ same_scope k j || has_group j gs
  unfolding in_group has_group
  in_group-has_group k j change [] = refl
  in_group-has_group k j change (g ∷ gs) = elim (Bool-cases (same_scope g.0 k)) [
    | inl e ↦
        let at : same_scope g.0 j ≡ same_scope k j =
          ap (λ x. same_scope x j) (same_scope-eq g.0 k e) in
        rw (e, at) (ground arith)
    | inr e ↦ rw (e, in_group-has_group k j change gs) (ground arith)
  ]

  pub if_group-has_group :
      (k j : ScopeKey) (change : AggPayload V → AggPayload V) (gs : Groups V cfg net_id)
      → has_group j (if_group V cfg net_id k change gs) ≡ has_group j gs
  unfolding if_group has_group
  if_group-has_group k j change [] = refl
  if_group-has_group k j change (g ∷ gs) = elim (Bool-cases (same_scope g.0 k)) [
    | inl e ↦ rw e refl
    | inr e ↦ rw (e, if_group-has_group k j change gs) refl
  ]

  group_at-later :
      (k : ScopeKey) (g : ScopeKey × AggPayload V) (gs : Groups V cfg net_id)
      → same_scope g.0 k ≡ false
      → group_at k (g ∷ gs) ≡ group_at k gs
  unfolding group_at
  group_at-later k g gs e = rw e refl

  -- A group that is there is one of the payloads.
  pub has_group-Among :
      (k : ScopeKey) (gs : Groups V cfg net_id)
      → has_group k gs ≡ true
      → Among (group_at k gs) (map (λ g. g.1) gs)
  unfolding has_group group_at
  has_group-Among k [] h = ground arith
  has_group-Among k (g ∷ gs) h = elim (Bool-cases (same_scope g.0 k)) [
    | inl e ↦ inl (rw e refl)
    | inr e ↦
        let there : has_group k gs ≡ true = ground (arith, h, e) in
        inr (
          subst (λ p. Among p (map (λ g. g.1) gs)) (sym (group_at-later k g gs e))
            (has_group-Among k gs there))
  ]

  -- No two groups have the same scope.
  unfoldable pub IsDistinct : Groups V cfg net_id → Type 0
  unfolding has_group
  IsDistinct [] = Unit
  IsDistinct (g ∷ gs) = (has_group g.0 gs ≡ false) × IsDistinct gs

  pub in_group-IsDistinct :
      (k : ScopeKey) (change : AggPayload V → AggPayload V) (gs : Groups V cfg net_id)
      → IsDistinct gs
      → IsDistinct (in_group V cfg net_id k change gs)
  unfolding in_group IsDistinct has_group
  in_group-IsDistinct k change [] h = (refl, tt)
  in_group-IsDistinct k change (g ∷ gs) (apart, h) = elim (Bool-cases (same_scope g.0 k)) [
    | inl e ↦ rw e (apart, h)
    | inr e ↦ rw e (
      rw (in_group-has_group k g.0 change gs, same_scope-sym k g.0, e) apart,
      in_group-IsDistinct k change gs h,
    )
  ]

  pub if_group-IsDistinct :
      (k : ScopeKey) (change : AggPayload V → AggPayload V) (gs : Groups V cfg net_id)
      → IsDistinct gs
      → IsDistinct (if_group V cfg net_id k change gs)
  unfolding if_group IsDistinct
  if_group-IsDistinct k change [] h = tt
  if_group-IsDistinct k change (g ∷ gs) (apart, h) = elim (Bool-cases (same_scope g.0 k)) [
    | inl e ↦ rw e (apart, h)
    | inr e ↦
        rw e (rw (if_group-has_group k g.0 change gs) apart, if_group-IsDistinct k change gs h)
  ]

  present :
      (k : ScopeKey) (g : ScopeKey × AggPayload V) (gs : Groups V cfg net_id)
      → has_group g.0 gs ≡ false
      → has_group k gs ≡ true
      → same_scope g.0 k ≡ false
  present k g gs apart there = elim (Bool-cases (same_scope g.0 k)) [
    | inl e ↦
        let same : has_group g.0 gs ≡ has_group k gs =
          ap (λ x. has_group x gs) (same_scope-eq g.0 k e) in
        absurd (ground (arith, same, apart, there))
    | inr e ↦ e
  ]

  -- A payload is that of a group.
  pub Among-group_at :
      (p : AggPayload V) (gs : Groups V cfg net_id)
      → IsDistinct gs
      → Among p (map (λ g. g.1) gs)
      → (k : ScopeKey) × ((has_group k gs ≡ true) × (p ≡ group_at k gs))
  unfolding IsDistinct has_group group_at
  Among-group_at p [] h m = absurd m
  Among-group_at p (g ∷ gs) (apart, h) (inl e) =
      let same = same_scope_refl g.0 in (g.0, (rw same refl, rw same e))
  Among-group_at p (g ∷ gs) (apart, h) (inr m) =
      let (k, (there, e)) = Among-group_at p gs h m in
      let other = present k g gs apart there in (k, (rw other there, rw other e))
