-- ===== src/Ingest/Classifier/Laws.antt =====
-- Why classifySwitch gives a switch its role (fwDCS/internal/store/classifier.go).
use dcim_data_reader.Prelude.{
  ◌*◌, ◌≤◌, ◌<◌, ◌≡◌, Option, none, some, List, [], ◌∷◌, All, String, ltb, ◌==◌, arith, Bool-cases,
  inl, inr, ◌⊎◌, refl, subst, ==_iff,
}
use dcim_data_reader.Ingest.Classifier.{
  Role, core, spine, leaf, distribution, access, Scores, score, sum_of, RoleRules, Neighbors,
  all_scores, better, best_role, host_role, preferred, judge, classify_switch,
}

better-le :
    (s : Scores) (best role : Role)
    → (score s best ≤ score s (better s best role)) × (score s role ≤ score s (better s best role))
unfolding better
better-le s best role = elim (Bool-cases (ltb (score s best) (score s role))) [
  | inl t ↦ rw t (ground arith, ground arith)
  | inr f ↦ rw f (ground arith, ground arith)
]

-- The best score is no less than that of any role.
best_role-score : (s : Scores) (role : Role) → score s role ≤ score s (best_role s)
unfolding best_role
best_role-score s role =
    let a = better s core spine in
    let b = better s a leaf in
    let c = better s b distribution in
    let (a0, a1) = better-le s core spine in
    let (b0, b1) = better-le s a leaf in
    let (c0, c1) = better-le s b distribution in
    let (d0, d1) = better-le s c access in
    elim role as (λ k. score s k ≤ score s (best_role s)) [
      | core ↦ omega (arith, a0, b0, c0, d0)
      | spine ↦ omega (arith, a1, b0, c0, d0)
      | leaf ↦ omega (arith, b1, c0, d0)
      | distribution ↦ omega (arith, c1, d0)
      | access ↦ omega (arith, d1)
    ]

-- The roles that come before a role in roleOrder.
abbrev pub before : Role → List Role
before core = []
before spine = core ∷ []
before leaf = core ∷ spine ∷ []
before distribution = core ∷ spine ∷ leaf ∷ []
before access = core ∷ spine ∷ leaf ∷ distribution ∷ []

-- Every role before the role has a lower score.
abbrev pub IsFirst : Scores → Role → Type 0
IsFirst s role = All (λ earlier. score s earlier < score s role) (before role)

-- The role of the host name, if there is one, has a lower score.
abbrev pub IsOutscored : Scores → Role → Option Role → Type 0
IsOutscored s role none = Unit
IsOutscored s role (some by_name) = score s by_name < score s role

best_role-IsFirst : (s : Scores) → IsFirst s (best_role s)
unfolding best_role better
best_role-IsFirst s = ground arith

preferred-best_role :
    (s : Scores) (host : Option Role)
    → (score s (preferred s host) ≡ score s (best_role s))
      × ((host ≡ some (preferred s host))
          ⊎ (IsFirst s (preferred s host) × IsOutscored s (preferred s host) host))
unfolding preferred
preferred-best_role s none = (refl, inr (best_role-IsFirst s, tt))
preferred-best_role s (some role) = elim (Bool-cases (score s role == score s (best_role s))) [
  | inl tie ↦ rw tie ((==_iff (score s role) (score s (best_role s))).0 tie, inl refl)
  | inr apart ↦ rw apart (refl, inr (best_role-IsFirst s, ground (arith, best_role-score s role)))
]

-- What a role is chosen for.
pub record IsChosen (r : RoleRules) (s : Scores) (host : Option Role) (role : Role) : Type 0 where
  pub best : (other : Role) → score s other ≤ score s role
  pub by_name_or_order : (host ≡ some role) ⊎ (IsFirst s role × IsOutscored s role host)
  pub scored : 0 < sum_of s
  pub confident :
      (r.inferred_num * sum_of s ≤ r.inferred_den * score s role)
      ⊎ (r.suggested_num * sum_of s ≤ r.suggested_den * score s role)

judge_cases :
    (r : RoleRules) (s : Scores) (host : Option Role) (role : Role)
    → (judge r s host).0 ≡ some role
    → (preferred s host ≡ role)
      × (0 < sum_of s)
      × ((r.inferred_num * sum_of s ≤ r.inferred_den * score s (best_role s))
          ⊎ (r.suggested_num * sum_of s ≤ r.suggested_den * score s (best_role s)))
unfolding judge
judge_cases r s host role h = ground arith

-- A role that classifySwitch gives to a switch has a score no less than that of any other role;
-- it is the role of the host name, or every role before it in roleOrder and the role of the
-- host name, if there is one, have lower scores; and its share of all the scores, which are not
-- all 0, reaches the threshold of inferred or that of suggested roles.
pub classify_switch-IsChosen :
    (r : RoleRules) (host text : String) (n : Neighbors) (role : Role)
    → (classify_switch r host text n).0 ≡ some role
    → IsChosen r (all_scores r host text n) (host_role r host) role
unfolding classify_switch
classify_switch-IsChosen r host text n role h =
    let s = all_scores r host text n in
    let (chosen, scored, confident) = judge_cases r s (host_role r host) role h in
    let (same, reason) = preferred-best_role s (host_role r host) in
    subst (IsChosen r s (host_role r host)) chosen (record {
      best = λ other. rw same (best_role-score s other);
      by_name_or_order = reason;
      scored = scored;
      confident = rw same confident;
    })
