-- ===== src/Ingest/Classifier.antt =====
-- The roles of fabric switches: classifySwitch of fwDCS/internal/store/classifier.go. The shares of
-- neighbors and of scores are compared as whole numbers; the float64 comparisons of the source agree
-- with these on the counts of a device. A threshold is a fraction.
pub mod Laws
use dcim_data_reader.Prelude.{
  ℕ, ◌+◌, ◌*◌, ◌≤◌, ◌<◌, ◌≡◌, Bool, true, false, not, ◌&&◌, Option, none, some, List, [], ◌∷◌, ◌++◌,
  String, str_eq, str_append, ltb, leb, ◌==◌, if◌then◌else◌, arith, Bool-cases, inl, inr, ◌⊎◌, refl,
  subst, ==_iff,
}

-- The roles in the order of roleOrder.
pub data Role : Type 0 where
  core spine leaf distribution access : Role

-- The scores of the roles.
pub record Scores : Type 0 where
  pub of_core : ℕ
  pub of_spine : ℕ
  pub of_leaf : ℕ
  pub of_distribution : ℕ
  pub of_access : ℕ

abbrev pub score : Scores → Role → ℕ
score s core = s.of_core
score s spine = s.of_spine
score s leaf = s.of_leaf
score s distribution = s.of_distribution
score s access = s.of_access

-- roleRules: whether a pattern of the role matches a host name, whether a text of the model map is
-- found in the model and the description, the weights, and the thresholds.
pub record RoleRules : Type 0 where
  pub host_matches : Role → String → Bool
  pub model_matches : Role → String → Bool
  pub w_host : ℕ
  pub w_model : ℕ
  pub w_neighbor : ℕ
  pub inferred_num : ℕ
  pub inferred_den : ℕ
  pub suggested_num : ℕ
  pub suggested_den : ℕ

-- The neighbors of a switch: how many of each type, and in all.
pub record Neighbors : Type 0 where
  pub switches : ℕ
  pub servers : ℕ
  pub workstations : ℕ
  pub access_points : ℕ
  pub routers : ℕ
  pub firewalls : ℕ
  pub load_balancers : ℕ
  pub total : ℕ

-- `inferred`, `suggested` and `unclassified`.
pub data Source : Type 0 where
  inferred suggested unclassified : Source

abbrev weight_if : Bool → ℕ → ℕ
weight_if b w = if b then w else 0

-- Signal 3.
lldp_scores : RoleRules → Neighbors → Scores
lldp_scores r n =
    let some_there = ltb 0 n.total in
    record {
      of_core =
          weight_if
            (some_there && leb 1 (n.routers + n.firewalls + n.load_balancers) && leb 1 n.switches)
            2;
      of_spine =
          weight_if (some_there && ltb (85 * n.total) (100 * n.switches)) r.w_neighbor
          + weight_if (some_there && leb 16 n.total && ltb (7 * n.total) (10 * n.switches)) 2;
      of_leaf =
          weight_if (some_there && ltb n.total (2 * n.servers)) r.w_neighbor
          + weight_if (some_there && leb 2 n.switches && leb 4 n.servers) 2;
      of_distribution = 0;
      of_access =
          weight_if (some_there && ltb n.total (2 * (n.workstations + n.access_points)))
            r.w_neighbor
          + weight_if (some_there && leb n.total 4) 2;
    }

-- Signals 1 and 2, for a role.
named_score : RoleRules → String → String → Role → ℕ
named_score r host text role =
    weight_if (r.host_matches role host) r.w_host + weight_if (r.model_matches role text) r.w_model

unfoldable pub all_scores : RoleRules → String → String → Neighbors → Scores
unfolding lldp_scores named_score
all_scores r host text n =
    let l = lldp_scores r n in
    record {
      of_core = named_score r host text core + l.of_core;
      of_spine = named_score r host text spine + l.of_spine;
      of_leaf = named_score r host text leaf + l.of_leaf;
      of_distribution = named_score r host text distribution + l.of_distribution;
      of_access = named_score r host text access + l.of_access;
    }

abbrev pub sum_of : Scores → ℕ
sum_of s = s.of_core + s.of_spine + s.of_leaf + s.of_distribution + s.of_access

-- The first role of roleOrder with the best score.
unfoldable pub better : Scores → Role → Role → Role
better s best role = if ltb (score s best) (score s role) then role else best

unfoldable pub best_role : Scores → Role
unfolding better
best_role s = better s (better s (better s (better s core spine) leaf) distribution) access

-- `hostRole`
unfoldable pub host_role : RoleRules → String → Option Role
host_role r host =
    if r.host_matches core host
    then some core
    else if r.host_matches spine host
    then some spine
    else if r.host_matches leaf host
    then some leaf
    else if r.host_matches distribution host
    then some distribution
    else if r.host_matches access host
    then some access
    else none

-- On a tie, the role of the host name.
unfoldable pub preferred : Scores → Option Role → Role
unfolding best_role
preferred s none = best_role s
preferred s (some role) = if score s role == score s (best_role s) then role else best_role s

-- The role and its source, by the scores and the role of the host name.
unfoldable pub judge : RoleRules → Scores → Option Role → Option Role × Source
unfolding preferred
judge r s host =
    let role = preferred s host in
    if sum_of s == 0
    then (none, unclassified)
    else if leb (r.inferred_num * sum_of s) (r.inferred_den * score s (best_role s))
    then (some role, inferred)
    else if leb (r.suggested_num * sum_of s) (r.suggested_den * score s (best_role s))
    then (some role, suggested)
    else (none, unclassified)

-- classifySwitch at the host name and the model and description in lower case: the role, if the
-- switch is classified, and the source.
unfoldable pub classify_switch : RoleRules → String → String → Neighbors → Option Role × Source
unfolding all_scores judge host_role
classify_switch r host text n = judge r (all_scores r host text n) (host_role r host)

abbrev named : List String → String → Bool
named [] text = false
named (t ∷ ts) text = let later = named ts text in if str_eq t text then true else later

-- typeToRole: the role of a device type, and whether it is a fabric switch.
unfoldable pub type_to_role : String → String × Bool
type_to_role dt =
    if str_eq dt "switch"
    then ("", true)
    else if str_eq dt "router"
    then ("edge_router", false)
    else if named
        ("firewall" ∷ "load_balancer" ∷ "server" ∷ "oob_switch" ∷ "ups" ∷ "pdu" ∷ "floor_pdu"
          ∷ "sensor" ∷ "energy_monitor" ∷ "crah" ∷ "chiller" ∷ "pump" ∷ "cooling_tower" ∷ "valve"
          ∷ [])
        dt
    then (dt, false)
    else ("unclassified", false)
