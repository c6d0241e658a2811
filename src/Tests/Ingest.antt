-- ===== src/Tests/Ingest.antt =====
-- The theorems on the cache and on roles at concrete inputs (fwDCS/internal/ingest/cache.go,
-- fwDCS/internal/store/classifier.go).
use dcim_data_reader.Prelude.{◌≡◌, refl, arith, List, [], ◌∷◌, some, true, false}
use dcim_data_reader.Ingest.Cache.{Lru, new_lru_with_ttl, find}
use dcim_data_reader.Ingest.Cache.Laws.{
  Operation, get_at, put_at, invalidate_key, flush_all, apply_all, IsLru, apply_all-IsLru,
}
use dcim_data_reader.Ingest.Classifier.{
  core, spine, leaf, distribution, access, RoleRules, Neighbors, all_scores, host_role,
  classify_switch, judge, preferred, best_role, better,
}
use dcim_data_reader.Ingest.Classifier.Laws.{IsChosen, classify_switch-IsChosen}

abbrev some_operations : List Operation
some_operations =
    put_at 1 "r1" "a"
    ∷ put_at 2 "r2" "b"
    ∷ get_at 3 "r1"
    ∷ put_at 4 "r3" "c"
    ∷ invalidate_key "r1"
    ∷ flush_all
    ∷ []

apply_all-IsLru_example : IsLru (apply_all some_operations (new_lru_with_ttl 2 60))
apply_all-IsLru_example = apply_all-IsLru some_operations 2 60

abbrev small_cache : Lru
small_cache = record {
  cap = 2;
  ttl = 60;
  entries = record { key = "r1"; val = "a"; expires_at = 61 } ∷ [];
}

small_cache-IsLru : IsLru small_cache
unfolding find
small_cache-IsLru = record { positive = omega arith; distinct = (refl, tt); bounded = omega arith }

-- Every pattern of spine matches, and nothing else.
abbrev some_rules : RoleRules
some_rules = record {
  host_matches = λ role host. elim role [
    | core ↦ false
    | spine ↦ true
    | leaf ↦ false
    | distribution ↦ false
    | access ↦ false
  ];
  model_matches = λ role text. false;
  w_host = 3;
  w_model = 2;
  w_neighbor = 3;
  inferred_num = 6;
  inferred_den = 10;
  suggested_num = 4;
  suggested_den = 10;
}

abbrev no_neighbors : Neighbors
no_neighbors = record {
  switches = 0;
  servers = 0;
  workstations = 0;
  access_points = 0;
  routers = 0;
  firewalls = 0;
  load_balancers = 0;
  total = 0;
}

spine_chosen : (classify_switch some_rules "dc1-sp1" "" no_neighbors).0 ≡ some spine
unfolding classify_switch judge preferred best_role better all_scores host_role
spine_chosen = refl

classify_switch-IsChosen_example :
    IsChosen some_rules
      (all_scores some_rules "dc1-sp1" "" no_neighbors)
      (host_role some_rules "dc1-sp1")
      spine
classify_switch-IsChosen_example =
    classify_switch-IsChosen some_rules "dc1-sp1" "" no_neighbors spine spine_chosen
