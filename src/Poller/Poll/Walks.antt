-- ===== src/Poller/Poll/Walks.antt =====
-- The walks of a target (fwEDR/internal/poller/poller.go): walkAll, the delays of runTarget and
-- startGNMIAfterDiscovery, and the targets that Run and AddTarget start.
use dcim_data_reader.Prelude.{
  ℕ, ◌+◌, ◌*◌, ◌≤◌, ◌≡◌, ◌∙◌, refl, sym, subst, max, Bool, true, false, ◌&&◌, List, [], ◌∷◌, String,
  ltb, str_eq, if◌then◌else◌, length, arith, Bool-cases, inl, inr,
}
use dcim_data_reader.Target.{Target, source_id, set_hostname}
use dcim_data_reader.Poller.Health.{HealthMonitor, new_health_monitor, total_add}
use dcim_data_reader.Poller.Collect.{
  Tier, is_fast, fast, medium, slow, topology, environment, server_health,
}
use dcim_data_reader.Poller.Poll.{Poller, Meets, poll_snmp}
use dcim_data_reader.Poller.Poll.Isolation.{poll_snmp-live}

-- The initial delay of runTarget is below this, in milliseconds.
unfoldable pub initial_spread : ℕ → ℕ → ℕ
initial_spread targets fast_interval_ms =
    let spread : ℕ = targets * 50 in
    let capped : ℕ =
      if ltb 0 fast_interval_ms && ltb fast_interval_ms spread then fast_interval_ms else spread in
    if ltb capped 500 then 500 else capped

-- `maxWait` of startGNMIAfterDiscovery, in seconds.
unfoldable pub gnmi_wait : ℕ → ℕ
gnmi_wait targets =
    let wait : ℕ = targets * 8 in
    let long : ℕ = if ltb wait 60 then 60 else wait in if ltb 900 long then 900 else long

pub initial_spread-gnmi_wait :
    (targets fast_interval_ms : ℕ)
    → (500 ≤ initial_spread targets fast_interval_ms)
      × (initial_spread targets fast_interval_ms ≤ max 500 (targets * 50))
      × (500 ≤ fast_interval_ms → initial_spread targets fast_interval_ms ≤ fast_interval_ms)
      × (60 ≤ gnmi_wait targets)
      × (gnmi_wait targets ≤ 900)
unfolding initial_spread gnmi_wait
initial_spread-gnmi_wait targets ms = ground arith

module _ (Packet : Type 0) (fnv : String → ℕ) where
  optional_poll :
      Bool → (Tier → Meets Packet fnv) → Target → Tier → Poller Packet fnv → Poller Packet fnv
  optional_poll enabled m t tier p =
      if enabled then (poll_snmp Packet fnv (m tier) t tier p).1 else p

  -- walkAll, by what the poll of each tier meets. `sys_name` is the name that the FAST poll adopts.
  unfoldable pub walk_all :
      (Tier → Meets Packet fnv)
      → String
      → Target
      → Poller Packet fnv
      → Bool × Target × Poller Packet fnv
  unfolding optional_poll
  walk_all m sys_name t p =
      let (alive, p1) = poll_snmp Packet fnv (m fast) t fast p in
      let t' = set_hostname sys_name t in
      let p2 = optional_poll p.cfg.walk_medium m t' medium p1 in
      let p3 = optional_poll p.cfg.walk_topology m t' topology p2 in
      let p4 = optional_poll p.cfg.walk_slow m t' slow p3 in
      let p5 = optional_poll p.cfg.walk_sensors m t' environment p4 in
      (alive, t', optional_poll p.cfg.walk_server_health m t' server_health p5)

  optional_poll-live :
      (enabled : Bool) (m : Tier → Meets Packet fnv) (t : Target) (tier : Tier)
      (p : Poller Packet fnv)
      → is_fast tier ≡ false
      → (optional_poll enabled m t tier p).live_breakers ≡ p.live_breakers
  unfolding optional_poll
  optional_poll-live enabled m t tier p heavy =
      ground (arith, poll_snmp-live Packet fnv (m tier) t tier heavy p)

  -- walkAll returns what its FAST poll alone returns, and leaves the breakers of the FAST
  -- heartbeat as that poll alone does, whatever tiers are enabled and however their polls go.
  pub walk_all-poll_snmp :
      (m : Tier → Meets Packet fnv) (sys_name : String) (t : Target) (p : Poller Packet fnv)
      → ((walk_all m sys_name t p).0 ≡ (poll_snmp Packet fnv (m fast) t fast p).0)
        × ((walk_all m sys_name t p).2.live_breakers
            ≡ (poll_snmp Packet fnv (m fast) t fast p).1.live_breakers)
  unfolding walk_all
  walk_all-poll_snmp m sys_name t p = (
    refl,
    optional_poll-live p.cfg.walk_server_health m _ server_health _ refl
        ∙ optional_poll-live p.cfg.walk_sensors m _ environment _ refl
        ∙ optional_poll-live p.cfg.walk_slow m _ slow _ refl
        ∙ optional_poll-live p.cfg.walk_topology m _ topology _ refl
        ∙ optional_poll-live p.cfg.walk_medium m _ medium _ refl,
  )

-- The targets whose goroutines run, by their SourceID, and the monitor that counts them.
-- `root` says that Run has been called.
pub record Targets : Type 0 where
  pub running : List String
  pub root : Bool
  pub health : HealthMonitor

abbrev pub listed : String → List String → Bool
listed key [] = false
listed key (k ∷ ks) = let later = listed key ks in if str_eq k key then true else later

-- `p.running[key] = cancel`
abbrev pub run_key : String → List String → List String
run_key key ks = if listed key ks then ks else key ∷ ks

run_keys : List Target → List String → List String
run_keys [] ks = ks
run_keys (t ∷ ts) ks = run_keys ts (run_key (source_id t) ks)

-- New and then the loop of Run over the targets.
unfoldable pub run_targets : List Target → Targets
unfolding run_keys
run_targets ts = record {
  running = run_keys ts [];
  root = true;
  health = new_health_monitor (length ts);
}

unfoldable pub add_target : Target → Targets → Bool × Targets
add_target t s =
    if listed (source_id t) s.running
    then (false, s)
    else if s.root
    then (true, record s { running = source_id t ∷ s.running; health = total_add 1 s.health })
    else (false, s)

-- The targets have SourceIDs that differ from each other, and from the keys.
abbrev pub AreNew : List Target → List String → Type 0
AreNew [] ks = Unit
AreNew (t ∷ ts) ks = (listed (source_id t) ks ≡ false) × AreNew ts (source_id t ∷ ks)

abbrev pub AreDistinct : List String → Type 0
AreDistinct [] = Unit
AreDistinct (k ∷ ks) = (listed k ks ≡ false) × AreDistinct ks

-- Every running target has a key of its own, and the monitor counts them.
pub record IsCounted (s : Targets) : Type 0 where
  pub distinct : AreDistinct s.running
  pub total_of_running : s.health.total ≡ length s.running

-- AddTarget of each target in turn.
pub add_targets : List Target → Targets → Targets
add_targets [] s = s
add_targets (t ∷ ts) s = add_targets ts (add_target t s).1

run_keys_lem :
    (ts : List Target) (ks : List String)
    → AreNew ts ks
    → AreDistinct ks
    → AreDistinct (run_keys ts ks) × (length (run_keys ts ks) ≡ length ts + length ks)
unfolding run_keys
run_keys_lem [] ks h d = (d, omega arith)
run_keys_lem (t ∷ ts) ks h d =
    let (distinct, counted) = run_keys_lem ts (source_id t ∷ ks) h.1 (h.0, d) in
    rw h.0 (distinct, omega (arith, counted))

add_target-IsCounted : (t : Target) (s : Targets) → IsCounted s → IsCounted (add_target t s).1
unfolding add_target total_add
add_target-IsCounted t s h = elim (Bool-cases (listed (source_id t) s.running)) [
  | inl l ↦ let same : (add_target t s).1 ≡ s = ground arith in subst IsCounted (sym same) h
  | inr n ↦ elim (Bool-cases s.root) [
    | inr r ↦ let same : (add_target t s).1 ≡ s = ground arith in subst IsCounted (sym same) h
    | inl r ↦
        let more : Targets = record s {
          running = source_id t ∷ s.running;
          health = total_add 1 s.health;
        } in
        let added : (add_target t s).1 ≡ more = ground arith in
        let one_more : IsCounted more = record {
          distinct = (n, h.distinct);
          total_of_running = omega (arith, h.total_of_running);
        } in
        subst IsCounted (sym added) one_more
  ]
]

add_targets_lem :
    (added : List Target) (s : Targets) → IsCounted s → IsCounted (add_targets added s)
unfolding add_targets
add_targets_lem [] s h = h
add_targets_lem (t ∷ ts) s h = add_targets_lem ts (add_target t s).1 (add_target-IsCounted t s h)

-- If the targets that Run starts have distinct SourceIDs, then after any calls of AddTarget
-- every running target has a SourceID of its own, and the health monitor counts as many targets
-- as are running.
pub add_targets-run_targets :
    (ts added : List Target) → AreNew ts [] → IsCounted (add_targets added (run_targets ts))
unfolding run_targets new_health_monitor
add_targets-run_targets ts added h =
    let (distinct, counted) = run_keys_lem ts [] h tt in
    add_targets_lem added (run_targets ts)
      (record { distinct = distinct; total_of_running = omega (arith, counted) })
