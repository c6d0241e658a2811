-- ===== src/Poller/Poll/BestEffort.antt =====
-- The heavy breaker and the tiers whose walks are best effort
-- (fwEDR/internal/poller/poller.go, fwEDR/internal/snmp/metrics.go).
use text.Mathlib.TextPositions.{eq_refl}
use dcim_data_reader.Prelude.{
  ℕ, ◌≡◌, refl, sym, subst, Bool, true, false, some, List, String, arith,
}
use dcim_data_reader.Prelude.Dict.{lookup, lookup-insert}
use dcim_data_reader.Target.{Target}
use dcim_data_reader.Poller.Breaker.{CircuitBreaker, record_success}
use dcim_data_reader.Poller.Collect.{
  Tier, is_fast, collect, answers, Walk, Device, fast, medium, slow, topology, environment,
  server_health,
}
use dcim_data_reader.Poller.Poll.Accounting.{reaches}
use dcim_data_reader.Poller.Poll.{
  Poller, Meets, with_breaker, breaker_key, admit, connect, with_session, finish, finish_collected,
  run_poll, poll_snmp, has_session,
}

-- The tiers of which Collect passes no error on.
abbrev pub is_best_effort : Tier → Bool
is_best_effort fast = false
is_best_effort medium = false
is_best_effort slow = false
is_best_effort topology = true
is_best_effort environment = true
is_best_effort server_health = true

best_effort-heavy : (tier : Tier) → is_best_effort tier ≡ true → is_fast tier ≡ false
best_effort-heavy fast h = cc
best_effort-heavy medium h = refl
best_effort-heavy slow h = refl
best_effort-heavy topology h = refl
best_effort-heavy environment h = refl
best_effort-heavy server_health h = refl

collect-best_effort :
    (Packet : Type 0) (tier : Tier) (device_type : String) (d : Device Packet)
    → is_best_effort tier ≡ true
    → (pkts : List Packet) × (collect Packet tier device_type d ≡ answers pkts)
unfolding collect
collect-best_effort Packet fast device_type d h = cc
collect-best_effort Packet medium device_type d h = cc
collect-best_effort Packet slow device_type d h = cc
collect-best_effort Packet topology device_type d h = (_, refl)
collect-best_effort Packet environment device_type d h = (_, refl)
collect-best_effort Packet server_health device_type d h = (_, refl)

module _ (Packet : Type 0) (fnv : String → ℕ) (m : Meets Packet fnv) (t : Target)
    (tier : Tier) where
  connect-opens :
      (p : Poller Packet fnv) → m.connected ≡ true → (connect Packet fnv m t tier p).0 ≡ true
  unfolding connect
  connect-opens p h = ground arith

  -- The breaker of the target's heavy walks is closed, and has no failures counted.
  abbrev pub HeavyClosed : Poller Packet fnv → Type 0
  HeavyClosed p =
      (b : CircuitBreaker) × (lookup (breaker_key t) p.heavy_breakers ≡ some b)
      × (b.fails ≡ 0)
      × (b.open_until ≡ 0)

  with_breaker-lookup :
      (key : String) (b : CircuitBreaker) (p : Poller Packet fnv)
      → is_fast tier ≡ false
      → lookup key (with_breaker Packet fnv tier key b p).heavy_breakers ≡ some b
  unfolding with_breaker
  with_breaker-lookup key b p heavy =
      rw heavy (rw (lookup-insert key key b p.heavy_breakers, eq_refl key) refl)

  finish_collected-closes :
      (pkts : List Packet) (p : Poller Packet fnv)
      → is_fast tier ≡ false
      → HeavyClosed (finish_collected Packet fnv pkts m t tier p).1
  unfolding finish_collected record_success
  finish_collected-closes pkts p heavy =
      (_, with_breaker-lookup (breaker_key t) _ _ heavy, refl, refl)

  run_poll-finish :
      (p : Poller Packet fnv)
      → let pooled = with_session Packet fnv (has_session Packet fnv t p) t p in
        m.heavy_slot ≡ true
        → m.socket ≡ true
        → (connect Packet fnv m t tier pooled).0 ≡ true
        → run_poll Packet fnv m t tier p
          ≡ finish Packet fnv
              (collect Packet tier t.device_type m.device)
              m
              t
              tier
              (connect Packet fnv m t tier pooled).1
  unfolding run_poll
  run_poll-finish p slot socket open_session = ground arith

  finish-closes :
      (pkts : List Packet) (w : Walk Packet) (p : Poller Packet fnv)
      → w ≡ answers pkts
      → is_fast tier ≡ false
      → HeavyClosed (finish Packet fnv w m t tier p).1
  unfolding finish
  finish-closes pkts w p e heavy = rw e (finish_collected-closes pkts p heavy)

  run_poll-closes :
      (p : Poller Packet fnv)
      → is_best_effort tier ≡ true
      → m.heavy_slot ≡ true
      → m.socket ≡ true
      → m.connected ≡ true
      → HeavyClosed (run_poll Packet fnv m t tier p).1
  run_poll-closes p best slot socket connected =
      let (pkts, e) = collect-best_effort Packet tier t.device_type m.device best in
      let pooled = with_session Packet fnv (has_session Packet fnv t p) t p in
      let ready = (connect Packet fnv m t tier pooled).1 in
      subst (λ r. HeavyClosed r.1)
        (sym (run_poll-finish p slot socket (connect-opens pooled connected)))
        (finish-closes pkts _ ready e (best_effort-heavy tier best))

  -- A poll of the topology, environment or server-health tier that passes the gate, the pause,
  -- the breaker and the limiter, gets its places and has a session or connects, leaves the
  -- breaker of the heavy walks of its target closed with no failures counted, even if the
  -- device answers none of its walks.
  pub poll_snmp-closes :
      (p : Poller Packet fnv)
      → is_best_effort tier ≡ true
      → reaches Packet fnv m t tier p ≡ true
      → m.connected ≡ true
      → HeavyClosed (poll_snmp Packet fnv m t tier p).1
  unfolding poll_snmp reaches
  poll_snmp-closes p best reached connected =
      let heavy = best_effort-heavy tier best in
      let admitted : (admit Packet fnv m t tier p).0 ≡ true = ground arith in
      let slot : m.heavy_slot ≡ true = ground arith in
      let socket : m.socket ≡ true = ground arith in
      rw (poll_snmp, admitted)
        (run_poll-closes (admit Packet fnv m t tier p).1 best slot socket connected)
