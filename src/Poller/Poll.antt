-- ===== src/Poller/Poll.antt =====
-- pollSNMP of fwEDR/internal/poller/poller.go, with getBreaker, getConn and the counters: one poll of
-- a target as a step of the poller's state. A target's session is locked for the poll.
pub mod Walks
pub mod Isolation
pub mod Accounting
pub mod BestEffort
use dcim_data_reader.Prelude.{
  ℕ, zero, suc, ◌+◌, Bool, true, false, not, ◌&&◌, ◌||◌, Option, none, some, List, [], ◌∷◌, ◌++◌,
  String, ltb, leb, ◌==◌, if◌then◌else◌, length, take, get_elem?, str_append,
}
use dcim_data_reader.Prelude.Dict.{lookup, insert}
use dcim_data_reader.Target.{Target, source_id}
use dcim_data_reader.Poller.Breaker.{
  CircuitBreaker, new_breaker, tripped, record_failure, record_success,
}
use dcim_data_reader.Poller.Health.{HealthMonitor, paused}
use dcim_data_reader.Poller.Limiter.{RateLimiter, try_wait}
use dcim_data_reader.Poller.Throttle.{LogThrottle, allow}
use dcim_data_reader.Poller.Sockets.{SocketConfig, conn_key, pick, new_conn_pool}
use dcim_data_reader.Poller.Collect.{
  Tier, tier_index, is_fast, Device, Walk, collect, answers, fails,
}
pub use dcim_data_reader.Poller.State.{PollConfig, PollMetrics, Poller, Meets}
unfoldable pub use dcim_data_reader.Poller.State.{bump, breaker_key, with_breaker, get_breaker}

set_at : ℕ → Bool → List Bool → List Bool
set_at i b [] = []
set_at zero b (x ∷ xs) = b ∷ xs
set_at (suc i) b (x ∷ xs) = x ∷ set_at i b xs

module _ (Packet : Type 0) (fnv : String → ℕ) where
  -- The gate, the global pause, the breaker and the limiter, in this order.
  unfoldable pub admit :
      Meets Packet fnv → Target → Tier → Poller Packet fnv → Bool × Poller Packet fnv
  admit m t tier p =
      let down : Bool = elim p.gate [ none ↦ false | some d ↦ d ] in
      let (is_paused, health') =
        if is_fast tier then (false, p.health) else paused m.started p.health in
      let awake : Poller Packet fnv = record p { health = health' } in
      let (is_open, b) = tripped m.started (get_breaker Packet fnv t tier awake) in
      let probed = with_breaker Packet fnv tier (breaker_key t) b awake in
      if down
      then (false, p)
      else if is_paused
      then (false, awake)
      else if is_open
      then (false, probed)
      else elim probed.limiter [
        | none ↦ (true, probed)
        | some r ↦
            if m.token
            then (true, record probed { limiter = some (try_wait r).1 })
            else (false, probed)
      ]

  count_metric : (PollMetrics → PollMetrics) → Poller Packet fnv → Poller Packet fnv
  count_metric f p = record p { metrics = f p.metrics }

  -- `if br.recordFailure() { p.metrics.breakerOpens.Add(1) }`
  unfoldable pub count_failure :
      Meets Packet fnv → Target → Tier → Poller Packet fnv → Poller Packet fnv
  unfolding count_metric
  count_failure m t tier p =
      let (opened, b) = record_failure m.ended (get_breaker Packet fnv t tier p) in
      let counted = with_breaker Packet fnv tier (breaker_key t) b p in
      if opened
      then count_metric (λ n. record n { breaker_opens = n.breaker_opens + 1 }) counted
      else counted

  -- The pool of the target's responder, which getConn makes where there is none.
  pool_of : Target → Poller Packet fnv → List Bool
  pool_of t p = elim (lookup (conn_key fnv p.cfg.sockets t) p.conns) [
    | none ↦ new_conn_pool p.sessions
    | some pool ↦ pool
  ]

  unfoldable pub has_session : Target → Poller Packet fnv → Bool
  unfolding pool_of
  has_session t p = elim (get_elem? (pool_of t p) (pick fnv t.community (length (pool_of t p)))) [
    | none ↦ false
    | some open_session ↦ open_session
  ]

  -- `tc.cl = cl`, or nil.
  unfoldable pub with_session : Bool → Target → Poller Packet fnv → Poller Packet fnv
  unfolding pool_of set_at
  with_session open_session t p =
      let pool = pool_of t p in
      record p {
        conns =
            insert (conn_key fnv p.cfg.sockets t)
              (set_at (pick fnv t.community (length pool)) open_session pool) p.conns;
      }

  unfoldable pub connect :
      Meets Packet fnv → Target → Tier → Poller Packet fnv → Bool × Poller Packet fnv
  unfolding count_metric
  connect m t tier p =
      let refused =
        count_failure m t tier
          (count_metric (λ n. record n { failures = bump (tier_index tier) n.failures }) p) in
      if has_session t p
      then (true, p)
      else if m.connected
      then (true, with_session true t p)
      else (
        false,
        record refused {
          throttle = (allow m.ended (str_append "connect|" (source_id t)) refused.throttle).1;
        },
      )

  -- The error of Collect.
  unfoldable pub finish_failed :
      Bool → Meets Packet fnv → Target → Tier → Poller Packet fnv → Poller Packet fnv
  unfolding count_metric
  finish_failed timeout m t tier p =
      let counted =
        count_metric
          (λ n.
            if timeout
            then record n { timeouts = bump (tier_index tier) n.timeouts }
            else record n { failures = bump (tier_index tier) n.failures })
          p in
      let kept = if m.deadline || not timeout then with_session false t counted else counted in
      if is_fast tier && timeout && ltb 0 p.cfg.mgmt_port && m.mgmt_answers
      then count_metric (λ n. record n { mgmt_confirmed = n.mgmt_confirmed + 1 }) kept
      else count_failure m t tier kept

  unfoldable pub finish_collected :
      List Packet → Meets Packet fnv → Target → Tier → Poller Packet fnv → Bool × Poller Packet fnv
  unfolding count_metric
  finish_collected pkts m t tier p =
      let counted =
        count_metric (λ n. record n { ok_polls = bump (tier_index tier) n.ok_polls }) p in
      let closed =
        with_breaker Packet fnv tier (breaker_key t)
          (record_success (get_breaker Packet fnv t tier counted)) counted in
      (leb (length pkts) m.taken, record closed { out = closed.out ++ take m.taken pkts })

  -- The rest of a poll, by what Collect returns.
  unfoldable pub finish :
      Walk Packet → Meets Packet fnv → Target → Tier → Poller Packet fnv → Bool × Poller Packet fnv
  unfolding finish_failed finish_collected
  finish (answers pkts) m t tier p = finish_collected pkts m t tier p
  finish (fails timeout) m t tier p = (false, finish_failed timeout m t tier p)

  -- getConn, the places and the session, for a poll that is admitted.
  unfoldable pub run_poll :
      Meets Packet fnv → Target → Tier → Poller Packet fnv → Bool × Poller Packet fnv
  unfolding has_session with_session
  run_poll m t tier p =
      let pooled = with_session (has_session t p) t p in
      let (connected, ready) = connect m t tier pooled in
      if not (is_fast tier || m.heavy_slot) || not m.socket
      then (false, pooled)
      else if connected
      then finish (collect Packet tier t.device_type m.device) m t tier ready
      else (false, ready)

  unfoldable pub poll_snmp :
      Meets Packet fnv → Target → Tier → Poller Packet fnv → Bool × Poller Packet fnv
  unfolding admit run_poll
  poll_snmp m t tier p =
      let (admitted, p') = admit m t tier p in
      if admitted then run_poll m t tier p' else (false, p')
