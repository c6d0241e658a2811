-- ===== src/Poller/Poll/Accounting.antt =====
-- The counters of the polls (fwEDR/internal/poller/poller.go).
use dcim_data_reader.Prelude.{
  ℕ, zero, suc, ◌+◌, ◌<◌, ◌≡◌, refl, ap, sym, subst, Bool, true, ◌&&◌, ◌||◌, List, [], ◌∷◌, String,
  arith, if◌then◌else◌, Bool-cases, inl, inr, length,
}
use dcim_data_reader.Target.{Target}
use dcim_data_reader.Poller.Collect.{
  Tier, tier_index, is_fast, collect, answers, fails, Walk, fast, medium, slow, topology,
  environment, server_health,
}
use dcim_data_reader.Poller.Poll.{
  Poller, PollMetrics, Meets, bump, with_breaker, admit, count_failure, connect, with_session,
  finish, finish_failed, finish_collected, run_poll, poll_snmp, has_session,
}

pub sum : List ℕ → ℕ
sum [] = 0
sum (n ∷ ns) = n + sum ns

sum-bump : (i : ℕ) (ns : List ℕ) → i < length ns → sum (bump i ns) ≡ sum ns + 1
unfolding sum bump
sum-bump i [] h = absurd (omega arith)
sum-bump zero (n ∷ ns) h = omega arith
sum-bump (suc i) (n ∷ ns) h = omega (arith, sum-bump i ns (omega arith))

tier_index-lt : (tier : Tier) → tier_index tier < 6
tier_index-lt fast = omega arith
tier_index-lt medium = omega arith
tier_index-lt slow = omega arith
tier_index-lt topology = omega arith
tier_index-lt environment = omega arith
tier_index-lt server_health = omega arith

-- A counter for each of the six tiers.
pub record IsSized (n : PollMetrics) : Type 0 where
  pub ok_sized : length n.ok_polls ≡ 6
  pub timeouts_sized : length n.timeouts ≡ 6
  pub failures_sized : length n.failures ≡ 6

-- The polls that are counted, over all the tiers and outcomes.
pub counted : PollMetrics → ℕ
counted n = sum n.ok_polls + sum n.timeouts + sum n.failures

module _ (Packet : Type 0) (fnv : String → ℕ) where
  -- The poll passes the gate, the pause, the breaker and the limiter, and gets its places.
  unfoldable pub reaches : Meets Packet fnv → Target → Tier → Poller Packet fnv → Bool
  reaches m t tier p = (admit Packet fnv m t tier p).0 && (is_fast tier || m.heavy_slot) && m.socket

  module _ (m : Meets Packet fnv) (t : Target) (tier : Tier) where
    admit-metrics : (p : Poller Packet fnv) → (admit Packet fnv m t tier p).1.metrics ≡ p.metrics
    unfolding admit with_breaker
    admit-metrics p = ground arith

    count_failure-counted :
        (p : Poller Packet fnv)
        → counted (count_failure Packet fnv m t tier p).metrics ≡ counted p.metrics
    unfolding count_failure with_breaker counted
    count_failure-counted p = ground arith

    with_session-metrics :
        (s : Bool) (p : Poller Packet fnv) → (with_session Packet fnv s t p).metrics ≡ p.metrics
    unfolding with_session
    with_session-metrics s p = refl

    connect-counted :
        (p : Poller Packet fnv)
        → IsSized p.metrics
        → counted (connect Packet fnv m t tier p).1.metrics
          ≡ counted p.metrics + (if (connect Packet fnv m t tier p).0 then 0 else 1)
    unfolding connect with_session count_failure with_breaker counted
    connect-counted p h = ground (
      arith,
      h.failures_sized,
      tier_index-lt tier,
      sum-bump (tier_index tier) p.metrics.failures
          (omega (arith, tier_index-lt tier, h.failures_sized)),
    )

    finish_failed-counted :
        (timeout : Bool) (p : Poller Packet fnv)
        → IsSized p.metrics
        → counted (finish_failed Packet fnv timeout m t tier p).metrics ≡ counted p.metrics + 1
    unfolding finish_failed with_session count_failure with_breaker counted
    finish_failed-counted timeout p h = ground (
      arith,
      sum-bump (tier_index tier) p.metrics.failures
          (omega (arith, tier_index-lt tier, h.failures_sized)),
      sum-bump (tier_index tier) p.metrics.timeouts
          (omega (arith, tier_index-lt tier, h.timeouts_sized)),
    )

    finish-counted :
        (w : Walk Packet) (p : Poller Packet fnv)
        → IsSized p.metrics
        → counted (finish Packet fnv w m t tier p).1.metrics ≡ counted p.metrics + 1
    unfolding finish finish_collected with_breaker counted
    finish-counted (answers pkts) p h = ground (
      arith,
      sum-bump (tier_index tier) p.metrics.ok_polls (omega (arith, tier_index-lt tier, h.ok_sized)),
    )
    finish-counted (fails timeout) p h = finish_failed-counted timeout p h

    connect-metrics :
        (p : Poller Packet fnv)
        → (connect Packet fnv m t tier p).0 ≡ true
        → (connect Packet fnv m t tier p).1.metrics ≡ p.metrics
    unfolding connect with_session
    connect-metrics p h = ground arith

    run_poll-counted :
        (p : Poller Packet fnv)
        → IsSized p.metrics
        → counted (run_poll Packet fnv m t tier p).1.metrics
          ≡ counted p.metrics + (if (is_fast tier || m.heavy_slot) && m.socket then 1 else 0)
    unfolding run_poll
    run_poll-counted p h =
        let pooled = with_session Packet fnv (has_session Packet fnv t p) t p in
        let same : pooled.metrics ≡ p.metrics =
          with_session-metrics (has_session Packet fnv t p) p in
        let sized : IsSized pooled.metrics = subst IsSized (sym same) h in
        let ready = (connect Packet fnv m t tier pooled).1 in
        elim (Bool-cases (connect Packet fnv m t tier pooled).0) [
          | inl c ↦
              let kept : ready.metrics ≡ pooled.metrics = connect-metrics pooled c in
              ground (
                arith,
                ap counted same,
                ap counted kept,
                c,
                finish-counted (collect Packet tier t.device_type m.device) ready
                    (subst IsSized (sym kept) sized),
              )
          | inr n ↦ ground (arith, ap counted same, connect-counted pooled sized, n)
        ]

    -- With a counter for each tier, a poll adds one to the counters of successes, timeouts and
    -- failures taken together if it passes the gate, the pause, the breaker and the limiter and
    -- gets its places, and else leaves their sum as it is.
    pub poll_snmp-counted :
        (p : Poller Packet fnv)
        → IsSized p.metrics
        → counted (poll_snmp Packet fnv m t tier p).1.metrics
          ≡ counted p.metrics + (if reaches m t tier p then 1 else 0)
    unfolding poll_snmp reaches
    poll_snmp-counted p h =
        let same = admit-metrics p in
        ground (
          arith,
          ap counted same,
          run_poll-counted (admit Packet fnv m t tier p).1 (subst IsSized (sym same) h),
        )
