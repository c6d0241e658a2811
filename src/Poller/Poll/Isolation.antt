-- ===== src/Poller/Poll/Isolation.antt =====
-- The breakers of the FAST heartbeat beside the heavy walks (fwEDR/internal/poller/poller.go).
use dcim_data_reader.Prelude.{ℕ, ◌≡◌, ◌∙◌, refl, Bool, false, List, [], ◌∷◌, String, arith}
use dcim_data_reader.Target.{Target}
use dcim_data_reader.Poller.Breaker.{CircuitBreaker}
use dcim_data_reader.Poller.Collect.{Tier, is_fast, collect, answers, fails, Walk}
use dcim_data_reader.Poller.Poll.{
  Poller, Meets, with_breaker, admit, count_failure, connect, with_session, finish, finish_failed,
  finish_collected, run_poll, poll_snmp, has_session,
}

module _ (Packet : Type 0) (fnv : String → ℕ) where
  -- A poll, with what it meets.
  pub record Call : Type 0 where
    pub meets : Meets Packet fnv
    pub target : Target
    pub tier : Tier

  pub poll_all : List Call → Poller Packet fnv → Poller Packet fnv
  poll_all [] p = p
  poll_all (c ∷ cs) p = poll_all cs (poll_snmp Packet fnv c.meets c.target c.tier p).1

  abbrev pub AllHeavy : List Call → Type 0
  AllHeavy [] = Unit
  AllHeavy (c ∷ cs) = (is_fast c.tier ≡ false) × AllHeavy cs

  module _ (m : Meets Packet fnv) (t : Target) (tier : Tier) (heavy : is_fast tier ≡ false) where
    with_breaker-live :
        (key : String) (b : CircuitBreaker) (p : Poller Packet fnv)
        → (with_breaker Packet fnv tier key b p).live_breakers ≡ p.live_breakers
    unfolding with_breaker
    with_breaker-live key b p = ground arith

    admit-live :
        (p : Poller Packet fnv) → (admit Packet fnv m t tier p).1.live_breakers ≡ p.live_breakers
    unfolding admit with_breaker
    admit-live p = ground arith

    count_failure-live :
        (p : Poller Packet fnv)
        → (count_failure Packet fnv m t tier p).live_breakers ≡ p.live_breakers
    unfolding count_failure with_breaker
    count_failure-live p = ground arith

    with_session-live :
        (s : Bool) (p : Poller Packet fnv)
        → (with_session Packet fnv s t p).live_breakers ≡ p.live_breakers
    unfolding with_session
    with_session-live s p = refl

    connect-live :
        (p : Poller Packet fnv) → (connect Packet fnv m t tier p).1.live_breakers ≡ p.live_breakers
    unfolding connect with_session count_failure with_breaker
    connect-live p = ground arith

    finish_failed-live :
        (timeout : Bool) (p : Poller Packet fnv)
        → (finish_failed Packet fnv timeout m t tier p).live_breakers ≡ p.live_breakers
    unfolding finish_failed with_session count_failure with_breaker
    finish_failed-live timeout p = ground arith

    finish_collected-live :
        (pkts : List Packet) (p : Poller Packet fnv)
        → (finish_collected Packet fnv pkts m t tier p).1.live_breakers ≡ p.live_breakers
    unfolding finish_collected with_breaker
    finish_collected-live pkts p = ground arith

    finish-live :
        (w : Walk Packet) (p : Poller Packet fnv)
        → (finish Packet fnv w m t tier p).1.live_breakers ≡ p.live_breakers
    unfolding finish
    finish-live (answers pkts) p = finish_collected-live pkts p
    finish-live (fails timeout) p = finish_failed-live timeout p

    run_poll-live :
        (p : Poller Packet fnv) → (run_poll Packet fnv m t tier p).1.live_breakers ≡ p.live_breakers
    unfolding run_poll
    run_poll-live p =
        let pooled = with_session Packet fnv (has_session Packet fnv t p) t p in
        ground (
          arith,
          with_session-live (has_session Packet fnv t p) p,
          connect-live pooled,
          finish-live (collect Packet tier t.device_type m.device)
              (connect Packet fnv m t tier pooled).1,
        )

    pub poll_snmp-live :
        (p : Poller Packet fnv)
        → (poll_snmp Packet fnv m t tier p).1.live_breakers ≡ p.live_breakers
    unfolding poll_snmp
    poll_snmp-live p = ground (arith, admit-live p, run_poll-live (admit Packet fnv m t tier p).1)

  -- However polls of the heavy tiers go, of any targets and in any number, they leave the
  -- circuit breakers of the FAST heartbeat as they are.
  pub poll_all-live_breakers :
      (calls : List Call) (p : Poller Packet fnv)
      → AllHeavy calls
      → (poll_all calls p).live_breakers ≡ p.live_breakers
  unfolding poll_all
  poll_all-live_breakers [] p h = refl
  poll_all-live_breakers (c ∷ cs) p h =
      poll_all-live_breakers cs (poll_snmp Packet fnv c.meets c.target c.tier p).1 h.1
      ∙ poll_snmp-live c.meets c.target c.tier h.0 p
