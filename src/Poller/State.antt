-- ===== src/Poller/State.antt =====
-- The state of the SNMP poller (fwEDR/internal/poller/poller.go), what a poll meets, and getBreaker.
use dcim_data_reader.Prelude.{
  ℕ, zero, suc, Bool, Option, none, some, List, [], ◌∷◌, String, if◌then◌else◌, str_append,
}
use dcim_data_reader.Prelude.Dict.{lookup, insert}
use dcim_data_reader.Target.{Target, source_id}
use dcim_data_reader.Poller.Breaker.{CircuitBreaker, new_breaker}
use dcim_data_reader.Poller.Health.{HealthMonitor}
use dcim_data_reader.Poller.Limiter.{RateLimiter}
use dcim_data_reader.Poller.Throttle.{LogThrottle}
use dcim_data_reader.Poller.Sockets.{SocketConfig}
use dcim_data_reader.Poller.Collect.{Tier, is_fast, Device}

-- config.SNMPConfig, as far as the polls read it. The cooldown is in nanoseconds.
pub record PollConfig : Type 0 where
  pub sockets : SocketConfig
  pub breaker_threshold : ℕ
  pub fast_breaker_threshold : ℕ
  pub breaker_cooldown : ℕ
  pub mgmt_port : ℕ
  pub walk_medium : Bool
  pub walk_topology : Bool
  pub walk_slow : Bool
  pub walk_sensors : Bool
  pub walk_server_health : Bool

-- pollMetrics: a counter for each tier, and two of all the tiers.
pub record PollMetrics : Type 0 where
  pub ok_polls : List ℕ
  pub timeouts : List ℕ
  pub failures : List ℕ
  pub breaker_opens : ℕ
  pub mgmt_confirmed : ℕ

-- `counters[i].Add(1)`
unfoldable pub bump : ℕ → List ℕ → List ℕ
bump i [] = []
bump zero (n ∷ ns) = suc n ∷ ns
bump (suc i) (n ∷ ns) = n ∷ bump i ns

-- SourceID + "|" + IP
unfoldable pub breaker_key : Target → String
breaker_key t = str_append (source_id t) (str_append "|" t.ip)

module _ (Packet : Type 0) (fnv : String → ℕ) where
  -- Each pool of sessions says which of them are connected. `gate` is `none` for a nil gate, and
  -- else whether DCS is down; `out` has the packets that were sent to the channel.
  pub record Poller : Type 0 where
    pub cfg : PollConfig
    pub live_breakers : List (String × CircuitBreaker)
    pub heavy_breakers : List (String × CircuitBreaker)
    pub conns : List (String × List Bool)
    pub sessions : ℕ
    pub limiter : Option RateLimiter
    pub gate : Option Bool
    pub health : HealthMonitor
    pub metrics : PollMetrics
    pub throttle : LogThrottle
    pub out : List Packet

  -- What a poll meets: the times at which it starts and ends, whether the waits for a token of the
  -- limiter, for a place of heavySem and for a socket end before the context is done, whether
  -- NewClient connects, what the device answers, whether the deadline of the poll has passed,
  -- whether ProbeMgmt answers, and how many packets the channel takes before the context is done.
  pub record Meets : Type 0 where
    pub started : ℕ
    pub ended : ℕ
    pub token : Bool
    pub heavy_slot : Bool
    pub socket : Bool
    pub connected : Bool
    pub device : Device Packet
    pub deadline : Bool
    pub mgmt_answers : Bool
    pub taken : ℕ

  breakers : Tier → Poller → List (String × CircuitBreaker)
  breakers tier p = if is_fast tier then p.live_breakers else p.heavy_breakers

  -- `m.Store(key, br)` in the breakers of the tier's class.
  unfoldable pub with_breaker : Tier → String → CircuitBreaker → Poller → Poller
  with_breaker tier key b p =
      if is_fast tier
      then record p { live_breakers = insert key b p.live_breakers }
      else record p { heavy_breakers = insert key b p.heavy_breakers }

  -- The breaker that getBreaker finds, or makes.
  unfoldable pub get_breaker : Target → Tier → Poller → CircuitBreaker
  unfolding breakers
  get_breaker t tier p = elim (lookup (breaker_key t) (breakers tier p)) [
    | none ↦
        new_breaker (if is_fast tier then p.cfg.fast_breaker_threshold else p.cfg.breaker_threshold)
          p.cfg.breaker_cooldown
    | some b ↦ b
  ]
