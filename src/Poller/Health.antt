-- ===== src/Poller/Health.antt =====
-- healthMonitor of fwEDR/internal/poller/poller.go. `ratio >= 0.30` is stated on whole numbers; the
-- float64 comparison agrees with it for fleets below 2 ^ 49 targets.
use dcim_data_reader.Prelude.{
  ℕ, ◌+◌, ◌*◌, ◌≤◌, ◌<◌, ◌≡◌, ◌↔◌, Bool, true, false, List, [], ◌∷◌, leb, ◌==◌, if◌then◌else◌,
  arith,
}
use dcim_data_reader.Poller.Breaker.{CircuitBreaker, tripped}

pub record HealthMonitor : Type 0 where
  pub total : ℕ
  pub pause_until : ℕ

-- 60 * time.Second
abbrev pub health_cooldown : ℕ
health_cooldown = 60_000_000_000

unfoldable pub new_health_monitor : ℕ → HealthMonitor
new_health_monitor total = record { total = total; pause_until = 0 }

unfoldable pub total_add : ℕ → HealthMonitor → HealthMonitor
total_add delta h = record h { total = h.total + delta }

-- paused, which forgets a pause that has passed.
unfoldable pub paused : ℕ → HealthMonitor → Bool × HealthMonitor
paused now h =
    if h.pause_until == 0
    then (false, h)
    else if leb h.pause_until now
    then (false, record h { pause_until = 0 })
    else (true, h)

-- `breakers.Range`: the open breakers, and each breaker after its `tripped`.
unfoldable pub count_open : ℕ → List CircuitBreaker → ℕ × List CircuitBreaker
count_open now [] = (0, [])
count_open now (b ∷ bs) =
    let (is_open, b') = tripped now b in
    let (n, bs') = count_open now bs in (if is_open then n + 1 else n, b' ∷ bs')

-- One round of `run`, when the ticker fires.
unfoldable pub health_tick :
    ℕ → HealthMonitor → List CircuitBreaker → HealthMonitor × List CircuitBreaker
unfolding paused
health_tick now h breakers =
    if h.total == 0
    then (h, breakers)
    else let (open_breakers, breakers') = count_open now breakers in
      let (is_paused, h') = paused now h in
      if leb (3 * h.total) (10 * open_breakers)
      then (if is_paused then h' else record h' { pause_until = now + health_cooldown }, breakers')
      else (h, breakers')

-- From a monitor that is not pausing, after a round at `now` polling is paused at a time `t`
-- from then on exactly when there are targets, at least three open breakers for every ten of
-- them, and `t` is less than sixty seconds after `now`.
pub health_tick_pauses_iff :
    (now t : ℕ) (h : HealthMonitor) (breakers : List CircuitBreaker)
    → h.pause_until ≡ 0
    → now ≤ t
    → ((paused t (health_tick now h breakers).0).0 ≡ true) ↔ (
        (0 < h.total)
        × (3 * h.total ≤ 10 * (count_open now breakers).0)
        × (t < now + health_cooldown))
unfolding health_tick
health_tick_pauses_iff now t h breakers e l = ground arith
