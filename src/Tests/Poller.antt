-- ===== src/Tests/Poller.antt =====
-- The poller's theorems at concrete inputs (fwEDR/internal/poller/poller.go).
use dcim_data_reader.Prelude.{
  ℕ, ◌+◌, ◌≤◌, ◌<◌, ◌≡◌, ◌↔◌, arith, List, [], ◌∷◌, leb, if◌then◌else◌, String,
}
use dcim_data_reader.Poller.Breaker.{CircuitBreaker, new_breaker}
use dcim_data_reader.Poller.Breaker.Laws.{fail_all, fail_all-new_breaker}
use dcim_data_reader.Poller.Health.{HealthMonitor}
use dcim_data_reader.Poller.Throttle.{
  LogThrottle, emitted, reported, pending, after, calls_for, emitted-reported-pending,
}
use dcim_data_reader.Poller.Limiter.{Event, tick, attempt_wait}

fail_all-new_breaker_example :
    let b = new_breaker 2 10 in
    let (opened, last) = fail_all (1 ∷ 2 ∷ 3 ∷ []) b in
    (0 < last.open_until ↔ b.threshold ≤ 3) × (opened ≡ (if leb b.threshold 3 then 1 else 0))
fail_all-new_breaker_example = fail_all-new_breaker (1 ∷ 2 ∷ 3 ∷ []) 2 10 (omega arith)

abbrev a_monitor : HealthMonitor
a_monitor = record { total = 2; pause_until = 0 }

abbrev open_breaker : CircuitBreaker
open_breaker = record { threshold = 3; cooldown = 10; fails = 3; open_until = 20 }

abbrev a_throttle : LogThrottle
a_throttle = record { window = 5; entries = [] }

abbrev some_calls : List (ℕ × String)
some_calls = (1, "a") ∷ (2, "a") ∷ (3, "b") ∷ (9, "a") ∷ []

emitted-reported-pending_example :
    emitted "a" some_calls a_throttle
      + reported "a" some_calls a_throttle
      + pending "a" (after some_calls a_throttle)
    ≡ pending "a" a_throttle + calls_for "a" some_calls
emitted-reported-pending_example = emitted-reported-pending "a" some_calls a_throttle (omega arith)

abbrev some_events : List Event
some_events = attempt_wait ∷ attempt_wait ∷ tick ∷ attempt_wait ∷ attempt_wait ∷ []
