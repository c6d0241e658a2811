-- ===== src/Poller/Limiter.antt =====
-- rateLimiter of fwEDR/internal/poller/poller.go: a token bucket, refilled by a ticker.
use dcim_data_reader.Prelude.{
  ℕ, suc, ◌+◌, ◌-◌, ◌≤◌, Bool, true, false, List, [], ◌∷◌, ltb, ◌==◌, if◌then◌else◌, arith,
}

-- The buffered channel `tokens`: how many it holds, and its capacity.
pub record RateLimiter : Type 0 where
  pub tokens : ℕ
  pub capacity : ℕ

unfoldable pub new_rate_limiter : ℕ → RateLimiter
new_rate_limiter per_sec = record { tokens = per_sec; capacity = per_sec }

-- The ticker's `select`: a token more, unless the channel is full.
unfoldable pub refill : RateLimiter → RateLimiter
refill r = if ltb r.tokens r.capacity then record r { tokens = r.tokens + 1 } else r

-- wait, at a moment when the context is live: a token if there is one, and else the caller blocks.
unfoldable pub try_wait : RateLimiter → Bool × RateLimiter
try_wait r = if r.tokens == 0 then (false, r) else (true, record r { tokens = r.tokens - 1 })

-- What happens to the limiter: the ticker fires, or a caller tries to go on.
pub data Event : Type 0 where
  tick attempt_wait : Event

-- The number of callers let through, and the limiter after the events.
pub run : List Event → RateLimiter → ℕ × RateLimiter
run [] r = (0, r)
run (tick ∷ es) r = run es (refill r)
run (attempt_wait ∷ es) r =
    let (granted, r') = try_wait r in
    let (n, last) = run es r' in (if granted then suc n else n, last)

pub ticks : List Event → ℕ
ticks [] = 0
ticks (tick ∷ es) = suc (ticks es)
ticks (attempt_wait ∷ es) = ticks es

run_lem :
    (es : List Event) (r : RateLimiter)
    → r.tokens ≤ r.capacity
    → ((run es r).0 + (run es r).1.tokens ≤ r.tokens + ticks es)
      × ((run es r).1.tokens ≤ r.capacity)
unfolding run ticks refill try_wait
run_lem [] r h = omega arith
run_lem (tick ∷ es) r h = ground (arith, run_lem es (refill r))
run_lem (attempt_wait ∷ es) r h = ground (arith, run_lem es (try_wait r).1)

-- However the ticks and the callers interleave, a new limiter of per_sec tokens lets at most
-- per_sec callers through beyond one for each tick, and holds at most per_sec tokens at the
-- end.
pub run-new_rate_limiter :
    (es : List Event) (per_sec : ℕ)
    → ((run es (new_rate_limiter per_sec)).0 ≤ per_sec + ticks es)
      × ((run es (new_rate_limiter per_sec)).1.tokens ≤ per_sec)
unfolding new_rate_limiter
run-new_rate_limiter es n = omega (arith, run_lem es (record { tokens = n; capacity = n }))
