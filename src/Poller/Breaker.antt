-- ===== src/Poller/Breaker.antt =====
-- circuitBreaker of fwEDR/internal/poller/poller.go.
pub mod Laws
use dcim_data_reader.Prelude.{
  ℕ, ◌+◌, ◌%◌, ◌^◌, Bool, true, false, not, ◌&&◌, List, [], ◌∷◌, ltb, leb, ◌==◌, if◌then◌else◌,
}

-- `fails` is the bit pattern of the int32; `open_until` is 0 while the breaker is closed.
pub record CircuitBreaker : Type 0 where
  pub threshold : ℕ
  pub cooldown : ℕ
  pub fails : ℕ
  pub open_until : ℕ

-- The breaker that getBreaker makes.
unfoldable pub new_breaker : ℕ → ℕ → CircuitBreaker
new_breaker threshold cooldown = record {
  threshold = if threshold == 0 then 3 else threshold;
  cooldown = if cooldown == 0 then 30_000_000_000 else cooldown;
  fails = 0;
  open_until = 0;
}

-- tripped, which closes the breaker when its cooldown has passed.
unfoldable pub tripped : ℕ → CircuitBreaker → Bool × CircuitBreaker
tripped now b =
    if b.open_until == 0
    then (false, b)
    else if ltb now b.open_until
    then (true, b)
    else (false, record b { open_until = 0; fails = 0 })

-- `int(n) >= b.threshold` at an int32 whose bit pattern is `n`.
abbrev pub reached : ℕ → ℕ → Bool
reached n threshold = ltb n (2 ^ 31) && leb threshold n

-- recordFailure: true on the change from closed to open.
unfoldable pub record_failure : ℕ → CircuitBreaker → Bool × CircuitBreaker
record_failure now b =
    let n = (b.fails + 1) % 2 ^ 32 in
    if reached n b.threshold
    then (b.open_until == 0, record b { fails = n; open_until = now + b.cooldown })
    else (false, record b { fails = n })

unfoldable pub record_success : CircuitBreaker → CircuitBreaker
record_success b = record b { fails = 0; open_until = 0 }
