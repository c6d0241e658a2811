-- ===== src/Poller/Breaker/Laws.antt =====
-- Circuit breakers under consecutive failures (fwEDR/internal/poller/poller.go).
use dcim_data_reader.Prelude.{
  ℕ, suc, ◌+◌, ◌^◌, ◌≤◌, ◌<◌, ◌≡◌, ◌↔◌, refl, ◌∙◌, ◌&&◌, List, [], ◌∷◌, ltb, leb, if◌then◌else◌,
  length, arith,
}
use dcim_data_reader.Poller.Breaker.{CircuitBreaker, record_failure, new_breaker}

-- Failures at the times of the list, with how many of them were reported as an opening.
pub fail_all : List ℕ → CircuitBreaker → ℕ × CircuitBreaker
fail_all [] b = (0, b)
fail_all (now ∷ rest) b =
    let (opened, b') = record_failure now b in
    let (n, last) = fail_all rest b' in (if opened then suc n else n, last)

-- A breaker that has counted `fails` failures and is open exactly if these reach its threshold.
pub record IsCounting (b : CircuitBreaker) : Type 0 where
  pub positive : 0 < b.threshold
  pub cools : 0 < b.cooldown
  pub opens_at : b.threshold ≤ b.fails → 0 < b.open_until
  pub closed_below : b.fails < b.threshold → b.open_until ≡ 0

abbrev AllLater : ℕ → List ℕ → Type 0
AllLater t [] = Unit
AllLater t (x ∷ xs) = (t ≤ x) × AllLater t xs

new_breaker-IsCounting : (threshold cooldown : ℕ) → IsCounting (new_breaker threshold cooldown)
unfolding new_breaker
new_breaker-IsCounting t c = ground arith

record_failure-IsCounting :
    (now : ℕ) (b : CircuitBreaker)
    → IsCounting b
    → b.fails + 1 < 2 ^ 31
    → IsCounting (record_failure now b).1
unfolding record_failure
record_failure-IsCounting now b h m = ground arith

record_failure-fails :
    (now : ℕ) (b : CircuitBreaker)
    → b.fails + 1 < 2 ^ 31
    → ((record_failure now b).1.fails ≡ b.fails + 1)
      × ((record_failure now b).1.threshold ≡ b.threshold)
      × ((record_failure now b).1.cooldown ≡ b.cooldown)
unfolding record_failure
record_failure-fails now b h = ground arith

record_failure-opens :
    (now : ℕ) (b : CircuitBreaker)
    → IsCounting b
    → b.fails + 1 < 2 ^ 31
    → (record_failure now b).0 ≡ (ltb b.fails b.threshold && leb b.threshold (b.fails + 1))
unfolding record_failure
record_failure-opens now b h m = ground arith

fail_all_lem :
    (times : List ℕ) (b : CircuitBreaker)
    → IsCounting b
    → b.fails + length times < 2 ^ 31
    → let (opened, last) = fail_all times b in
      IsCounting last
      × (last.fails ≡ b.fails + length times)
      × (last.threshold ≡ b.threshold)
      × (opened
          ≡ (if ltb b.fails b.threshold && leb b.threshold (b.fails + length times) then 1 else 0))
unfolding fail_all
fail_all_lem [] b h m = (h, omega arith, refl, ground arith)
fail_all_lem (now ∷ rest) b h m =
    let next = record_failure-IsCounting now b h (omega arith) in
    let (f, t, _) = record_failure-fails now b (omega arith) in
    let (inv, fails, thr, opened) = fail_all_lem rest (record_failure now b).1 next (omega arith) in
    (inv, omega arith, thr ∙ t, ground (arith, record_failure-opens now b h))

-- A list of consecutive failures shorter than 2 ^ 31 leaves a new breaker open exactly when
-- there are as many as its threshold (a threshold of 0 stands for 3), and then exactly one of
-- them is reported as the opening.
pub fail_all-new_breaker :
    (times : List ℕ) (threshold cooldown : ℕ)
    → length times < 2 ^ 31
    → let b = new_breaker threshold cooldown in
      let (opened, last) = fail_all times b in
      (0 < last.open_until ↔ b.threshold ≤ length times)
      × (opened ≡ (if leb b.threshold (length times) then 1 else 0))
fail_all-new_breaker times threshold cooldown h =
    let b = new_breaker threshold cooldown in
    let (inv, fails, thr, opened) =
      fail_all_lem times b (new_breaker-IsCounting threshold cooldown)
        (unfold new_breaker in omega arith) in
    unfold new_breaker in (ground arith, ground arith)
