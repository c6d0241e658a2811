-- ===== src/Forward/Gate/Laws.antt =====
-- How long a table waits for its next query (fwDCS/internal/forwarder/forwarder.go).
use dcim_data_reader.Prelude.{
  ℕ, zero, suc, ◌+◌, ◌-◌, ◌*◌, ◌/◌, ◌%◌, ◌≤◌, ◌<◌, ◌≡◌, refl, max, Bool, true, eq_iff, ◌⊎◌, List,
  [], ◌∷◌, String, ltb, arith, inl, inr, Bool-cases, str_eq, ◌==◌,
}
use native.Mathlib.Nat.{mul_comm, div-add-mod, mod-lt, mul-le-mul_right}
use dcim_data_reader.Prelude.Dict.{lookup, insert, lookup-insert}
use dcim_data_reader.Forward.Scope.{AggregatorConfig}
use dcim_data_reader.Forward.Gate.{
  Gates, PollGate, interval_of, max_idle_skips, gate_key, or_new, should_poll, after_poll,
  record_poll,
}

-- No gate skips more than the limit.
unfoldable pub IsWithin : ℕ → Gates → Type 0
unfolding or_new lookup
IsWithin max_skips gates = (key : String) → (or_new (lookup key gates)).skip_left ≤ max_skips

-- A call of shouldPoll or of recordPoll.
pub data Call : Type 0 where
  ask : String → String → Call
  tell : String → String → Bool → Call

unfoldable pub run_calls : ℕ → List Call → Gates → Gates
unfolding should_poll record_poll
run_calls m [] gates = gates
run_calls m (ask table net_id ∷ calls) gates =
    run_calls m calls (should_poll m table net_id gates).1
run_calls m (tell table net_id found ∷ calls) gates =
    run_calls m calls (record_poll m table net_id found gates)

-- The gates after so many calls of shouldPoll for a table.
unfoldable pub asked : ℕ → String → String → ℕ → Gates → Gates
unfolding should_poll
asked m table net_id zero gates = gates
asked m table net_id (suc n) gates = asked m table net_id n (should_poll m table net_id gates).1

insert-IsWithin :
    (m : ℕ) (key : String) (g : PollGate) (gates : Gates)
    → g.skip_left ≤ m
    → IsWithin m gates
    → IsWithin m (insert key g gates)
unfolding IsWithin or_new
insert-IsWithin m key g gates le h other =
    rw (lookup-insert key other g gates)
      (elim (Bool-cases (str_eq key other)) [ inl e ↦ rw e le | inr e ↦ rw e (h other) ])

should_poll-IsWithin :
    (m : ℕ) (table net_id : String) (gates : Gates)
    → IsWithin m gates
    → IsWithin m (should_poll m table net_id gates).1
unfolding should_poll IsWithin
should_poll-IsWithin m table net_id gates h =
    let key = gate_key table net_id in
    let g = or_new (lookup key gates) in
    let le = h key in
    elim (Bool-cases (m == 0)) [
      | inl e ↦ rw e h
      | inr e ↦ rw e (elim (Bool-cases (ltb 0 g.skip_left)) [
        | inl skips ↦
            rw skips (
              insert-IsWithin m key (record g { skip_left = g.skip_left - 1 }) gates (omega arith)
                h)
        | inr asks ↦ rw asks (insert-IsWithin m key g gates le h)
      ])
    ]

after_poll-le : (m : ℕ) (found : Bool) (g : PollGate) → (after_poll m "" "" found g).skip_left ≤ m
unfolding after_poll
after_poll-le m found g = ground arith

record_poll-IsWithin :
    (m : ℕ) (table net_id : String) (found : Bool) (gates : Gates)
    → IsWithin m gates
    → IsWithin m (record_poll m table net_id found gates)
unfolding record_poll after_poll
record_poll-IsWithin m table net_id found gates h =
    let key = gate_key table net_id in
    elim (Bool-cases (m == 0)) [
      | inl e ↦ rw e h
      | inr e ↦ rw e (
          insert-IsWithin m key (after_poll m table net_id found (or_new (lookup key gates))) gates
            (after_poll-le m found (or_new (lookup key gates))) h)
    ]

run_calls-IsWithin :
    (m : ℕ) (calls : List Call) (gates : Gates)
    → IsWithin m gates
    → IsWithin m (run_calls m calls gates)
unfolding run_calls
run_calls-IsWithin m [] gates h = h
run_calls-IsWithin m (ask table net_id ∷ calls) gates h =
    run_calls-IsWithin m calls (should_poll m table net_id gates).1
      (should_poll-IsWithin m table net_id gates h)
run_calls-IsWithin m (tell table net_id found ∷ calls) gates h =
    run_calls-IsWithin m calls (record_poll m table net_id found gates)
      (record_poll-IsWithin m table net_id found gates h)

-- A call of shouldPoll lets the query through, or the gate has one skip less.
should_poll-step :
    (m : ℕ) (table net_id : String) (gates : Gates)
    → ((should_poll m table net_id gates).0 ≡ true)
      ⊎ (suc
            (or_new (lookup (gate_key table net_id) (should_poll m table net_id gates).1)).skip_left
          ≡ (or_new (lookup (gate_key table net_id) gates)).skip_left)
unfolding should_poll or_new
should_poll-step m table net_id gates =
    let key = gate_key table net_id in
    let g = or_new (lookup key gates) in
    elim (Bool-cases (m == 0)) [
      | inl e ↦ inl (rw e refl)
      | inr e ↦ elim (Bool-cases (ltb 0 g.skip_left)) [
        | inl skips ↦
            let at = lookup-insert key key (record g { skip_left = g.skip_left - 1 }) gates in
            let same : str_eq key key ≡ true = ground (arith, eq_iff key key) in
            let positive : 0 < g.skip_left = ground (arith, skips) in
            inr (rw (e, skips, at, same) (omega (arith, positive)))
        | inr asks ↦ inl (rw (e, asks) refl)
      ]
    ]

asks_again :
    (m : ℕ) (table net_id : String) (n : ℕ) (gates : Gates)
    → (or_new (lookup (gate_key table net_id) gates)).skip_left ≤ n
    → (i : ℕ) × ((i ≤ n) × ((should_poll m table net_id (asked m table net_id i gates)).0 ≡ true))
unfolding asked
asks_again m table net_id zero gates le = elim (should_poll-step m table net_id gates) [
  | inl now ↦ (0, (omega arith, now))
  | inr less ↦ absurd (omega arith)
]
asks_again m table net_id (suc n) gates le = elim (should_poll-step m table net_id gates) [
  | inl now ↦ (0, (omega arith, now))
  | inr less ↦
      let (i, (small, now)) =
        asks_again m table net_id n (should_poll m table net_id gates).1 (omega arith) in
      (suc i, (omega arith, now))
]

skips_window : (q r i n : ℕ) → i * q + r ≡ n → r < i → i < n → suc (q - 1) * i ≤ n
skips_window zero r i n e below over = absurd (omega arith)
skips_window (suc q) r i n e below over =
    let less : suc q - 1 ≡ q = omega arith in
    let swap = mul_comm i (suc q) in rw less (omega (arith, swap))

max_idle_skips-window :
    (cfg : AggregatorConfig)
    → suc (max_idle_skips cfg) * interval_of cfg ≤ max cfg.idle_interval_ms (interval_of cfg)
unfolding max_idle_skips interval_of
max_idle_skips-window cfg =
    let t = interval_of cfg in
    let n = cfg.idle_interval_ms in
    let positive : 0 < t = ground arith in
    elim (Bool-cases (ltb t n)) [
      | inl e ↦
          let window : suc (n / t - 1) * t ≤ n =
            skips_window (n / t) (n % t) t n (div-add-mod n t) (mod-lt n positive)
              (ground (arith, e)) in
          rw e (omega (arith, window))
      | inr e ↦ rw e (omega arith)
    ]

-- After any calls of shouldPoll and recordPoll, a table is queried again within a number of
-- further ticks that, at the interval of the ticks, take no longer than the idle interval, or
-- than one tick where that is longer.
pub run_calls-should_poll :
    (cfg : AggregatorConfig) (calls : List Call) (table net_id : String)
    → let m = max_idle_skips cfg in
      (i : ℕ) × ((suc i * interval_of cfg ≤ max cfg.idle_interval_ms (interval_of cfg))
        × ((should_poll m table net_id (asked m table net_id i (run_calls m calls []))).0 ≡ true))
unfolding IsWithin or_new
run_calls-should_poll cfg calls table net_id =
    let m = max_idle_skips cfg in
    let gates = run_calls m calls [] in
    let within = run_calls-IsWithin m calls [] (λ key. omega arith) in
    let (i, (small, asks)) = asks_again m table net_id m gates (within (gate_key table net_id)) in
    let window = max_idle_skips-window cfg in
    (i, (omega (arith, window, mul-le-mul_right (interval_of cfg) small), asks))
