-- ===== src/Poller/Throttle.antt =====
-- logThrottle of fwEDR/internal/poller/poller.go.
use text.Mathlib.TextPositions.{eq_refl}
use dcim_data_reader.Prelude.{
  ℕ, suc, ◌+◌, ◌-◌, ◌≤◌, ◌<◌, ◌≡◌, ◌↔◌, refl, Bool, true, false, Option, none, some, List, [], ◌∷◌,
  leb, ◌==◌, str_eq, eq_iff, if◌then◌else◌, arith, String, Option-cases, Bool-cases, ap, ◌⊎◌, inl,
  inr,
}
use dcim_data_reader.Prelude.Dict.{lookup, insert, lookup-insert}

pub record ThrottleEntry : Type 0 where
  pub last : ℕ
  pub suppressed : ℕ

-- `window` is 0 where throttling is off.
pub record LogThrottle : Type 0 where
  pub window : ℕ
  pub entries : List (String × ThrottleEntry)

-- The verdict on a key's entry, and the entry that stands there afterwards.
unfoldable pub judge : ℕ → ℕ → Option ThrottleEntry → (Bool × ℕ) × ThrottleEntry
judge now window none = ((true, 0), record { last = now; suppressed = 0 })
judge now window (some e) =
    if leb window (now - e.last)
    then ((true, e.suppressed), record { last = now; suppressed = 0 })
    else ((false, 0), record e { suppressed = e.suppressed + 1 })

-- Whether a line for the key may be emitted at `now`, and how many were suppressed since the last.
unfoldable pub allow : ℕ → String → LogThrottle → (Bool × ℕ) × LogThrottle
unfolding judge
allow now key lt =
    if lt.window == 0
    then ((true, 0), lt)
    else let (verdict, e) = judge now lt.window (lookup key lt.entries) in
      (verdict, record lt { entries = insert key e lt.entries })

-- Calls at the times and keys of the list.
pub after : List (ℕ × String) → LogThrottle → LogThrottle
after [] lt = lt
after ((now, key) ∷ calls) lt = after calls (allow now key lt).1

-- Over the calls for one key: how many lines were emitted, and the suppressed ones that they report.
pub emitted : String → List (ℕ × String) → LogThrottle → ℕ
emitted k [] lt = 0
emitted k ((now, key) ∷ calls) lt =
    let rest = emitted k calls (allow now key lt).1 in
    if str_eq key k then (if (allow now key lt).0.0 then suc rest else rest) else rest

pub reported : String → List (ℕ × String) → LogThrottle → ℕ
reported k [] lt = 0
reported k ((now, key) ∷ calls) lt =
    let rest = reported k calls (allow now key lt).1 in
    if str_eq key k then (allow now key lt).0.1 + rest else rest

pub calls_for : String → List (ℕ × String) → ℕ
calls_for k [] = 0
calls_for k ((now, key) ∷ calls) =
    let rest = calls_for k calls in if str_eq key k then suc rest else rest

abbrev suppressed_in : Option ThrottleEntry → ℕ
suppressed_in none = 0
suppressed_in (some e) = e.suppressed

-- The lines suppressed for a key that no line has reported yet.
pub pending : String → LogThrottle → ℕ
pending k lt = suppressed_in (lookup k lt.entries)

judge_lem :
    (now window : ℕ) (o : Option ThrottleEntry)
    → (if (judge now window o).0.0 then 1 else 0)
        + (judge now window o).0.1
        + (judge now window o).1.suppressed
      ≡ suppressed_in o + 1
unfolding judge
judge_lem now window none = refl
judge_lem now window (some e) = ground arith

allow-pending :
    (now : ℕ) (key k : String) (lt : LogThrottle)
    → 0 < lt.window
    → ((if (allow now key lt).0.0 then 1 else 0)
          + (allow now key lt).0.1
          + pending key (allow now key lt).1
        ≡ pending key lt + 1)
      × (str_eq key k ≡ false → pending k (allow now key lt).1 ≡ pending k lt)
      × ((allow now key lt).1.window ≡ lt.window)
unfolding allow pending
allow-pending now key k lt w =
    let open_window : (lt.window == 0) ≡ false = ground arith in
    let e = (judge now lt.window (lookup key lt.entries)).1 in
    rw open_window (
      rw (lookup-insert key key e lt.entries, eq_refl key)
          (judge_lem now lt.window (lookup key lt.entries)),
      λ ne. rw (lookup-insert key k e lt.entries, ne),
      refl,
    )

-- Over any calls of allow with a window above 0, at any keys and times, no line for a key is
-- lost: the lines emitted for it, the suppressed lines that these report and those not reported
-- yet add up to the calls for the key and what was pending before.
pub emitted-reported-pending :
    (k : String) (calls : List (ℕ × String)) (lt : LogThrottle)
    → 0 < lt.window
    → emitted k calls lt + reported k calls lt + pending k (after calls lt)
      ≡ pending k lt + calls_for k calls
unfolding emitted reported after calls_for
emitted-reported-pending k [] lt w = omega arith
emitted-reported-pending k ((now, key) ∷ calls) lt w =
    let (kept, others, same) = allow-pending now key k lt w in
    let ih = emitted-reported-pending k calls (allow now key lt).1 (omega arith) in
    elim (Bool-cases (str_eq key k)) [
      | inl e ↦
          let p = (eq_iff key k).0 e in
          let now_pending = ap (λ j. pending j (allow now key lt).1) p in
          let was_pending = ap (λ j. pending j lt) p in
          rw e (ground (arith, ih, kept, now_pending, was_pending))
      | inr e ↦ rw e (omega (arith, ih, others e))
    ]

-- With a window above 0, allow emits a line exactly when its key is new or the last line
-- emitted for the key is at least a window past.
pub allow_iff :
    (now : ℕ) (key : String) (lt : LogThrottle)
    → 0 < lt.window
    → ((allow now key lt).0.0 ≡ true) ↔ (
        (lookup key lt.entries ≡ none)
        ⊎ ((e : ThrottleEntry) × (lookup key lt.entries ≡ some e) × (lt.window ≤ now - e.last)))
unfolding allow
allow_iff now key lt w = elim (Option-cases (lookup key lt.entries)) [
  | inl e ↦ (λ _. inl e, λ _. ground arith)
  | inr (e, found) ↦ (λ t. inr (e, found, ground arith), λ due. ground arith)
]
