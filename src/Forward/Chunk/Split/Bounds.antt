-- ===== src/Forward/Chunk/Split/Bounds.antt =====
-- How long the fragments of a device are (splitDevice of fwDCS/internal/forwarder/forwarder.go).
use dcim_data_reader.Prelude.{
  ℕ, ◌+◌, ◌≤◌, ◌≡◌, refl, List, [], ◌∷◌, arith, ◌⊎◌, inl, inr, total_of, total_of-append, All,
  All-append, length-append,
}
use dcim_data_reader.Forward.Payload.{AggDevice, AggMetric, AggEnergyMetric}
use dcim_data_reader.Forward.Chunk.Split.{
  JsonLen, Splitting, bare, stub, samples, flush, room_for, add_metric, add_energy, split_metrics,
  split_energy, split_device,
}

module _ (V : Type 0) (len : JsonLen V) where
  -- The length of the fragment as splitDevice counts it.
  unfoldable pub estimate : AggDevice V → ℕ
  unfolding bare
  estimate x =
      len.device (bare V len x)
      + total_of len.metric x.metrics
      + total_of len.energy x.energy_metrics

  -- A fragment fits the budget, or has at most one sample.
  unfoldable pub IsSmall : ℕ → AggDevice V → Type 0
  unfolding samples
  IsSmall budget x = (samples V len x ≤ 1) ⊎ (estimate x ≤ budget)

  -- The fragment names the device.
  abbrev pub Names : AggDevice V → AggDevice V → Type 0
  Names d x =
      (x.id ≡ d.id)
      × ((x.hostname ≡ d.hostname)
          × ((x.device_type ≡ d.device_type) × (x.is_reachable ≡ d.is_reachable)))

  abbrev pub IsFragment : AggDevice V → ℕ → AggDevice V → Type 0
  IsFragment d budget x = Names d x × IsSmall budget x

  abbrev IsSplitting : AggDevice V → ℕ → Splitting V len → Type 0
  IsSplitting d budget s =
      (s.cur_bytes ≡ estimate s.cur)
      × (IsFragment d budget s.cur × All (IsFragment d budget) s.frags)

  -- A sample more is counted, and fits where there is room for it.
  HasRoom : ℕ → ℕ → Splitting V len → Type 0
  unfolding samples
  HasRoom budget bytes s = (samples V len s.cur ≤ 0) ⊎ (s.cur_bytes + bytes ≤ budget)

  flush-IsSplitting :
      (d : AggDevice V) (budget : ℕ) (s : Splitting V len)
      → IsSplitting d budget s
      → IsSplitting d budget (flush V len d s)
  unfolding flush stub estimate IsSmall samples bare
  flush-IsSplitting d budget s (e, (small, all)) = (
    omega arith,
    (
      ((refl, (refl, (refl, refl))), inl (omega arith)),
      All-append (IsFragment d budget) s.frags (s.cur ∷ []) all (small, tt),
    ),
  )

  room_for-IsSplitting :
      (d : AggDevice V) (budget bytes : ℕ) (s : Splitting V len)
      → IsSplitting d budget s
      → IsSplitting d budget (room_for V len d budget bytes s)
  unfolding room_for
  room_for-IsSplitting d budget bytes s h = ground (arith, flush-IsSplitting d budget s h)

  room_for-HasRoom :
      (d : AggDevice V) (budget bytes : ℕ) (s : Splitting V len)
      → HasRoom budget bytes (room_for V len d budget bytes s)
  unfolding room_for HasRoom flush stub samples
  room_for-HasRoom d budget bytes s = ground arith

  add_metric-IsSplitting :
      (d : AggDevice V) (budget : ℕ) (m : AggMetric V) (s : Splitting V len)
      → IsSplitting d budget s
      → HasRoom budget (len.metric m) s
      → IsSplitting d budget (add_metric V len m (len.metric m) s)
  unfolding add_metric HasRoom estimate IsSmall samples bare
  add_metric-IsSplitting d budget m s (e, ((names, small), all)) room =
      let total = total_of-append len.metric s.cur.metrics (m ∷ []) in
      let count = length-append s.cur.metrics (m ∷ []) in
      (
        omega (arith, total),
        (
          (
            names,
            elim room [
              | inl none_yet ↦ inl (omega (arith, count))
              | inr fits ↦ inr (omega (arith, total))
            ],
          ),
          all,
        ),
      )

  add_energy-IsSplitting :
      (d : AggDevice V) (budget : ℕ) (x : AggEnergyMetric V) (s : Splitting V len)
      → IsSplitting d budget s
      → HasRoom budget (len.energy x) s
      → IsSplitting d budget (add_energy V len x (len.energy x) s)
  unfolding add_energy HasRoom estimate IsSmall samples bare
  add_energy-IsSplitting d budget x s (e, ((names, small), all)) room =
      let total = total_of-append len.energy s.cur.energy_metrics (x ∷ []) in
      let count = length-append s.cur.energy_metrics (x ∷ []) in
      (
        omega (arith, total),
        (
          (
            names,
            elim room [
              | inl none_yet ↦ inl (omega (arith, count))
              | inr fits ↦ inr (omega (arith, total))
            ],
          ),
          all,
        ),
      )

  split_metrics-IsSplitting :
      (d : AggDevice V) (budget : ℕ) (ms : List (AggMetric V)) (s : Splitting V len)
      → IsSplitting d budget s
      → IsSplitting d budget (split_metrics V len d budget ms s)
  unfolding split_metrics
  split_metrics-IsSplitting d budget [] s h = h
  split_metrics-IsSplitting d budget (m ∷ ms) s h =
      let bytes = len.metric m in
      let room = room_for V len d budget bytes s in
      split_metrics-IsSplitting d budget ms (add_metric V len m bytes room) (
        add_metric-IsSplitting d budget m room (room_for-IsSplitting d budget bytes s h)
          (room_for-HasRoom d budget bytes s))

  split_energy-IsSplitting :
      (d : AggDevice V) (budget : ℕ) (es : List (AggEnergyMetric V)) (s : Splitting V len)
      → IsSplitting d budget s
      → IsSplitting d budget (split_energy V len d budget es s)
  unfolding split_energy
  split_energy-IsSplitting d budget [] s h = h
  split_energy-IsSplitting d budget (x ∷ es) s h =
      let bytes = len.energy x in
      let room = room_for V len d budget bytes s in
      split_energy-IsSplitting d budget es (add_energy V len x bytes room) (
        add_energy-IsSplitting d budget x room (room_for-IsSplitting d budget bytes s h)
          (room_for-HasRoom d budget bytes s))

  -- Every fragment of a device names the device and, as splitDevice counts, fits the budget or
  -- has at most one sample.
  pub split_device-IsFragment :
      (d : AggDevice V) (budget : ℕ) → All (IsFragment d budget) (split_device V len d budget)
  unfolding split_device estimate IsSmall samples bare
  split_device-IsFragment d budget =
      let head : Splitting V len = record {
        frags = [];
        cur = bare V len d;
        cur_bytes = len.device (bare V len d);
      } in
      let start : IsSplitting d budget head =
        (omega arith, (((refl, (refl, (refl, refl))), inl (omega arith)), tt)) in
      let s =
        split_energy V len d budget d.energy_metrics
          (split_metrics V len d budget d.metrics head) in
      let (e, (small, all)) =
        split_energy-IsSplitting d budget d.energy_metrics
          (split_metrics V len d budget d.metrics head)
          (split_metrics-IsSplitting d budget d.metrics head start) in
      All-append (IsFragment d budget) s.frags (s.cur ∷ []) all (small, tt)
