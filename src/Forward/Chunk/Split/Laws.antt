-- ===== src/Forward/Chunk/Split/Laws.antt =====
-- The fragments of a device (splitDevice of fwDCS/internal/forwarder/forwarder.go) and what they
-- carry.
use dcim_data_reader.Prelude.{
  ℕ, ◌≡◌, ◌∙◌, refl, sym, ap, List, [], ◌∷◌, ◌++◌, arith, concat_map, concat_map-append,
  concat_map-single, concat_map-nothing, append_assoc, append-nil,
}
use dcim_data_reader.Forward.Payload.{AggDevice, AggMetric, AggEnergyMetric}
use dcim_data_reader.Forward.Chunk.Split.{
  JsonLen, Splitting, bare, stub, flush, room_for, add_metric, add_energy, split_metrics,
  split_energy, split_device,
}

module _ (V : Type 0) (len : JsonLen V) where
  abbrev all_frags : Splitting V len → List (AggDevice V)
  all_frags s = s.frags ++ s.cur ∷ []

  -- A list `f` that the fragments carry, to which a metric adds `g` and an energy reading `h`.
  module _ {B : Type 0} (f : AggDevice V → List B) (g : AggMetric V → List B)
      (h : AggEnergyMetric V → List B)
      (f-metric : (x : AggDevice V) (m : AggMetric V)
        → f (record x { metrics = x.metrics ++ m ∷ [] }) ≡ f x ++ g m)
      (f-energy : (x : AggDevice V) (e : AggEnergyMetric V)
        → f (record x { energy_metrics = x.energy_metrics ++ e ∷ [] }) ≡ f x ++ h e)
      (f-stub : (d : AggDevice V) → f (stub V len d) ≡ []) where
    concat_map-last :
        (xs : List (AggDevice V)) (x : AggDevice V)
        → concat_map f (xs ++ x ∷ []) ≡ concat_map f xs ++ f x
    concat_map-last xs x =
        concat_map-append f xs (x ∷ []) ∙ ap (λ rest. concat_map f xs ++ rest) (append-nil (f x))

    abbrev carried : Splitting V len → List B
    carried s = concat_map f (all_frags s)

    flush-carried : (d : AggDevice V) (s : Splitting V len) → carried (flush V len d s) ≡ carried s
    unfolding flush
    flush-carried d s =
        concat_map-last (all_frags s) (stub V len d)
        ∙ ap (λ rest. carried s ++ rest) (f-stub d)
        ∙ append-nil (carried s)

    room_for-carried :
        (d : AggDevice V) (budget bytes : ℕ) (s : Splitting V len)
        → carried (room_for V len d budget bytes s) ≡ carried s
    unfolding room_for
    room_for-carried d budget bytes s = ground (arith, flush-carried d s)

    last-carried :
        (frags : List (AggDevice V)) (x y : AggDevice V) (more : List B)
        → f y ≡ f x ++ more
        → concat_map f (frags ++ y ∷ []) ≡ concat_map f (frags ++ x ∷ []) ++ more
    last-carried frags x y more e =
        concat_map-last frags y
        ∙ ap (λ rest. concat_map f frags ++ rest) e
        ∙ sym (append_assoc (concat_map f frags) (f x) more)
        ∙ ap (λ front. front ++ more) (sym (concat_map-last frags x))

    split_metrics-carried :
        (d : AggDevice V) (budget : ℕ) (ms : List (AggMetric V)) (s : Splitting V len)
        → carried (split_metrics V len d budget ms s) ≡ carried s ++ concat_map g ms
    unfolding split_metrics add_metric
    split_metrics-carried d budget [] s = sym (append-nil (carried s))
    split_metrics-carried d budget (m ∷ ms) s =
        let room = room_for V len d budget (len.metric m) s in
        split_metrics-carried d budget ms (add_metric V len m (len.metric m) room)
        ∙ ap (λ front. front ++ concat_map g ms)
            (last-carried room.frags room.cur
                (record room.cur { metrics = room.cur.metrics ++ m ∷ [] }) (g m)
                (f-metric room.cur m)
              ∙ ap (λ front. front ++ g m) (room_for-carried d budget (len.metric m) s))
        ∙ append_assoc (carried s) (g m) (concat_map g ms)

    split_energy-carried :
        (d : AggDevice V) (budget : ℕ) (es : List (AggEnergyMetric V)) (s : Splitting V len)
        → carried (split_energy V len d budget es s) ≡ carried s ++ concat_map h es
    unfolding split_energy add_energy
    split_energy-carried d budget [] s = sym (append-nil (carried s))
    split_energy-carried d budget (e ∷ es) s =
        let room = room_for V len d budget (len.energy e) s in
        split_energy-carried d budget es (add_energy V len e (len.energy e) room)
        ∙ ap (λ front. front ++ concat_map h es)
            (last-carried room.frags room.cur
                (record room.cur { energy_metrics = room.cur.energy_metrics ++ e ∷ [] }) (h e)
                (f-energy room.cur e)
              ∙ ap (λ front. front ++ h e) (room_for-carried d budget (len.energy e) s))
        ∙ append_assoc (carried s) (h e) (concat_map h es)

    split_device-carried :
        (d : AggDevice V) (budget : ℕ)
        → concat_map f (split_device V len d budget)
          ≡ f (bare V len d) ++ (concat_map g d.metrics ++ concat_map h d.energy_metrics)
    unfolding split_device
    split_device-carried d budget =
        let head : Splitting V len = record {
          frags = [];
          cur = bare V len d;
          cur_bytes = len.device (bare V len d);
        } in
        split_energy-carried d budget d.energy_metrics (split_metrics V len d budget d.metrics head)
        ∙ ap (λ front. front ++ concat_map h d.energy_metrics)
            (split_metrics-carried d budget d.metrics head
              ∙ ap (λ front. front ++ concat_map g d.metrics) (append-nil (f (bare V len d))))
        ∙ append_assoc (f (bare V len d)) (concat_map g d.metrics) (concat_map h d.energy_metrics)

  pub split_device-contents :
      (d : AggDevice V) (budget : ℕ)
      → let frags = split_device V len d budget in
        (concat_map (λ x. x.metrics) frags ≡ d.metrics)
        × (concat_map (λ x. x.energy_metrics) frags ≡ d.energy_metrics)
        × (concat_map (λ x. x.interfaces) frags ≡ d.interfaces)
  unfolding stub bare
  split_device-contents d budget = (
    split_device-carried (λ x. x.metrics) (λ m. m ∷ []) (λ e. []) (λ x m. refl)
          (λ x e. sym (append-nil x.metrics)) (λ x. refl) d budget
        ∙ rw
            (
              concat_map-single d.metrics,
              concat_map-nothing {B = AggMetric V} d.energy_metrics,
              append-nil d.metrics,
            )
            refl,
    split_device-carried (λ x. x.energy_metrics) (λ m. []) (λ e. e ∷ [])
          (λ x m. sym (append-nil x.energy_metrics)) (λ x e. refl) (λ x. refl) d budget
        ∙ rw
            (
              concat_map-single d.energy_metrics,
              concat_map-nothing {B = AggEnergyMetric V} d.metrics,
            )
            refl,
    split_device-carried (λ x. x.interfaces) (λ m. []) (λ e. [])
          (λ x m. sym (append-nil x.interfaces)) (λ x e. sym (append-nil x.interfaces)) (λ x. refl)
          d budget
        ∙ rw
            (
              concat_map-nothing {B = _} d.energy_metrics,
              concat_map-nothing {B = _} d.metrics,
              append-nil d.interfaces,
            )
            refl,
  )
