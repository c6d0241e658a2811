-- ===== src/Forward/Gate.antt =====
-- The idle back-off of the forwarder's queries (fwDCS/internal/forwarder/forwarder.go): pollGate,
-- shouldPoll, recordPoll, and the limits that New takes from the configuration.
pub mod Laws
use dcim_data_reader.Prelude.{
  ℕ, suc, ◌+◌, ◌-◌, ◌/◌, ◌*◌, Bool, true, false, Option, none, some, List, String, str_append, ltb,
  if◌then◌else◌, ◌==◌,
}
use dcim_data_reader.Prelude.Dict.{lookup, insert}
use dcim_data_reader.Forward.Scope.{AggregatorConfig}

pub record PollGate : Type 0 where
  pub misses : ℕ
  pub skip_left : ℕ

abbrev pub Gates : Type 0
Gates = List (String × PollGate)

unfoldable pub interval_of : AggregatorConfig → ℕ
interval_of cfg = if ltb 0 cfg.interval_ms then cfg.interval_ms else 5000

-- maxIdleSkips
unfoldable pub max_idle_skips : AggregatorConfig → ℕ
unfolding interval_of
max_idle_skips cfg =
    let interval = interval_of cfg in
    if ltb interval cfg.idle_interval_ms then cfg.idle_interval_ms / interval - 1 else 0

-- The debounce, in milliseconds.
unfoldable pub debounce_of : AggregatorConfig → ℕ
debounce_of cfg = if ltb 0 cfg.event_debounce_ms then cfg.event_debounce_ms else 300

unfoldable pub gate_key : String → String → String
gate_key table net_id = str_append table (str_append "|" net_id)

-- `f.gates[key]`, a new gate where it is nil.
unfoldable pub or_new : Option PollGate → PollGate
or_new none = record { misses = 0; skip_left = 0 }
or_new (some g) = g

module _ (max_skips : ℕ) (table net_id : String) where
  unfoldable pub should_poll : Gates → Bool × Gates
  unfolding gate_key or_new
  should_poll gates =
      let key = gate_key table net_id in
      let g = or_new (lookup key gates) in
      if max_skips == 0
      then (true, gates)
      else if ltb 0 g.skip_left
      then (false, insert key (record g { skip_left = g.skip_left - 1 }) gates)
      else (true, insert key g gates)

  unfoldable pub after_poll : Bool → PollGate → PollGate
  after_poll found g =
      let misses = suc g.misses in
      if found then record { misses = 0; skip_left = 0 } else record {
        misses = misses;
        skip_left = if ltb max_skips misses then max_skips else misses;
      }

  unfoldable pub record_poll : Bool → Gates → Gates
  unfolding gate_key or_new after_poll
  record_poll found gates =
      let key = gate_key table net_id in
      if max_skips == 0
      then gates
      else insert key (after_poll found (or_new (lookup key gates))) gates
