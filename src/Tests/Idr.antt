-- ===== src/Tests/Idr.antt =====
-- The theorems on the host agent's queue at a bucket that is a list and packets of two bytes
-- (fwIDR/internal/queue/queue.go, fwIDR/internal/publisher/publisher.go).
use dcim_data_reader.Prelude.{ℕ, ◌≡◌, refl, arith, Bool, true, false, List, [], ◌∷◌, length, ok}
use dcim_data_reader.Queue.{evict_oldest_non_critical}
use dcim_data_reader.Queue.Bbolt.{without}
use dcim_data_reader.Idr.Queue.{Queue, push, pop}
use dcim_data_reader.Idr.Publisher.{drain}
use dcim_data_reader.Idr.Publisher.Laws.{Represents}
use dcim_data_reader.Idr.Publisher.Refines.{Specifies, adds, takes, queue-refines_list}
use dcim_data_reader.Idr.Publisher.Drain.{all_sent, drain-all_sent, drain-blocked}
use dcim_data_reader.Tests.Queue.{ListBucket, list_bolt, two_bytes, two_bytes_law}

-- A byte in use for each entry.
abbrev in_use : ListBucket → ℕ
in_use b = length b.stored

abbrev TestQueue : Type 0
TestQueue = Queue two_bytes list_bolt in_use

abbrev nothing_stored : TestQueue
nothing_stored = record { bucket = record { stored = []; last = 0 }; max_bytes = 1 }

abbrev critical_stored : TestQueue
critical_stored = record {
  bucket = record { stored = (1, 1 ∷ 7 ∷ []) ∷ []; last = 1 };
  max_bytes = 1;
}

-- The second critical packet has taken the place of the first.
abbrev replaced : TestQueue
replaced = record { bucket = record { stored = (2, 1 ∷ 8 ∷ []) ∷ []; last = 2 }; max_bytes = 1 }

abbrev left_empty : TestQueue
left_empty = record { bucket = record { stored = []; last = 2 }; max_bytes = 1 }

abbrev two_waiting : TestQueue
two_waiting = record {
  bucket = record { stored = (1, 1 ∷ 7 ∷ []) ∷ (2, 0 ∷ 8 ∷ []) ∷ []; last = 2 };
  max_bytes = 4;
}

-- One byte is no packet.
abbrev corrupted : TestQueue
corrupted = record {
  bucket = record { stored = (1, 1 ∷ []) ∷ (2, 1 ∷ 8 ∷ []) ∷ []; last = 2 };
  max_bytes = 4;
}

first_push : push two_bytes list_bolt in_use (true, 7) nothing_stored ≡ ok critical_stored
unfolding push
first_push = refl

second_push : push two_bytes list_bolt in_use (true, 8) critical_stored ≡ ok replaced
unfolding push evict_oldest_non_critical
second_push = refl

only_pop : pop two_bytes list_bolt in_use replaced ≡ ok ((true, 8), left_empty)
unfolding pop
only_pop = refl

queue-refines_list_example :
    (ps' : List (Bool × ℕ)) × Represents two_bytes list_bolt in_use ps' left_empty.bucket
    × Specifies two_bytes list_bolt in_use
        (adds (true, 7) ∷ adds (true, 8) ∷ takes (true, 8) ∷ [])
        []
        ps'
queue-refines_list_example =
    queue-refines_list two_bytes list_bolt in_use
      (adds (true, 7) ∷ adds (true, 8) ∷ takes (true, 8) ∷ []) [] nothing_stored left_empty
      two_bytes_law (record { stored = tt; below = tt; ascending = tt })
      (critical_stored, first_push, (replaced, second_push, (left_empty, only_pop, refl)))

drain-all_sent_example :
    ((drain two_bytes list_bolt in_use (all_sent 3) two_waiting).0 ≡ (true, 7) ∷ (false, 8) ∷ [])
    × Represents two_bytes list_bolt in_use []
        ((drain two_bytes list_bolt in_use (all_sent 3) two_waiting).1).bucket
drain-all_sent_example =
    drain-all_sent two_bytes list_bolt in_use 3 ((true, 7) ∷ (false, 8) ∷ []) two_waiting
      (λ b k. (record b { stored = without k b.stored }, refl))
      (record {
        stored = (refl, (refl, tt));
        below = (omega arith, (omega arith, tt));
        ascending = ((omega arith, tt), (tt, tt));
      })
      (omega arith)

drain-blocked_example :
    drain two_bytes list_bolt in_use (true ∷ false ∷ true ∷ []) corrupted ≡ ([], corrupted)
drain-blocked_example =
    drain-blocked two_bytes list_bolt in_use (true ∷ false ∷ true ∷ []) corrupted 1 (1 ∷ [])
      ((2, 1 ∷ 8 ∷ []) ∷ []) refl refl
