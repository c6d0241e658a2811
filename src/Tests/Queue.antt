-- ===== src/Tests/Queue.antt =====
-- The queue's theorems at a bucket that is a list and packets of two bytes
-- (fwEDR/internal/queue/queue.go).
use mathlib.Core.Option.{some-injective}
use dcim_data_reader.Prelude.{
  ℕ, suc, ◌+◌, ◌<◌, ◌≡◌, refl, sym, ap, ◌∙◌, arith, Bool, true, false, List, [], ◌∷◌, ◌++◌, Option,
  none, some, ltb, leb, ◌==◌, if◌then◌else◌, drop,
}
use dcim_data_reader.Queue.{
  Codec, Queue, ok, err, full, push, push_batch, pop_batch, total_bytes, evict_oldest_non_critical,
}
use dcim_data_reader.Queue.Bbolt.{Bolt, AllBelow, without}
use dcim_data_reader.Queue.Laws.{IsSound, push_batch-IsSound}
use dcim_data_reader.Queue.Laws.Order.{
  contents, marshalled_size, push_batch-contents, pop_batch-contents,
}
use dcim_data_reader.Queue.Laws.Severity.{push_evicts_oldest}
use dcim_data_reader.Publisher.{
  PublisherConfig, Publisher, new_publisher, with_defaults, send_batch,
}
use dcim_data_reader.Publisher.Gate.{record_all, streak, record_all-new_publisher}
use dcim_data_reader.Publisher.Requeue.{send_batch-pop_batch, send_batch_full}

pub record ListBucket : Type 0 where
  pub stored : List (ℕ × List ℕ)
  pub last : ℕ

-- Put in a sorted list.
abbrev pub place : ℕ → List ℕ → List (ℕ × List ℕ) → List (ℕ × List ℕ)
place n v [] = (n, v) ∷ []
place n v ((key, value) ∷ rest) =
    let later = place n v rest in
    if ltb key n
    then (key, value) ∷ later
    else if key == n
    then (n, v) ∷ rest
    else (n, v) ∷ (key, value) ∷ rest

place_above :
    (n : ℕ) (v : List ℕ) (es : List (ℕ × List ℕ)) → AllBelow n es → place n v es ≡ es ++ (n, v) ∷ []
place_above n v [] h = refl
place_above n v ((key, value) ∷ rest) h = ground (arith, place_above n v rest h.1)

pub next_sequence_lem :
    (b b' : ListBucket) (n : ℕ)
    → ◌≡◌ {A = ℕ × ListBucket} (suc b.last, record b { last = suc b.last }) (n, b')
    → (n ≡ suc b.last) × (b'.last ≡ n) × (b'.stored ≡ b.stored)
next_sequence_lem b b' n e = (cc e, cc e, cc e)

pub put_lem :
    (b b' : ListBucket) (n : ℕ) (v : List ℕ)
    → record b { stored = place n v b.stored } ≡ b'
    → AllBelow n b.stored
    → (b'.last ≡ b.last) × (b'.stored ≡ b.stored ++ (n, v) ∷ [])
put_lem b b' n v e below =
    (sym (ap (λ b. b.last) e), sym (ap (λ b. b.stored) e) ∙ place_above n v b.stored below)

pub delete_lem :
    (b b' : ListBucket) (n : ℕ)
    → record b { stored = without n b.stored } ≡ b'
    → (b'.last ≡ b.last) × (b'.stored ≡ without n b.stored)
delete_lem b b' n e = (cc e, cc e)

abbrev pub list_bolt : Bolt
list_bolt = record {
  Bucket = ListBucket;
  entries = λ b. b.stored;
  sequence = λ b. b.last;
  put = λ n v b. some (record b { stored = place n v b.stored });
  delete = λ n b. some (record b { stored = without n b.stored });
  next_sequence = λ b. some (suc b.last, record b { last = suc b.last });
  next_sequence_gives = λ b b' n e. next_sequence_lem b b' n (some-injective _ _ e);
  put_appends = λ b b' n v e below. put_lem b b' n v (some-injective _ _ e) below;
  delete_removes = λ b b' n e. delete_lem b b' n (some-injective _ _ e);
}

abbrev pub read : List ℕ → Option (Bool × ℕ)
read [] = none
read (kind ∷ []) = none
read (kind ∷ body ∷ rest) = some (kind == 1, body)

-- Whether a packet is critical, and its body.
abbrev pub two_bytes : Codec
two_bytes = record {
  Packet = Bool × ℕ;
  severity = λ (urgent, body). if urgent then "critical" else "info";
  marshal = λ (urgent, body). some ((if urgent then 1 else 0) ∷ body ∷ []);
  unmarshal = read;
  json_severity = λ bytes. "";
}

abbrev pub two_bytes_law :
    (p : Bool × ℕ) (bytes : List ℕ)
    → two_bytes.marshal p ≡ some bytes
    → two_bytes.unmarshal bytes ≡ some p
two_bytes_law (true, body) bytes e = ap read (sym (some-injective _ _ e))
two_bytes_law (false, body) bytes e = ap read (sym (some-injective _ _ e))

abbrev TestQueue : Type 0
TestQueue = Queue two_bytes list_bolt

-- Room for two packets, and what pushes make of it.
abbrev none_stored : TestQueue
none_stored = record { bucket = record { stored = []; last = 0 }; max_bytes = 4; used_bytes = 0 }

abbrev one_stored : TestQueue
one_stored = record {
  bucket = record { stored = (1, 1 ∷ 7 ∷ []) ∷ []; last = 1 };
  max_bytes = 4;
  used_bytes = 2;
}

abbrev two_stored : TestQueue
two_stored = record {
  bucket = record { stored = (1, 1 ∷ 7 ∷ []) ∷ (2, 1 ∷ 8 ∷ []) ∷ []; last = 2 };
  max_bytes = 4;
  used_bytes = 4;
}

-- Both packets are critical, and the older one has gone.
abbrev evicted : TestQueue
evicted = record {
  bucket = record { stored = (2, 1 ∷ 8 ∷ []) ∷ (3, 1 ∷ 9 ∷ []) ∷ []; last = 3 };
  max_bytes = 4;
  used_bytes = 4;
}

none_stored-IsSound : IsSound two_bytes list_bolt none_stored.bucket 0
unfolding total_bytes
none_stored-IsSound = record { below = tt; ascending = tt; counted = omega arith }

two_stored-IsSound : IsSound two_bytes list_bolt two_stored.bucket 4
unfolding total_bytes
two_stored-IsSound = record {
  below = (omega arith, (omega arith, tt));
  ascending = ((omega arith, tt), (tt, tt));
  counted = omega arith;
}

push_one : push_batch two_bytes list_bolt ((true, 7) ∷ []) none_stored ≡ ok one_stored
unfolding push_batch
push_one = refl

push_third : push two_bytes list_bolt (true, 9) two_stored ≡ ok evicted
unfolding push evict_oldest_non_critical
push_third = refl

abbrev second_stored : TestQueue
second_stored = record {
  bucket = record { stored = (2, 1 ∷ 8 ∷ []) ∷ []; last = 2 };
  max_bytes = 4;
  used_bytes = 2;
}

pop_one : pop_batch two_bytes list_bolt 1 two_stored ≡ ok ((true, 7) ∷ [], second_stored)
unfolding pop_batch
pop_one = refl

room : 0 + marshalled_size two_bytes list_bolt ((true, 7) ∷ []) < 4
unfolding marshalled_size
room = omega arith

push_batch-IsSound_example : IsSound two_bytes list_bolt one_stored.bucket 2
push_batch-IsSound_example =
    push_batch-IsSound two_bytes list_bolt ((true, 7) ∷ []) none_stored one_stored
      none_stored-IsSound push_one

push_batch-contents_example :
    contents two_bytes list_bolt one_stored
    ≡ contents two_bytes list_bolt none_stored ++ (true, 7) ∷ []
push_batch-contents_example =
    push_batch-contents two_bytes list_bolt ((true, 7) ∷ []) none_stored one_stored two_bytes_law
      none_stored-IsSound room push_one

pop_batch-contents_example :
    (contents two_bytes list_bolt two_stored
      ≡ ((true, 7) ∷ []) ++ contents two_bytes list_bolt second_stored)
    × (second_stored.bucket.stored ≡ drop 1 two_stored.bucket.stored)
pop_batch-contents_example =
    pop_batch-contents two_bytes list_bolt 0 two_stored second_stored ((true, 7) ∷ [])
      two_stored-IsSound pop_one

push_evicts_oldest_example :
    (seq : ℕ) × (bytes : List ℕ) × (some (1 ∷ 9 ∷ []) ≡ some bytes)
    × (evicted.bucket.stored ≡ ((2, 1 ∷ 8 ∷ []) ∷ []) ++ (seq, bytes) ∷ [])
push_evicts_oldest_example =
    push_evicts_oldest two_bytes list_bolt (true, 9) 1 (1 ∷ 7 ∷ []) ((2, 1 ∷ 8 ∷ []) ∷ [])
      two_stored evicted two_stored-IsSound (omega arith) refl refl push_third

abbrev no_config : PublisherConfig
no_config = record {
  batch_size = 0;
  flush_interval_ms = 0;
  max_in_flight = 0;
  dcs_down_after = 2;
  dcs_probe_interval_ms = 0;
}

abbrev a_publisher : Publisher two_bytes list_bolt
a_publisher = record {
  queue = two_stored;
  cfg = no_config;
  gate = some false;
  fail_streak = 0;
  in_flight = [];
}

abbrev outcomes : List Bool
outcomes = true ∷ false ∷ false ∷ []

record_all-new_publisher_example :
    (record_all two_bytes list_bolt outcomes
      (new_publisher two_bytes list_bolt two_stored no_config (some false))).gate
    ≡ some (leb (with_defaults no_config).dcs_down_after (streak 0 outcomes))
record_all-new_publisher_example =
    record_all-new_publisher two_bytes list_bolt outcomes two_stored no_config

-- A bound that leaves room for three packets, and one that leaves none.
abbrev roomy : TestQueue
roomy = record {
  bucket = record { stored = (1, 0 ∷ 7 ∷ []) ∷ (2, 1 ∷ 8 ∷ []) ∷ []; last = 2 };
  max_bytes = 9;
  used_bytes = 4;
}

roomy-IsSound : IsSound two_bytes list_bolt roomy.bucket 4
unfolding total_bytes
roomy-IsSound = record {
  below = (omega arith, (omega arith, tt));
  ascending = ((omega arith, tt), (tt, tt));
  counted = omega arith;
}

abbrev popped_roomy : TestQueue
popped_roomy = record {
  bucket = record { stored = (2, 1 ∷ 8 ∷ []) ∷ []; last = 2 };
  max_bytes = 9;
  used_bytes = 2;
}

abbrev requeued_roomy : TestQueue
requeued_roomy = record {
  bucket = record { stored = (2, 1 ∷ 8 ∷ []) ∷ (3, 0 ∷ 7 ∷ []) ∷ []; last = 3 };
  max_bytes = 9;
  used_bytes = 4;
}

pop_roomy : pop_batch two_bytes list_bolt 1 roomy ≡ ok ((false, 7) ∷ [], popped_roomy)
unfolding pop_batch
pop_roomy = refl

push_roomy : push_batch two_bytes list_bolt ((false, 7) ∷ []) popped_roomy ≡ ok requeued_roomy
unfolding push_batch
push_roomy = refl

room_roomy : 2 + marshalled_size two_bytes list_bolt ((false, 7) ∷ []) < 9
unfolding marshalled_size
room_roomy = omega arith

send_batch-pop_batch_example :
    (contents two_bytes list_bolt roomy
      ≡ ((false, 7) ∷ []) ++ contents two_bytes list_bolt popped_roomy)
    × (contents two_bytes list_bolt
          (send_batch two_bytes list_bolt false
            ((false, 7) ∷ [])
            (record a_publisher { queue = popped_roomy })).queue
        ≡ contents two_bytes list_bolt popped_roomy ++ ((false, 7) ∷ []))
send_batch-pop_batch_example =
    send_batch-pop_batch two_bytes list_bolt 0 (record a_publisher { queue = roomy }) popped_roomy
      requeued_roomy ((false, 7) ∷ []) two_bytes_law roomy-IsSound pop_roomy room_roomy push_roomy

-- The bytes in use are more than the bound even after the pop.
abbrev narrow : TestQueue
narrow = record {
  bucket = record { stored = (1, 0 ∷ 7 ∷ []) ∷ (2, 1 ∷ 8 ∷ []) ∷ []; last = 2 };
  max_bytes = 1;
  used_bytes = 4;
}

abbrev popped_narrow : TestQueue
popped_narrow = record {
  bucket = record { stored = (2, 1 ∷ 8 ∷ []) ∷ []; last = 2 };
  max_bytes = 1;
  used_bytes = 2;
}

pop_narrow : pop_batch two_bytes list_bolt 1 narrow ≡ ok ((false, 7) ∷ [], popped_narrow)
unfolding pop_batch
pop_narrow = refl

push_narrow : push_batch two_bytes list_bolt ((false, 7) ∷ []) popped_narrow ≡ err full
unfolding push_batch
push_narrow = refl

send_batch_full_example :
    contents two_bytes list_bolt narrow
    ≡ ((false, 7) ∷ [])
      ++ contents two_bytes list_bolt
          (send_batch two_bytes list_bolt false
            ((false, 7) ∷ [])
            (record a_publisher { queue = popped_narrow })).queue
send_batch_full_example =
    send_batch_full two_bytes list_bolt 0 (record a_publisher { queue = narrow }) popped_narrow
      ((false, 7) ∷ []) full roomy-IsSound pop_narrow push_narrow
