-- ===== src/Examples/Runs.antt =====
-- Runs on the server in memory.
use event_sourcing_testbed.Common.{
  ℕ, ◌+◌, ◌-◌, ◌≡◌, refl, inl, String, List, [], ◌∷◌, Option, none, some, map, arith, str_eq,
  if◌then◌else◌, length, drop,
}
use event_sourcing_testbed.Events.{BenchmarkEvent}
use event_sourcing_testbed.Inventory.{InventoryState, SnapshotEnvelope, apply_all, apply, counted}
use event_sourcing_testbed.Kurrent.{
  triple, append, append_batch, read_stream_events, read_stream_from_revision, read_last_event,
  read_last_n_bench_events,
}
use event_sourcing_testbed.Kurrent.Driver.{Reply, done, Recorded}
use event_sourcing_testbed.Kurrent.Reads.{
  decoded, read_stream_events_exact, read_stream_from_revision_exact,
  read_last_n_bench_events_exact,
}
use event_sourcing_testbed.Kurrent.Appends.{Grown, GrownBatch, append_exact, append_batch_exact}
use event_sourcing_testbed.Snapshot.Codec.{Inputs, IsFaithful}
use event_sourcing_testbed.Snapshot.{rehydrate}
use event_sourcing_testbed.Snapshot.Rehydration.{rehydrate-replay, replay}
use event_sourcing_testbed.Snapshot.Outcome
use event_sourcing_testbed.HotCache.{HotCacheConfig}
use event_sourcing_testbed.HotCache.Coherence.{IsCoherent}
use event_sourcing_testbed.HotCache.Runners.{run_kurrentdb, run_kurrentdb-IsCoherent}
use event_sourcing_testbed.Kurrent.Streams.{Holds, kurrent_log, itself}
use event_sourcing_testbed.Examples.Server.{
  Payload, with_quantity, empty, snapshot_of, bench, Streams, no_streams, memory, memory_IsHonest,
  main_ne_snapshots,
}

abbrev quantity_of : Payload → Option ℕ
quantity_of (with_quantity q) = some q
quantity_of empty = none
quantity_of (snapshot_of e) = none
quantity_of (bench b) = none

abbrev snapshot_in : Payload → Option SnapshotEnvelope
snapshot_in (with_quantity q) = none
snapshot_in empty = none
snapshot_in (snapshot_of e) = some e
snapshot_in (bench b) = none

abbrev bench_in : Payload → Option BenchmarkEvent
bench_in (with_quantity q) = none
bench_in empty = none
bench_in (snapshot_of e) = none
bench_in (bench b) = some b

abbrev inputs : Inputs memory
inputs = record {
  Price = ℕ;
  quantity = quantity_of;
  json_quantity = with_quantity;
  json_empty = empty;
  added = λ e. done (with_quantity e.quantity);
  price_updated = λ e. done empty;
  removed = λ e. done (with_quantity e.quantity);
  encode_snapshot = λ e. some (snapshot_of e);
  decode_snapshot = snapshot_in;
  draw = λ i. i + 2;
  item_id = λ i. "item";
  sku = λ i. "sku";
  price = λ i. i;
  raised_price = λ p. p + 1;
  clock = λ i. i;
}

inputs_IsFaithful : IsFaithful inputs
inputs_IsFaithful = record {
  json_quantity = λ q. refl;
  added = λ e d h. encoded e.quantity d h;
  price_updated = λ e d h. (d, refl);
  removed = λ e d h. encoded e.quantity d h;
  snapshot = λ e d h. snapshot_kept e d h;
}
  where
    encoded :
        (q : ℕ) (d : Payload)
        → ◌≡◌ {A = Reply Payload} (done (with_quantity q)) (done d)
        → (v : Payload) × (◌≡◌ {A = Option Payload} (some d) (some v)) × (quantity_of v ≡ some q)
    encoded q d h = let same : with_quantity q ≡ d = cc h in (d, refl, rw (← same) refl)

    snapshot_kept :
        (e : SnapshotEnvelope) (d : Payload)
        → ◌≡◌ {A = Option Payload} (some (snapshot_of e)) (some d)
        → (v : Payload) × (◌≡◌ {A = Option Payload} (some d) (some v)) × (snapshot_in v ≡ some e)
    snapshot_kept e d h = let same : snapshot_of e ≡ d = cc h in (d, refl, rw (← same) refl)

run-Outcome_example :
    Outcome.Outcome memory inputs memory_IsHonest inputs_IsFaithful "main" "snapshots"
      main_ne_snapshots 5 2 no_streams
run-Outcome_example =
    Outcome.run-Outcome memory inputs memory_IsHonest inputs_IsFaithful "main" "snapshots"
      main_ne_snapshots 5 2 no_streams refl refl (omega arith) (omega arith)

abbrev added_five : Recorded Payload
added_five = record { event_type = "ItemAdded"; revision = 0; data' = with_quantity 5 }

abbrev removed_two : Recorded Payload
removed_two = record { event_type = "ItemRemoved"; revision = 1; data' = with_quantity 2 }

abbrev two_events : Streams
two_events name = if str_eq name "main" then added_five ∷ removed_two ∷ [] else []

abbrev after_two : InventoryState
after_two = record {
  total_stock = 3;
  total_added = 1;
  total_price_updates = 0;
  total_removals = 1;
  at_revision = 1;
}

rehydrate-replay_example :
    (after_two ≡ replay memory inputs two_events "main") × (2 ≡ length (two_events "main") - 0)
unfolding rehydrate read_last_event read_stream_from_revision apply_all apply counted
rehydrate-replay_example =
    rehydrate-replay memory inputs memory_IsHonest two_events "main" "snapshots" 0 after_two 2
      (inl (refl, refl)) refl

abbrev config : HotCacheConfig
config = record {
  seed_events = 3;
  cache_size = 2;
  live_writes = 1;
  seed_batch_size = 2;
  database = "hotcache";
  stream_name = "hot-cache";
}

round_trip :
    (e : BenchmarkEvent) (d : Payload)
    → ◌≡◌ {A = Option Payload} (some (bench e)) (some d)
    → bench_in d ≡ some e
round_trip e d h = let same : bench e ≡ d = cc h in rw (← same) refl

run_kurrentdb-IsCoherent_example :
    IsCoherent
      (kurrent_log memory (λ e. some (bench e)) bench_in "hot-cache")
      (λ i. i)
      itself
      (Holds memory memory_IsHonest (λ e. some (bench e)) bench_in round_trip (λ i. i) "hot-cache")
      config
      (run_kurrentdb memory (λ e. some (bench e)) bench_in (λ i. i) no_streams config)
run_kurrentdb-IsCoherent_example =
    run_kurrentdb-IsCoherent memory memory_IsHonest (λ e. some (bench e)) bench_in round_trip
      (λ i. i) config no_streams (omega arith) (omega arith) (omega arith) refl

abbrev two_triples : List (String × ℕ × Payload)
two_triples = ("ItemAdded", 0, with_quantity 5) ∷ ("ItemRemoved", 1, with_quantity 2) ∷ []

read_stream_events_exact_example : two_triples ≡ map (triple memory) (two_events "main")
unfolding read_stream_events
read_stream_events_exact_example =
    read_stream_events_exact memory memory_IsHonest two_events "main" two_triples refl

read_stream_from_revision_exact_example :
    ("ItemRemoved", 1, with_quantity 2) ∷ [] ≡ map (triple memory) (drop 1 (two_events "main"))
unfolding read_stream_from_revision
read_stream_from_revision_exact_example =
    read_stream_from_revision_exact memory memory_IsHonest two_events "main" 1
      (("ItemRemoved", 1, with_quantity 2) ∷ []) refl

read_last_n_bench_events_exact_example :
    2 ∷ [] ≡ decoded memory quantity_of (drop (length (two_events "main") - 1) (two_events "main"))
unfolding read_last_n_bench_events
read_last_n_bench_events_exact_example =
    read_last_n_bench_events_exact memory quantity_of memory_IsHonest two_events "main" 1 (2 ∷ [])
      refl

append_exact_example :
    (d : Payload) × (some (with_quantity 7) ≡ some d)
    × Grown memory two_events
        (append memory (λ q. some (with_quantity q)) two_events "main" "ItemAdded" 7).0
        "main"
        "ItemAdded"
        d
        2
unfolding append
append_exact_example =
    append_exact memory memory_IsHonest.laws (λ q. some (with_quantity q)) two_events "main"
      "ItemAdded" 7 2 refl

append_batch_exact_example :
    GrownBatch memory memory_IsHonest.laws
      (λ q. some (with_quantity q))
      two_events
      (append_batch memory
        (λ q. some (with_quantity q))
        two_events
        "main"
        "ItemAdded"
        (7 ∷ 8 ∷ [])).0
      "main"
      "ItemAdded"
      (7 ∷ 8 ∷ [])
      3
unfolding append_batch
append_batch_exact_example =
    append_batch_exact memory memory_IsHonest.laws (λ q. some (with_quantity q)) two_events "main"
      "ItemAdded" 7 (8 ∷ []) 3 refl
