-- ===== src/HotCache.antt =====
-- rust-app/src/hot_cache_bench.rs: the ring buffer of recent events, and the runners: the stream is
-- seeded in batches, the buffer is filled by one read, and live writes go to the stream and then to
-- the buffer. Timings, histograms and the readiness loop are left out. A division by
-- zero is `none`.
pub mod Ring
pub mod Coherence
pub mod Runners
use event_sourcing_testbed.Common.{
  ℕ, zero, suc, ◌+◌, ◌*◌, ◌/◌, ◌%◌, ◌^◌, ◌==◌, ltb, String, List, [], ◌∷◌, ◌++◌, Option, none, some,
  Bool, true, false, if◌then◌else◌, length, add64,
}
use event_sourcing_testbed.Common.Result.{Result, ok, err, ◌>>=◌}
use event_sourcing_testbed.Events.{BenchmarkEvent, new as new_event}
use event_sourcing_testbed.Tail.{pushed}
use event_sourcing_testbed.Tail.Log.{Log}
use event_sourcing_testbed.Tail.Seeding.{seed}

pub record RecentEventsCache : Type 0 where
  pub inner : List BenchmarkEvent
  pub capacity : ℕ

abbrev pub new : ℕ → RecentEventsCache
new capacity = record { inner = []; capacity = capacity }

unfoldable pub push : RecentEventsCache → BenchmarkEvent → RecentEventsCache
push cache event = record cache { inner = pushed cache.capacity cache.inner event }

abbrev pub snapshot : RecentEventsCache → List BenchmarkEvent
snapshot cache = cache.inner

abbrev pub len : RecentEventsCache → ℕ
len cache = length cache.inner

-- `for ev in initial_events { cache.push(ev) }`
pub push_all : RecentEventsCache → List BenchmarkEvent → RecentEventsCache
push_all cache [] = cache
push_all cache (e ∷ es) = push_all (push cache e) es

pub record HotCacheConfig : Type 0 where
  pub seed_events : ℕ
  pub cache_size : ℕ
  pub live_writes : ℕ
  pub seed_batch_size : ℕ
  pub database : String
  pub stream_name : String

abbrev pub default : HotCacheConfig
default = record {
  seed_events = 50000;
  cache_size = 500;
  live_writes = 500;
  seed_batch_size = 100;
  database = "hotcache";
  stream_name = "hot-cache";
}

-- The phases, which the three runners share. `clock` is what `Utc::now()` reads when the event of a
-- number is made.
module _ (log : Log) (clock : ℕ → ℕ) (config : HotCacheConfig) where
  -- phase 4, with `left` writes to go
  unfoldable pub live :
      ℕ → ℕ → log.Server → RecentEventsCache → log.Server × Result RecentEventsCache
  unfolding push
  live zero i s cache = (s, ok cache)
  live (suc left) i s cache =
      let seq = add64 config.seed_events i in
      let event = new_event (clock seq) seq 1 in
      let (s', written) = log.append_event s event seq in
      elim written [ ok u ↦ live left (i + 1) s' (push cache event) | err e ↦ (s', err e) ]

  -- phase 2, and phase 4 with what it has loaded
  unfoldable pub serve :
      log.Server → Result (List BenchmarkEvent) → log.Server × Result RecentEventsCache
  unfolding live push_all
  serve s (err e) = (s, err e)
  serve s (ok initial_events) =
      live config.live_writes 0 s (push_all (new config.cache_size) initial_events)

  -- the server and the cache when the run ends
  unfoldable pub run_phases : log.Server → Option (log.Server × Result RecentEventsCache)
  unfolding serve
  run_phases s =
      if config.seed_batch_size == 0
      then none
      else (let (s', seeded) = seed log clock config.seed_batch_size config.seed_events s in
          elim seeded [
            | err e ↦ some (s', err e)
            | ok u ↦ some (serve s' (log.read_last s' config.cache_size))
          ])
