-- ===== src/Memcache.antt =====
-- rust-app/src/memcache_bench.rs: the tail of a stream in Memcached, written through. The three
-- runners have the same text, on the clients of the three databases. Timings, histograms and the
-- readiness loop are left out. A division by zero is `none`.
pub mod WriteThrough
use event_sourcing_testbed.Common.{
  ℕ, zero, suc, ◌+◌, String, List, [], ◌∷◌, ◌==◌, Option, none, some, if◌then◌else◌, add64,
}
use event_sourcing_testbed.Common.Result.{Result, ok, err, format}
use event_sourcing_testbed.Events.{BenchmarkEvent, new as new_event}
use event_sourcing_testbed.Kurrent.Driver.{Reply, done, refused}
use event_sourcing_testbed.Tail.{pushed}
use event_sourcing_testbed.Tail.Log.{Log}
use event_sourcing_testbed.Tail.Seeding.{seed}

-- the crates `memcache` and `bincode`, and the server
pub record Client : Type 1 where
  pub State : Type 0
  pub Bytes : Type 0
  pub get : State → String → Reply (Option Bytes)
  pub set : State → String → Bytes → State × Reply (Unit {0})
  pub delete : State → String → State × Reply (Unit {0})
  pub serialize : List BenchmarkEvent → Reply Bytes
  pub deserialize : Bytes → Reply (List BenchmarkEvent)

module _ (mc : Client) where
  open mc use {State, Bytes, get, set, delete, serialize, deserialize}

  -- `?` on an error of a crate
  abbrev pub or_plain : {A : Type 0} → Reply A → Result A
  or_plain (done a) = ok a
  or_plain (refused e) = err (e ∷ [])

  abbrev pub decoded : Option Bytes → Result (Option (List BenchmarkEvent))
  decoded none = ok none
  decoded (some b) = elim (or_plain (deserialize b)) [ ok tail ↦ ok (some tail) | err e ↦ err e ]

  unfoldable pub mc_get_tail : State → String → Result (Option (List BenchmarkEvent))
  mc_get_tail s key = elim (get s key) [
    | refused e ↦ err (format "mc get: " e "" ∷ [])
    | done bytes ↦ decoded bytes
  ]

  abbrev pub stored : State × Reply (Unit {0}) → State × Result (Unit {0})
  stored (s, done u) = (s, ok tt)
  stored (s, refused e) = (s, err (format "mc set: " e "" ∷ []))

  unfoldable pub mc_set_tail : State → String → List BenchmarkEvent → State × Result (Unit {0})
  mc_set_tail s key tail = elim (or_plain (serialize tail)) [
    | err e ↦ (s, err e)
    | ok bytes ↦ stored (set s key bytes)
  ]

  -- its result is ignored
  unfoldable pub mc_delete : State → String → State
  mc_delete s key = (delete s key).0

pub record MemcachedCacheConfig : Type 0 where
  pub seed_events : ℕ
  pub cache_size : ℕ
  pub live_writes : ℕ
  pub seed_batch_size : ℕ
  pub stream_name : String
  pub database : String

abbrev pub default : MemcachedCacheConfig
default = record {
  seed_events = 50000;
  cache_size = 500;
  live_writes = 500;
  seed_batch_size = 100;
  stream_name = "mc-bench";
  database = "mcbench";
}

-- `clock` is what `Utc::now()` reads when the event of a number is made.
module _ (log : Log) (mc : Client) (clock : ℕ → ℕ) (config : MemcachedCacheConfig)
    (mc_key : String) where
  -- phase 3: reads whose values are dropped
  unfoldable pub reads : ℕ → mc.State → Result (Unit {0})
  reads zero m = ok tt
  reads (suc left) m = elim (mc_get_tail mc m mc_key) [ ok t ↦ reads left m | err e ↦ err e ]

  -- phase 4, with `left` writes to go
  unfoldable pub live :
      ℕ
      → ℕ
      → log.Server
      → mc.State
      → List BenchmarkEvent
      → log.Server × mc.State × Result (Unit {0})
  live zero i s m local_tail = (s, m, ok tt)
  live (suc left) i s m local_tail =
      let seq = add64 config.seed_events i in
      let event = new_event (clock seq) seq 1 in
      let (s', written) = log.append_event s event seq in
      elim written [
        | err e ↦ (s', m, err e)
        | ok u ↦
            let local_tail' = pushed config.cache_size local_tail event in
            let (m', set) = mc_set_tail mc m mc_key local_tail' in
            elim set [ err e ↦ (s', m', err e) | ok u ↦ live left (i + 1) s' m' local_tail' ]
      ]

  -- phases 2 to 4
  unfoldable pub serve :
      log.Server
      → mc.State
      → Result (List BenchmarkEvent)
      → log.Server × mc.State × Result (Unit {0})
  unfolding live reads
  serve s m (err e) = (s, m, err e)
  serve s m (ok tail_events) =
      let (m', set) = mc_set_tail mc m mc_key tail_events in
      elim set [
        | err e ↦ (s, m', err e)
        | ok u ↦ elim (reads 1000 m') [
          | err e ↦ (s, m', err e)
          | ok u ↦ live config.live_writes 0 s m' tail_events
        ]
      ]

  -- `prepare` creates and empties the collection or the table; for KurrentDB it does nothing.
  unfoldable pub run :
      (log.Server → log.Server × Result (Unit {0}))
      → log.Server
      → mc.State
      → Option (log.Server × mc.State × Result (Unit {0}))
  unfolding serve
  run prepare s m =
      let m' = mc_delete mc m mc_key in
      let (s', set_up) = prepare s in
      elim set_up [
        | err e ↦ some (s', m', err e)
        | ok u ↦
            if config.seed_batch_size == 0
            then none
            else (let (s'', seeded) = seed log clock config.seed_batch_size config.seed_events s' in
                elim seeded [
                  | err e ↦ some (s'', m', err e)
                  | ok u ↦ some (serve s'' m' (log.read_last s'' config.cache_size))
                ])
      ]
