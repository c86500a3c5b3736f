-- ===== src/HotCache/Runners.antt =====
-- The runners of rust-app/src/hot_cache_bench.rs on their databases.
use event_sourcing_testbed.Common.{ℕ, ◌+◌, ◌^◌, ◌<◌, ◌≤◌, ◌≡◌, refl, String, List, [], Option, some}
use event_sourcing_testbed.Common.Result.{Result, ok, err}
use event_sourcing_testbed.Events.{BenchmarkEvent}
use event_sourcing_testbed.Kurrent.Driver.{Api}
use event_sourcing_testbed.Kurrent.Reads.{IsHonest}
use event_sourcing_testbed.Kurrent.Streams.{Holds, kurrent_log, kurrent_log-IsLog, itself}
use event_sourcing_testbed.MongoClient
use event_sourcing_testbed.MongoClient.Streams as MongoStreams
use event_sourcing_testbed.MongoClient.Streams.{mongo_log}
use event_sourcing_testbed.PostgresClient
use event_sourcing_testbed.PostgresClient.Streams as PostgresStreams
use event_sourcing_testbed.PostgresClient.Streams.{postgres_log}
use event_sourcing_testbed.HotCache.{RecentEventsCache, HotCacheConfig, run_phases}
use event_sourcing_testbed.HotCache.Coherence.{IsCoherent, run_phases-IsCoherent}

module _ (api : Api) (serialise : BenchmarkEvent → Option api.Data)
    (decode : api.Data → Option BenchmarkEvent) (clock : ℕ → ℕ) where
  unfoldable pub run_kurrentdb :
      api.Server → HotCacheConfig → Option (api.Server × Result RecentEventsCache)
  run_kurrentdb s config =
      run_phases (kurrent_log api serialise decode config.stream_name) clock config s

module _ (api : Api) (honest : IsHonest api) (serialise : BenchmarkEvent → Option api.Data)
    (decode : api.Data → Option BenchmarkEvent)
    (round_trip : (e : BenchmarkEvent) (d : api.Data) → serialise e ≡ some d → decode d ≡ some e)
    (clock : ℕ → ℕ) (config : HotCacheConfig) where
  -- The KurrentDB run of at most 2 ^ 64 events over an empty stream, with a batch of at least one event and a buffer of at
  -- least one place, ends: with an error of a write or of the read; or the stream holds the seeded
  -- events and then the live ones, in the order of their numbers, and the buffer holds the newest of
  -- them, as many as it has places.
  pub run_kurrentdb-IsCoherent :
      (s : api.Server)
      → 0 < config.seed_batch_size
      → 0 < config.cache_size
      → config.seed_events + config.live_writes ≤ 2 ^ 64
      → api.stream s config.stream_name ≡ []
      → IsCoherent
          (kurrent_log api serialise decode config.stream_name)
          clock
          itself
          (Holds api honest serialise decode round_trip clock config.stream_name)
          config
          (run_kurrentdb api serialise decode clock s config)
  unfolding run_kurrentdb
  run_kurrentdb-IsCoherent s pos room fits empty =
      run_phases-IsCoherent (kurrent_log api serialise decode config.stream_name) clock itself
        (Holds api honest serialise decode round_trip clock config.stream_name)
        (kurrent_log-IsLog api honest serialise decode round_trip clock config.stream_name) config s
        pos room fits (rw empty refl)

-- The runners for MongoDB and PostgreSQL first create and empty what they write to, by `prepare`.
abbrev pub after :
    {S A : Type 0} → S × Result (Unit {0}) → (S → Option (S × Result A)) → Option (S × Result A)
after (s, err e) run = some (s, err e)
after (s, ok u) run = run s

module _ (server : MongoClient.Server) (to_document : BenchmarkEvent → Option server.Document)
    (from_document : server.Document → Option BenchmarkEvent) (uuid : ℕ → String) (clock : ℕ → ℕ)
    (prepare : server.State → String → server.State × Result (Unit {0})) where
  unfoldable pub run_mongo :
      server.State → HotCacheConfig → Option (server.State × Result RecentEventsCache)
  run_mongo s config = after (prepare s config.stream_name) (λ s'.
      run_phases (mongo_log server to_document from_document uuid config.stream_name) clock config
        s')

module _ (server : PostgresClient.Server) (to_vec : BenchmarkEvent → List ℕ) (uuid : ℕ → String)
    (clock : ℕ → ℕ) (prepare : server.State → String → server.State × Result (Unit {0})) where
  unfoldable pub run_postgres :
      server.State → HotCacheConfig → Option (server.State × Result RecentEventsCache)
  run_postgres s config =
      after (prepare s config.stream_name)
        (λ s'. run_phases (postgres_log server to_vec uuid config.stream_name) clock config s')
