-- ===== src/Tail/Log.antt =====
-- A stream of benchmark events as the runners of rust-app/src/hot_cache_bench.rs and
-- rust-app/src/memcache_bench.rs use it, whatever the database; and what they rely on.
use event_sourcing_testbed.Common.{
  ℕ, zero, suc, ◌+◌, ◌-◌, ◌<◌, ◌≡◌, List, [], ◌∷◌, ◌++◌, map, length, drop,
}
use event_sourcing_testbed.Common.Result.{Result, ok}
use event_sourcing_testbed.Events.{BenchmarkEvent, new as new_event}

-- `(0..n).map(|i| BenchmarkEvent::new(base + i, task_id))`; `clock` is what `Utc::now()` reads when
-- the event of a number is made.
unfoldable pub events : (ℕ → ℕ) → ℕ → ℕ → ℕ → List BenchmarkEvent
events clock task_id base zero = []
events clock task_id base (suc n) =
    new_event (clock base) base task_id ∷ events clock task_id (base + 1) n

pub record Log : Type 1 where
  pub Server : Type 0
  -- a batch, with the number of its first event and its task
  pub append_batch : Server → List BenchmarkEvent → ℕ → ℕ → Server × Result (Unit {0})
  -- one event, with its number
  pub append_event : Server → BenchmarkEvent → ℕ → Server × Result (Unit {0})
  pub read_last : Server → ℕ → Result (List BenchmarkEvent)

-- What the runners rely on; `Holds s ks` says that the stream holds events that show `ks`, in order.
pub record IsLog (log : Log) (clock : ℕ → ℕ) {K : Type 0} (key : BenchmarkEvent → K)
    (Holds : log.Server → List K → Type 0) : Type 0 where
  pub batch_held :
      (s : log.Server) (ks : List K) (base n : ℕ)
      → 0 < n
      → Holds s ks
      → (log.append_batch s (events clock 0 base n) base 0).1 ≡ ok tt
      → Holds
          (log.append_batch s (events clock 0 base n) base 0).0
          (ks ++ map key (events clock 0 base n))
  pub event_held :
      (s : log.Server) (ks : List K) (seq : ℕ)
      → let event = new_event (clock seq) seq 1 in
        Holds s ks
        → (log.append_event s event seq).1 ≡ ok tt
        → Holds (log.append_event s event seq).0 (ks ++ key event ∷ [])
  pub last_read :
      (s : log.Server) (ks : List K) (n : ℕ) (es : List BenchmarkEvent)
      → Holds s ks
      → log.read_last s n ≡ ok es
      → map key es ≡ drop (length ks - n) ks
