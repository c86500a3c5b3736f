-- ===== src/HotCache/Coherence.antt =====
-- The runners of rust-app/src/hot_cache_bench.rs keep their buffer in step with the stream.
use event_sourcing_testbed.Common.{
  ℕ, zero, suc, ◌+◌, ◌-◌, ◌^◌, ◌<◌, ◌≤◌, ◌≡◌, refl, sym, ap, subst, ◌∙◌, ◌⊎◌, inl, inr, String,
  List, [], ◌∷◌, ◌++◌, map, Option, some, false, ◌==◌, arith, length, length-map, length-drop, drop,
  add64,
}
use mathlib.Core.List.{append_assoc, append-nil}
use event_sourcing_testbed.Common.Result.{Result, ok, err}
use event_sourcing_testbed.Events.{BenchmarkEvent, new as new_event}
use event_sourcing_testbed.Store.Checkpoints.{unit_cases, result_cases}
use event_sourcing_testbed.Tail.Newest.{IsTail, pushed-IsTail, pushed_all_loaded, map-pushed}
use event_sourcing_testbed.Tail.Log.{Log, IsLog, events}
use event_sourcing_testbed.Tail.Seeding.{seed, seed_lem}
use event_sourcing_testbed.HotCache.{
  RecentEventsCache, HotCacheConfig, new, push, push_all, snapshot, live, serve, run_phases,
}
use event_sourcing_testbed.HotCache.Ring.{push_all_lem}

module _ (log : Log) (clock : ℕ → ℕ) {K : Type 0} (key : BenchmarkEvent → K)
    (Holds : log.Server → List K → Type 0) (config : HotCacheConfig) where
  abbrev pub made : ℕ → ℕ → ℕ → List K
  made task_id base n = map key (events clock task_id base n)

  -- what the events of a run show: the seeded ones, and then the live ones
  abbrev pub written : List K
  written = made 0 0 config.seed_events ++ made 1 config.seed_events config.live_writes

  -- How a run ends: with an error, or with all events in the stream and the newest in the buffer.
  abbrev pub IsCoherent : Option (log.Server × Result RecentEventsCache) → Type 0
  IsCoherent ran =
      (s : log.Server) × (r : Result RecentEventsCache) × (ran ≡ some (s, r))
      × (((e : List String) × (r ≡ err e))
          ⊎ ((cache : RecentEventsCache) × (r ≡ ok cache)
              × Holds s written
              × (map key (snapshot cache) ≡ drop (length written - config.cache_size) written)))

module _ (log : Log) (clock : ℕ → ℕ) {K : Type 0} (key : BenchmarkEvent → K)
    (Holds : log.Server → List K → Type 0) (is_log : IsLog log clock key Holds)
    (config : HotCacheConfig) where
  abbrev made' : ℕ → ℕ → ℕ → List K
  made' = made log clock key Holds config

  -- the cache shows the end of what the stream holds
  abbrev InStep : log.Server → RecentEventsCache → List K → Type 0
  InStep s cache ks = Holds s ks × IsTail config.cache_size (map key (snapshot cache)) ks

  live_lem :
      (left i : ℕ) (s : log.Server) (cache cache' : RecentEventsCache) (ks : List K)
      → 0 < config.cache_size
      → cache.capacity ≡ config.cache_size
      → config.seed_events + i + left ≤ 2 ^ 64
      → InStep s cache ks
      → (live log clock config left i s cache).1 ≡ ok cache'
      → InStep
          (live log clock config left i s cache).0
          cache'
          (ks ++ made' 1 (config.seed_events + i) left)
  unfolding live events push
  live_lem zero i s cache cache' ks pos size fits (h, t) done =
      let same : cache ≡ cache' = cc done in rw (append-nil, ← same) (h, t)
  live_lem (suc left) i s cache cache' ks pos size fits (h, t) done =
      let seq = add64 config.seed_events i in
      let same : seq ≡ config.seed_events + i = omega arith in
      let event = new_event (clock seq) seq 1 in
      let sent = log.append_event s event seq in
      elim (unit_cases sent.1) [
        | inr (e, bad) ↦ absurd (cc (rw (live, bad) at done))
        | inl good ↦
            let h' = is_log.event_held s ks seq h good in
            let t' : IsTail config.cache_size (map key (snapshot (push cache event)))
                (ks ++ key event ∷ []) =
              map-pushed key cache.capacity cache.inner event
              ∙ rw size
                  (pushed-IsTail config.cache_size (map key cache.inner) ks (key event) pos t) in
            let rest =
              live_lem left (i + 1) sent.0 (push cache event) cache' (ks ++ key event ∷ []) pos size
                (omega (arith, fits)) (h', t') (rw (live, good) at done) in
            let from : config.seed_events + (i + 1) ≡ config.seed_events + i + 1 = omega arith in
            let joined : (ks ++ key event ∷ []) ++ made' 1 (config.seed_events + (i + 1)) left
                ≡ ks ++ made' 1 (config.seed_events + i) (suc left) =
              append_assoc ks (key event ∷ []) _
              ∙ ap (λ k. ks ++ key event ∷ made' 1 k left) from
              ∙ ap
                  (λ k.
                    ks ++ key (new_event (clock k) k 1) ∷ made' 1 (config.seed_events + i + 1) left)
                  same in
            rw (live, good, ← joined) rest
      ]

  -- the buffer after the load
  filled :
      (ks : List K) (es : List BenchmarkEvent)
      → 0 < config.cache_size
      → IsTail config.cache_size (map key es) ks
      → (map key (snapshot (push_all (new config.cache_size) es)) ≡ map key es)
        × ((push_all (new config.cache_size) es).capacity ≡ config.cache_size)
  filled ks es room loaded =
      let n = length-drop (length ks - config.cache_size) ks in
      let few : length es ≤ config.cache_size =
        omega (arith, n, ap length loaded, length-map key es) in
      let zero_out : length es - config.cache_size ≡ 0 = omega (arith, few) in
      let whole : IsTail config.cache_size es es = ap (λ k. drop k es) (sym zero_out) in
      let all = push_all_lem es (new config.cache_size) in
      (
        ap (λ (c : RecentEventsCache). map key (snapshot c)) all
            ∙ ap (map key) (pushed_all_loaded config.cache_size es es room whole),
        ap (λ (c : RecentEventsCache). c.capacity) all,
      )

  serve_lem :
      (s : log.Server) (r : Result (List BenchmarkEvent)) (cache : RecentEventsCache) (ks : List K)
      → 0 < config.cache_size
      → config.seed_events + config.live_writes ≤ 2 ^ 64
      → Holds s ks
      → ((es : List BenchmarkEvent)
          → r ≡ ok es
          → map key es ≡ drop (length ks - config.cache_size) ks)
      → (serve log clock config s r).1 ≡ ok cache
      → InStep
          (serve log clock config s r).0
          cache
          (ks ++ made' 1 config.seed_events config.live_writes)
  unfolding serve
  serve_lem s (err e) cache ks room fits h loaded ended = absurd (cc ended)
  serve_lem s (ok es) cache ks room fits h loaded ended =
      let newest = loaded es refl in
      let (full, size) = filled ks es room newest in
      let start : config.seed_events + 0 ≡ config.seed_events = omega arith in
      subst
        (λ k.
          InStep (serve log clock config s (ok es)).0 cache (ks ++ made' 1 k config.live_writes))
        start
        (live_lem config.live_writes 0 s (push_all (new config.cache_size) es) cache ks room size
          (omega (arith, fits)) (h, full ∙ newest) ended)

  -- A run over an empty stream, with a batch of at least one event and a buffer of at least one
  -- place, ends: with an error of a write or of the read; or the stream holds the seeded events and
  -- then the live ones, in the order of their numbers, and the buffer holds the newest of them, as
  -- many as it has places.
  pub run_phases-IsCoherent :
      (s : log.Server)
      → 0 < config.seed_batch_size
      → 0 < config.cache_size
      → config.seed_events + config.live_writes ≤ 2 ^ 64
      → Holds s []
      → IsCoherent log clock key Holds config (run_phases log clock config s)
  unfolding run_phases serve
  run_phases-IsCoherent s pos room fits h =
      let batched : config.seed_batch_size == 0 ≡ false = ground (arith, pos) in
      let seeded = seed log clock config.seed_batch_size config.seed_events s in
      elim (unit_cases seeded.1) [
        | inr (e, bad) ↦ (seeded.0, err e, rw (run_phases, batched, bad) refl, inl (e, refl))
        | inl good ↦
            let held =
              seed_lem log clock config.seed_batch_size key Holds is_log config.seed_events s pos h
                good in
            let read' = log.read_last seeded.0 config.cache_size in
            let served = serve log clock config seeded.0 read' in
            (
              served.0,
              served.1,
              rw (run_phases, batched, good) refl,
              elim (result_cases served.1) [
                | inr (e, failed) ↦ inl (e, failed)
                | inl (cache, ended) ↦
                    let (at, tail) =
                      serve_lem seeded.0 read' cache (made' 0 0 config.seed_events) room
                        (omega (arith, fits)) held
                        (λ es loaded.
                          is_log.last_read seeded.0 (made' 0 0 config.seed_events) config.cache_size
                            es held loaded)
                        ended in
                    inr (cache, ended, at, tail)
              ],
            )
      ]
