-- ===== src/Memcache/WriteThrough.antt =====
-- The runners of rust-app/src/memcache_bench.rs keep the cached tail in step with the stream.
use event_sourcing_testbed.Common.{
  ℕ, zero, suc, ◌+◌, ◌-◌, ◌^◌, ◌<◌, ◌≤◌, ◌≡◌, refl, ap, ◌∙◌, ◌⊎◌, inl, inr, String, List, [], ◌∷◌,
  ◌++◌, map, Option, some, false, ◌==◌, arith, length, drop, add64,
}
use mathlib.Core.List.{append_assoc, append-nil}
use event_sourcing_testbed.Common.Result.{Result, ok, err}
use event_sourcing_testbed.Events.{BenchmarkEvent, new as new_event}
use event_sourcing_testbed.Kurrent.Driver.{done}
use event_sourcing_testbed.Store.Checkpoints.{unit_cases, reply_cases}
use event_sourcing_testbed.Tail.{pushed}
use event_sourcing_testbed.Tail.Newest.{IsTail, pushed-IsTail, map-pushed}
use event_sourcing_testbed.Tail.Log.{Log, IsLog, events}
use event_sourcing_testbed.Tail.Seeding.{seed, seed_lem}
use event_sourcing_testbed.Memcache.{
  Client, MemcachedCacheConfig, mc_set_tail, mc_delete, reads, live, serve, run,
}

-- What is promised of the crates and the server.
pub record Laws (mc : Client) : Type 0 where
  pub cached : mc.State → String → Option mc.Bytes
  pub set_done :
      (m : mc.State) (key : String) (b : mc.Bytes)
      → (mc.set m key b).1 ≡ done tt
      → cached (mc.set m key b).0 key ≡ some b
  pub round_trip :
      (tail : List BenchmarkEvent) (b : mc.Bytes)
      → mc.serialize tail ≡ done b
      → mc.deserialize b ≡ done tail

module _ (mc : Client) (laws : Laws mc) (mc_key : String) where
  -- the cache has the tail under the key
  abbrev pub Caches : mc.State → List BenchmarkEvent → Type 0
  Caches m tail = (b : mc.Bytes) × (laws.cached m mc_key ≡ some b) × (mc.deserialize b ≡ done tail)

  mc_set_tail_ok :
      (m : mc.State) (tail : List BenchmarkEvent)
      → (mc_set_tail mc m mc_key tail).1 ≡ ok tt
      → Caches (mc_set_tail mc m mc_key tail).0 tail
  unfolding mc_set_tail
  mc_set_tail_ok m tail h = elim (reply_cases (mc.serialize tail)) [
    | inr (e, bad) ↦ absurd (cc (rw (mc_set_tail, bad) at h))
    | inl (b, encoded) ↦ elim (reply_cases (mc.set m mc_key b).1) [
      | inr (e, bad) ↦ absurd (cc (rw (mc_set_tail, encoded, bad) at h))
      | inl (u, sent) ↦
          rw (mc_set_tail, encoded, sent)
            (b, laws.set_done m mc_key b sent, laws.round_trip tail b encoded)
    ]
  ]

module _ (log : Log) (mc : Client) (laws : Laws mc) (clock : ℕ → ℕ) {K : Type 0}
    (key : BenchmarkEvent → K) (Holds : log.Server → List K → Type 0)
    (is_log : IsLog log clock key Holds) (config : MemcachedCacheConfig) (mc_key : String) where
  abbrev pub made : ℕ → ℕ → ℕ → List K
  made task_id base n = map key (events clock task_id base n)

  -- the cached tail shows the end of what the stream holds
  abbrev pub InStep : log.Server → mc.State → List K → Type 0
  InStep s m ks =
      (tail : List BenchmarkEvent) × Holds s ks
      × Caches mc laws mc_key m tail
      × IsTail config.cache_size (map key tail) ks

  live_lem :
      (left i : ℕ) (s : log.Server) (m : mc.State) (tail : List BenchmarkEvent) (ks : List K)
      → 0 < config.cache_size
      → config.seed_events + i + left ≤ 2 ^ 64
      → Holds s ks
      → Caches mc laws mc_key m tail
      → IsTail config.cache_size (map key tail) ks
      → let after = live log mc clock config mc_key left i s m tail in
        after.2 ≡ ok tt → InStep after.0 after.1 (ks ++ made 1 (config.seed_events + i) left)
  unfolding live events
  live_lem zero i s m tail ks pos fits h c t ended = rw append-nil (tail, h, c, t)
  live_lem (suc left) i s m tail ks pos fits h c t ended =
      let seq = add64 config.seed_events i in
      let same : seq ≡ config.seed_events + i = omega arith in
      let event = new_event (clock seq) seq 1 in
      let sent = log.append_event s event seq in
      let tail' = pushed config.cache_size tail event in
      elim (unit_cases sent.1) [
        | inr (e, bad) ↦ absurd (cc (rw (live, bad) at ended))
        | inl good ↦ elim (unit_cases (mc_set_tail mc m mc_key tail').1) [
          | inr (e, bad) ↦ absurd (cc (rw (live, good, bad) at ended))
          | inl set ↦
              let t' : IsTail config.cache_size (map key tail') (ks ++ key event ∷ []) =
                map-pushed key config.cache_size tail event
                ∙ pushed-IsTail config.cache_size (map key tail) ks (key event) pos t in
              let rest =
                live_lem left (i + 1) sent.0 (mc_set_tail mc m mc_key tail').0 tail'
                  (ks ++ key event ∷ []) pos (omega (arith, fits))
                  (is_log.event_held s ks seq h good) (mc_set_tail_ok mc laws mc_key m tail' set) t'
                  (rw (live, good, set) at ended) in
              let from : config.seed_events + (i + 1) ≡ config.seed_events + i + 1 = omega arith in
              let joined : (ks ++ key event ∷ []) ++ made 1 (config.seed_events + (i + 1)) left
                  ≡ ks ++ made 1 (config.seed_events + i) (suc left) =
                append_assoc ks (key event ∷ []) _
                ∙ ap (λ k. ks ++ key event ∷ made 1 k left) from
                ∙ ap
                    (λ k.
                      ks
                      ++ key (new_event (clock k) k 1) ∷ made 1 (config.seed_events + i + 1) left)
                    same in
              rw (live, good, set, ← joined) rest
        ]
      ]

  serve_lem :
      (s : log.Server) (m : mc.State) (r : Result (List BenchmarkEvent)) (ks : List K)
      → 0 < config.cache_size
      → config.seed_events + config.live_writes ≤ 2 ^ 64
      → Holds s ks
      → ((es : List BenchmarkEvent)
          → r ≡ ok es
          → map key es ≡ drop (length ks - config.cache_size) ks)
      → let after = serve log mc clock config mc_key s m r in
        after.2 ≡ ok tt
        → InStep after.0 after.1 (ks ++ made 1 config.seed_events config.live_writes)
  unfolding serve
  serve_lem s m (err e) ks room fits h loaded ended = absurd (cc ended)
  serve_lem s m (ok es) ks room fits h loaded ended =
      let m' = (mc_set_tail mc m mc_key es).0 in
      elim (unit_cases (mc_set_tail mc m mc_key es).1) [
        | inr (e, bad) ↦ absurd (cc (rw (serve, bad) at ended))
        | inl set ↦ elim (unit_cases (reads log mc clock config mc_key 1000 m')) [
          | inr (e, bad) ↦ absurd (cc (rw (serve, set, bad) at ended))
          | inl read ↦
              let start : config.seed_events + 0 ≡ config.seed_events = omega arith in
              let all =
                live_lem config.live_writes 0 s m' es ks room (omega (arith, fits)) h
                  (mc_set_tail_ok mc laws mc_key m es set) (loaded es refl)
                  (rw (serve, set, read) at ended) in
              rw (serve, set, read) (rw start at all)
        ]
      ]

  -- what the events of a run show: the seeded ones, and then the live ones
  abbrev pub written : List K
  written = made 0 0 config.seed_events ++ made 1 config.seed_events config.live_writes

  -- How a run ends: with an error, or with all events in the stream and the newest under the key.
  abbrev pub IsWrittenThrough : Option (log.Server × mc.State × Result (Unit {0})) → Type 0
  IsWrittenThrough ran =
      (s : log.Server) × (m : mc.State) × (r : Result (Unit {0})) × (ran ≡ some (s, m, r))
      × (((e : List String) × (r ≡ err e)) ⊎ ((r ≡ ok tt) × InStep s m written))

  -- A run of at most 2 ^ 64 events whose preparation leaves an empty stream, with a batch of at least one event and a tail of
  -- at least one place, ends: with an error; or the stream holds the seeded events and then the live
  -- ones, in the order of their numbers, and the cache has, under the key, bytes that decode to a
  -- tail that shows the newest of them, as many as it has places.
  pub run-IsWrittenThrough :
      (prepare : log.Server → log.Server × Result (Unit {0})) (s : log.Server) (m : mc.State)
      → 0 < config.seed_batch_size
      → 0 < config.cache_size
      → config.seed_events + config.live_writes ≤ 2 ^ 64
      → Holds (prepare s).0 []
      → IsWrittenThrough (run log mc clock config mc_key prepare s m)
  unfolding run
  run-IsWrittenThrough prepare s m pos room fits empty =
      let batched : config.seed_batch_size == 0 ≡ false = ground (arith, pos) in
      let m' = mc_delete mc m mc_key in
      let s' = (prepare s).0 in
      let seeded = seed log clock config.seed_batch_size config.seed_events s' in
      elim (unit_cases (prepare s).1) [
        | inr (e, bad) ↦ (s', m', err e, rw (run, bad) refl, inl (e, refl))
        | inl set_up ↦ elim (unit_cases seeded.1) [
          | inr (e, bad) ↦ (seeded.0, m', err e, rw (run, set_up, batched, bad) refl, inl (e, refl))
          | inl good ↦
              let held =
                seed_lem log clock config.seed_batch_size key Holds is_log config.seed_events s' pos
                  empty good in
              let read' = log.read_last seeded.0 config.cache_size in
              let served = serve log mc clock config mc_key seeded.0 m' read' in
              (
                served.0,
                served.1,
                served.2,
                rw (run, set_up, batched, good) refl,
                elim (unit_cases served.2) [
                  | inr (e, failed) ↦ inl (e, failed)
                  | inl ended ↦ inr (
                    ended,
                    serve_lem seeded.0 m' read' (made 0 0 config.seed_events) room
                        (omega (arith, fits)) held
                        (λ es loaded.
                          is_log.last_read seeded.0 (made 0 0 config.seed_events) config.cache_size
                            es held loaded)
                        ended,
                  )
                ],
              )
        ]
      ]
