-- ===== src/Kurrent/Streams.antt =====
-- A KurrentDB stream as the log of rust-app/src/hot_cache_bench.rs and rust-app/src/memcache_bench.rs.
use event_sourcing_testbed.Common.{
  ℕ, zero, suc, ◌+◌, ◌-◌, ◌<◌, ◌≡◌, refl, sym, ap, ◌∙◌, String, List, [], ◌∷◌, ◌++◌, map, Option,
  some, arith, length, length-map, drop,
}
use mathlib.Core.List.{map-append, filter_map}
use event_sourcing_testbed.Common.Result.{ok, ◌>>=◌, >>=-eq-ok}
use event_sourcing_testbed.Events.{BenchmarkEvent, new as new_event}
use event_sourcing_testbed.Kurrent.Driver.{Api, EventData, Recorded, number}
use event_sourcing_testbed.Kurrent.{append, append_batch, read_last_n_bench_events}
use event_sourcing_testbed.Kurrent.Reads.{IsHonest, decoded, read_last_n_bench_events_exact}
use event_sourcing_testbed.Kurrent.Appends.{
  IsBatch, Grown, GrownBatch, append_batch_exact, append_exact,
}
use event_sourcing_testbed.Tail.Log.{Log, IsLog, events}

-- `append_batch`, `append` and `read_last_n_bench_events`; the runners drop the revisions.
abbrev pub kurrent_log :
    (api : Api)
    → (BenchmarkEvent → Option api.Data)
    → (api.Data → Option BenchmarkEvent)
    → String
    → Log
kurrent_log api serialise decode name = record {
  Server = api.Server;
  append_batch = λ s batch base task_id.
      let (s', appended) = append_batch api serialise s name "BenchmarkEvent" batch in
      (s', appended >>= λ r. ok tt);
  append_event = λ s event seq.
      let (s', appended) = append api serialise s name "BenchmarkEvent" event in
      (s', appended >>= λ r. ok tt);
  read_last = λ s n. read_last_n_bench_events api decode s name n;
}

abbrev pub itself : BenchmarkEvent → BenchmarkEvent
itself e = e

pub map-itself : (es : List BenchmarkEvent) → map itself es ≡ es
map-itself [] = refl
map-itself (e ∷ es) = ap (◌∷◌ e) (map-itself es)

module _ (api : Api) (honest : IsHonest api) (serialise : BenchmarkEvent → Option api.Data)
    (decode : api.Data → Option BenchmarkEvent)
    (round_trip : (e : BenchmarkEvent) (d : api.Data) → serialise e ≡ some d → decode d ≡ some e)
    (clock : ℕ → ℕ) (name : String) where
  abbrev read : Recorded api.Data → Option BenchmarkEvent
  read r = decode r.data'

  -- The stream holds the events `bs`.
  abbrev pub Holds : api.Server → List BenchmarkEvent → Type 0
  Holds s bs = map read (api.stream s name) ≡ map some bs

  pub batch_read :
      (event_type : String) (ps : List BenchmarkEvent) (es : List (EventData api.Data)) (n : ℕ)
      → IsBatch api honest.laws serialise event_type ps es
      → map read (number n es) ≡ map some ps
  batch_read event_type [] [] n b = refl
  batch_read event_type [] (e ∷ es) n b = absurd b
  batch_read event_type (p ∷ ps) [] n b = absurd b
  batch_read event_type (p ∷ ps) (e ∷ es) n b =
      rw (round_trip p e.data' b.0, batch_read event_type ps es (suc n) b.2) refl

  pub held_batch :
      (s s' : api.Server) (bs ps : List BenchmarkEvent) (r : ℕ)
      → Holds s bs
      → GrownBatch api honest.laws serialise s s' name "BenchmarkEvent" ps r
      → Holds s' (bs ++ ps)
  held_batch s s' bs ps r h (es, batch, grown, _, _) =
      rw
        (
          grown,
          map-append read (api.stream s name) (number (length (api.stream s name)) es),
          map-append some bs ps,
          h,
          batch_read "BenchmarkEvent" ps es (length (api.stream s name)) batch,
        )
        refl

  pub held_one :
      (s s' : api.Server) (bs : List BenchmarkEvent) (e : BenchmarkEvent) (d : api.Data) (r : ℕ)
      → Holds s bs
      → serialise e ≡ some d
      → Grown api s s' name "BenchmarkEvent" d r
      → Holds s' (bs ++ e ∷ [])
  held_one s s' bs e d r h sent (grown, _, _) =
      rw (grown, map-append read (api.stream s name) _, map-append some bs (e ∷ []), h)
        (ap (λ o. map some bs ++ o ∷ []) (round_trip e d sent))

  -- what decodes of the end of the stream
  pub decoded-drop :
      (k : ℕ) (rs : List (Recorded api.Data)) (bs : List BenchmarkEvent)
      → map read rs ≡ map some bs
      → decoded api decode (drop k rs) ≡ drop k bs
  unfolding filter_map
  decoded-drop zero [] [] h = refl
  decoded-drop (suc k) [] [] h = refl
  decoded-drop k [] (b ∷ bs) h = absurd (cc h)
  decoded-drop k (r ∷ rs) [] h = absurd (cc h)
  decoded-drop zero (r ∷ rs) (b ∷ bs) h =
      let hit : decode r.data' ≡ some b = cc h in
      rw hit (ap (◌∷◌ b) (decoded-drop zero rs bs (cc h)))
  decoded-drop (suc k) (r ∷ rs) (b ∷ bs) h = decoded-drop k rs bs (cc h)

  loaded_lem :
      (s : api.Server) (bs : List BenchmarkEvent) (n : ℕ)
      → Holds s bs
      → decoded api decode (drop (length (api.stream s name) - n) (api.stream s name))
        ≡ drop (length bs - n) bs
  loaded_lem s bs n h =
      let rs = api.stream s name in
      let same : length rs ≡ length bs =
        sym (length-map (λ (r : Recorded api.Data). decode r.data') rs)
        ∙ ap length h
        ∙ length-map (λ (b : BenchmarkEvent). some b) bs in
      decoded-drop (length rs - n) rs bs h ∙ ap (λ k. drop (k - n) bs) same

  batch_lem :
      (s : api.Server) (bs : List BenchmarkEvent) (base n : ℕ)
      → 0 < n
      → Holds s bs
      → ((kurrent_log api serialise decode name).append_batch s (events clock 0 base n) base 0).1
        ≡ ok tt
      → Holds
          ((kurrent_log api serialise decode name).append_batch s (events clock 0 base n) base 0).0
          (bs ++ map itself (events clock 0 base n))
  unfolding events
  batch_lem s bs base zero pos h sent = absurd (omega (arith, pos))
  batch_lem s bs base (suc n) pos h sent =
      let e = new_event (clock base) base 0 in
      let es = events clock 0 (base + 1) n in
      let (r, appended, _) =
        >>=-eq-ok (append_batch api serialise s name "BenchmarkEvent" (e ∷ es)).1 (λ r. ok tt)
          sent in
      rw (map-itself es) (
        held_batch s _ bs (e ∷ es) r h
          (append_batch_exact api honest.laws serialise s name "BenchmarkEvent" e es r appended))

  pub kurrent_log-IsLog : IsLog (kurrent_log api serialise decode name) clock itself Holds
  kurrent_log-IsLog = record {
    batch_held = batch_lem;
    event_held = λ s bs seq h sent.
        let event = new_event (clock seq) seq 1 in
        let (r, appended, _) =
          >>=-eq-ok (append api serialise s name "BenchmarkEvent" event).1 (λ r. ok tt) sent in
        let (d, encoded, grown) =
          append_exact api honest.laws serialise s name "BenchmarkEvent" event r appended in
        held_one s _ bs event d r h encoded grown;
    last_read = λ s bs n es h loaded.
        map-itself es
        ∙ read_last_n_bench_events_exact api decode honest s name n es loaded
        ∙ loaded_lem s bs n h;
  }
