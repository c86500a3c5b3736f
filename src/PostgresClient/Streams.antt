-- ===== src/PostgresClient/Streams.antt =====
-- A stream of `bench_events` as the log of rust-app/src/hot_cache_bench.rs and
-- rust-app/src/memcache_bench.rs: `append_batch_versioned` and `read_last_n_stream_bench_events` of
-- rust-app/src/postgres/client.rs. The payload column is the JSON of the whole event, and the time is
-- the server's, so that of an event only the number and the task are read back.
use event_sourcing_testbed.Common.{
  ℕ, zero, suc, ◌+◌, ◌-◌, ◌<◌, ◌≤◌, ◌≡◌, refl, sym, ap, subst, ◌∙◌, inl, inr, String, List, [], ◌∷◌,
  ◌++◌, map, reverse, arith, length, length-map, take, drop, reverse-take-reverse, All,
}
use mathlib.Core.List.{map-append}
use event_sourcing_testbed.Common.Result.{Result, ok, >>=-eq-ok, ◌>>=◌}
use event_sourcing_testbed.Kurrent.Driver.{done}
use event_sourcing_testbed.Store.Checkpoints.{with_context_ok, reply_cases}
use event_sourcing_testbed.Events.{BenchmarkEvent, new as new_event}
use event_sourcing_testbed.Tail.Log.{Log, IsLog, events}
use event_sourcing_testbed.Tail.Newest.{map-reverse, map-drop}
use event_sourcing_testbed.PostgresClient.{
  Server, BenchRow, row_of, rows_of, append_batch_versioned, bench_event,
  read_last_n_stream_bench_events,
}

abbrev pub key : BenchmarkEvent → ℕ × ℕ
key e = (e.seq, e.task_id)

module _ (server : Server) where
  open server use {State, Row, advance, advance_and_insert, insert_rows, select_newest, get_number}

  abbrev pub row_key : Row → ℕ × ℕ
  row_key r = (get_number r "seq", get_number r "task_id")

  -- the rows as they are read show those that were inserted
  abbrev pub Shows : List Row → List BenchRow → Type 0
  Shows [] [] = Unit
  Shows [] (b ∷ bs) = ⊥
  Shows (r ∷ rs) [] = ⊥
  Shows (r ∷ rs) (b ∷ bs) =
      (get_number r "seq" ≡ b.seq)
      × (get_number r "task_id" ≡ b.task_id)
      × (get_number r "stream_version" ≡ b.stream_version)
      × Shows rs bs

  -- the rows have versions below `v`, or, as they are inserted, from `v` on
  abbrev pub Below : ℕ → List Row → Type 0
  Below v rs = All (λ r. get_number r "stream_version" < v) rs

  abbrev pub Numbered : ℕ → List BenchRow → Type 0
  Numbered v [] = Unit
  Numbered v (b ∷ bs) = (b.stream_version ≡ v) × Numbered (v + 1) bs

  -- What the documentation of PostgreSQL promises. `stored` is the stream's rows by version, and
  -- `counter` its row of `stream_versions`.
  pub record Laws (stream_id : String) : Type 0 where
    pub stored : State → List Row
    pub counter : State → ℕ
    pub advanced :
        (s : State) (n start : ℕ)
        → let after = advance s stream_id n in
          after.1 ≡ done start
          → (start ≡ counter s) × (counter after.0 ≡ counter s + n) × (stored after.0 ≡ stored s)
    pub inserted_one :
        (s : State) (row : ℕ → BenchRow)
        → let after = advance_and_insert s stream_id row in
          after.1 ≡ done tt
          → Below (counter s) (stored s)
          → (rs : List Row) × Shows rs (row (counter s) ∷ [])
            × (stored after.0 ≡ stored s ++ rs)
            × (counter after.0 ≡ counter s + 1)
    pub inserted_rows :
        (s : State) (v : ℕ) (bs : List BenchRow)
        → (insert_rows s bs).1 ≡ done tt
        → Below v (stored s)
        → Numbered v bs
        → (rs : List Row) × Shows rs bs
          × (stored (insert_rows s bs).0 ≡ stored s ++ rs)
          × (counter (insert_rows s bs).0 ≡ counter s)
    pub found :
        (s : State) (n : ℕ) (rows : List Row)
        → select_newest s stream_id n ≡ done rows
        → rows ≡ take n (reverse (stored s))

abbrev pub discarded : Result ℕ → Result (Unit {0})
discarded appended = appended >>= λ n. ok tt

module _ (server : Server) (to_vec : BenchmarkEvent → List ℕ) (uuid : ℕ → String)
    (stream_id : String) where
  abbrev appended_batch : server.State → List BenchmarkEvent → ℕ → ℕ → server.State × Result ℕ
  appended_batch s batch base task_id =
      append_batch_versioned server to_vec uuid s stream_id "BenchmarkEvent" batch base task_id

  -- the runners drop the count
  abbrev pub postgres_log : Log
  postgres_log = record {
    Server = server.State;
    append_batch = λ s batch base task_id.
        let (s', appended) = appended_batch s batch base task_id in (s', discarded appended);
    append_event = λ s event seq.
        let (s', appended) = appended_batch s (event ∷ []) seq 1 in (s', discarded appended);
    read_last = λ s n. read_last_n_stream_bench_events server s stream_id n;
  }

  module _ (laws : Laws server stream_id) where
    -- The stream has rows that show `ks`, with versions below the counter.
    abbrev pub Holds : server.State → List (ℕ × ℕ) → Type 0
    Holds s ks =
        (map (row_key server) (laws.stored s) ≡ ks) × Below server (laws.counter s) (laws.stored s)

    abbrev keys : List BenchRow → List (ℕ × ℕ)
    keys bs = map (λ (b : BenchRow). (b.seq, b.task_id)) bs

    Shows-keys :
        (rs : List server.Row) (bs : List BenchRow)
        → Shows server rs bs
        → map (row_key server) rs ≡ keys bs
    Shows-keys [] [] h = refl
    Shows-keys [] (b ∷ bs) h = absurd h
    Shows-keys (r ∷ rs) [] h = absurd h
    Shows-keys (r ∷ rs) (b ∷ bs) (seq, task, _, h) = rw (seq, task, Shows-keys rs bs h) refl

    Below-Shows :
        (v m : ℕ) (olds rs : List server.Row) (bs : List BenchRow)
        → Below server v olds
        → Shows server rs bs
        → Numbered server v bs
        → v + length bs ≤ m
        → Below server m (olds ++ rs)
    Below-Shows v m [] [] bs below h numbered size = tt
    Below-Shows v m [] (r ∷ rs) [] below h numbered size = absurd h
    Below-Shows v m [] (r ∷ rs) (b ∷ bs) below (_, _, at, h) (start, numbered) size = (
      omega (arith, at, start, size),
      Below-Shows (v + 1) m [] rs bs tt h numbered (omega (arith, size)),
    )
    Below-Shows v m (o ∷ os) rs bs (less, below) h numbered size =
        (omega (arith, less, size), Below-Shows v m os rs bs below h numbered size)

    Numbered-rows_of :
        (v seq task_id : ℕ) (ps : List BenchmarkEvent)
        → let bs = rows_of server to_vec uuid stream_id "BenchmarkEvent" v seq task_id ps in
          Numbered server v bs × (length bs ≡ length ps)
    unfolding rows_of
    Numbered-rows_of v seq task_id [] = (tt, refl)
    Numbered-rows_of v seq task_id (p ∷ ps) =
        let (numbered, size) = Numbered-rows_of (v + 1) (seq + 1) task_id ps in
        ((refl, numbered), ap suc size)

    keys-rows_of :
        (clock : ℕ → ℕ) (v base n : ℕ)
        → keys
            (rows_of server to_vec uuid stream_id "BenchmarkEvent" v base 0 (events clock 0 base n))
          ≡ map key (events clock 0 base n)
    unfolding rows_of events new_event
    keys-rows_of clock v base zero = refl
    keys-rows_of clock v base (suc n) =
        ap (λ l. (base, 0) ∷ l) (keys-rows_of clock (v + 1) (base + 1) n)

    -- what was inserted behind what was there
    held_rows :
        (s s' : server.State) (ks : List (ℕ × ℕ)) (rs : List server.Row) (bs : List BenchRow)
        → Holds s ks
        → Shows server rs bs
        → Numbered server (laws.counter s) bs
        → laws.stored s' ≡ laws.stored s ++ rs
        → laws.counter s' ≡ laws.counter s + length bs
        → Holds s' (ks ++ keys bs)
    held_rows s s' ks rs bs (held, below) shows numbered grown count = (
      ap (map (row_key server)) grown
          ∙ map-append (row_key server) (laws.stored s) rs
          ∙ rw (held, Shows-keys rs bs shows) refl,
      rw grown (
          Below-Shows (laws.counter s) (laws.counter s') (laws.stored s) rs bs below shows numbered
            (omega (arith, count))),
    )

    one_ok :
        (s : server.State) (ks : List (ℕ × ℕ)) (p : BenchmarkEvent) (seq task_id : ℕ)
        → Holds s ks
        → let after = appended_batch s (p ∷ []) seq task_id in
          discarded after.1 ≡ ok tt → Holds after.0 (ks ++ (seq, task_id) ∷ [])
    unfolding append_batch_versioned
    one_ok s ks p seq task_id h sent =
        let row : ℕ → BenchRow =
          λ v. row_of server to_vec uuid stream_id "BenchmarkEvent" v seq task_id p in
        let (n, appended, _) = >>=-eq-ok _ _ sent in
        let (u, inserted, _) = >>=-eq-ok _ _ appended in
        let (rs, shows, grown, count) =
          laws.inserted_one s row (with_context_ok _ _ _ inserted) h.1 in
        held_rows s _ ks rs (row (laws.counter s) ∷ []) h shows (refl, tt) grown count

    many_ok :
        (s : server.State) (ks : List (ℕ × ℕ)) (p q : BenchmarkEvent) (ps : List BenchmarkEvent)
        (base task_id : ℕ)
        → Holds s ks
        → let after = appended_batch s (p ∷ q ∷ ps) base task_id in
          discarded after.1 ≡ ok tt
          → (v : ℕ) × Holds after.0 (
              ks
              ++ keys (
                  rows_of server to_vec uuid stream_id "BenchmarkEvent" v base task_id
                    (p ∷ q ∷ ps)))
    unfolding append_batch_versioned
    many_ok s ks p q ps base task_id h sent =
        let batch = p ∷ q ∷ ps in
        let s1 = (server.advance s stream_id (length batch)).0 in
        elim (reply_cases (server.advance s stream_id (length batch)).1) [
          | inr (e, bad) ↦ absurd (cc (rw (append_batch_versioned, bad) at sent))
          | inl (start, first) ↦
              let bs =
                rows_of server to_vec uuid stream_id "BenchmarkEvent" start base task_id batch in
              let (n, appended, _) = >>=-eq-ok _ _ (rw (append_batch_versioned, first) at sent) in
              let (u, inserted, _) = >>=-eq-ok _ _ appended in
              let (at, count1, same) = laws.advanced s (length batch) start first in
              let (numbered, size) = Numbered-rows_of start base task_id batch in
              let numbered' : Numbered server (laws.counter s) bs =
                subst (λ v. Numbered server v bs) at numbered in
              let (rs, shows, grown, count2) =
                laws.inserted_rows s1 (laws.counter s) bs (with_context_ok _ _ _ inserted)
                  (rw same h.1) numbered' in
              (
                start,
                rw (append_batch_versioned, first)
                    (held_rows s _ ks rs bs h shows numbered' (grown ∙ ap (λ l. l ++ rs) same)
                      (omega (arith, count1, count2, size))),
              )
        ]

    read_ok :
        (s : server.State) (ks : List (ℕ × ℕ)) (n : ℕ) (es : List BenchmarkEvent)
        → Holds s ks
        → read_last_n_stream_bench_events server s stream_id n ≡ ok es
        → map key es ≡ drop (length ks - n) ks
    unfolding read_last_n_stream_bench_events
    read_ok s ks n es (held, below) h =
        let (rows, selected, h1) = >>=-eq-ok _ _ h in
        let newest = laws.found s n rows (with_context_ok _ _ _ selected) in
        let all : reverse (map (bench_event server) rows) ≡ es = cc h1 in
        let size : length (laws.stored s) ≡ length ks =
          sym (length-map (row_key server) (laws.stored s)) ∙ ap length held in
        ap (map key) (sym all ∙ sym (map-reverse (bench_event server) rows))
        ∙ ap (λ l. map key (map (bench_event server) l))
            (ap reverse newest ∙ reverse-take-reverse n (laws.stored s))
        ∙ map_map (drop (length (laws.stored s) - n) (laws.stored s))
        ∙ map-drop (row_key server) (length (laws.stored s) - n) (laws.stored s)
        ∙ rw (held, size) refl
      where
        map_map :
            (rs : List server.Row) → map key (map (bench_event server) rs) ≡ map (row_key server) rs
        map_map [] = refl
        map_map (r ∷ rs) = ap (λ l. row_key server r ∷ l) (map_map rs)

    module _ (clock : ℕ → ℕ) where
      batch_ok :
          (s : server.State) (ks : List (ℕ × ℕ)) (base n : ℕ)
          → 0 < n
          → Holds s ks
          → (postgres_log.append_batch s (events clock 0 base n) base 0).1 ≡ ok tt
          → Holds
              (postgres_log.append_batch s (events clock 0 base n) base 0).0
              (ks ++ map key (events clock 0 base n))
      unfolding events new_event
      batch_ok s ks base zero pos h sent = absurd (omega (arith, pos))
      batch_ok s ks base (suc zero) pos h sent =
          one_ok s ks (new_event (clock base) base 0) base 0 h sent
      batch_ok s ks base (suc (suc n)) pos h sent =
          let p = new_event (clock base) base 0 in
          let q = new_event (clock (base + 1)) (base + 1) 0 in
          let (v, held) = many_ok s ks p q (events clock 0 (base + 1 + 1) n) base 0 h sent in
          subst
            (λ l.
              Holds (postgres_log.append_batch s (events clock 0 base (suc (suc n))) base 0).0
                (ks ++ l))
            (keys-rows_of clock v base (suc (suc n))) held

      pub postgres_log-IsLog : IsLog postgres_log clock key Holds
      unfolding new_event
      postgres_log-IsLog = record {
        batch_held = batch_ok;
        event_held = λ s ks seq h sent. one_ok s ks (new_event (clock seq) seq 1) seq 1 h sent;
        last_read = read_ok;
      }
