-- ===== src/MongoClient/Streams.antt =====
-- A collection as the log of rust-app/src/hot_cache_bench.rs and rust-app/src/memcache_bench.rs:
-- `append_batch_versioned` and `read_last_n_bench_events` of rust-app/src/mongodb/client.rs.
use event_sourcing_testbed.Common.{
  ℕ, ◌+◌, ◌-◌, ◌<◌, ◌≤◌, ◌≡◌, refl, sym, ap, subst, ◌∙◌, inl, inr, String, List, [], ◌∷◌, ◌++◌, map,
  reverse, Option, none, some, arith, length, length-map, take, drop, reverse-take-reverse, All,
  Option-cases,
}
use mathlib.Core.List.{map-append, filter_map}
use event_sourcing_testbed.Common.Result.{ok, >>=-eq-ok, or_err}
use event_sourcing_testbed.Kurrent.Driver.{Reply, done, refused}
use event_sourcing_testbed.Store.Checkpoints.{with_context_ok, result_cases, reply_cases}
use event_sourcing_testbed.Store.Relay.{IsIn}
use event_sourcing_testbed.Events.{BenchmarkEvent, new as new_event}
use event_sourcing_testbed.Tail.Log.{Log, IsLog, events}
use event_sourcing_testbed.Tail.Newest.{map-take, map-reverse}
use event_sourcing_testbed.Kurrent.Streams.{itself, map-itself}
use event_sourcing_testbed.MongoClient.{
  Server, Bson, text, long, before, stamped, documents, append_batch_versioned, collect, kept,
  read_last_n_bench_events,
}

abbrev pub stamps : List String
stamps = "_id" ∷ "event_type" ∷ "stream_id" ∷ "stream_version" ∷ "global_position" ∷ []

module _ (server : Server) where
  open server use {State, Document, insert, get_i64, increment, insert_many, find_newest}

  -- the documents have the versions from `v` on
  abbrev pub Numbered : ℕ → List Document → Type 0
  Numbered v [] = Unit
  Numbered v (d ∷ ds) = (get_i64 d "stream_version" ≡ some v) × Numbered (v + 1) ds

  -- the documents have versions below `v`
  abbrev pub Below : ℕ → List Document → Type 0
  Below v ds = All (λ d. (w : ℕ) × (get_i64 d "stream_version" ≡ some w) × (w < v)) ds

  -- What the documentation of MongoDB and of its crates promises. `stored` is what the collection has
  -- under the stream's name, by version; `counter` is the stream's version counter.
  pub record Laws (to_document : BenchmarkEvent → Option Document)
      (from_document : Document → Option BenchmarkEvent) (name : String) : Type 0 where
    pub stored : State → List Document
    pub counter : State → ℕ
    pub version_done :
        (s : State) (n : ℕ) (old : Option Document)
        → let after = increment s "_stream_versions" name "version" n in
          after.1 ≡ done old
          → (before server old "version" ≡ counter s)
            × (counter after.0 ≡ counter s + n)
            × (stored after.0 ≡ stored s)
    pub position_done :
        (s : State) (n : ℕ) (old : Option Document)
        → let after = increment s "_global_seq" "counter" "seq" n in
          after.1 ≡ done old → (counter after.0 ≡ counter s) × (stored after.0 ≡ stored s)
    pub insert_done :
        (s : State) (v : ℕ) (ds : List Document)
        → (insert_many s name ds).1 ≡ done tt
        → Below v (stored s)
        → Numbered v ds
        → (stored (insert_many s name ds).0 ≡ stored s ++ ds)
          × (counter (insert_many s name ds).0 ≡ counter s)
    pub found :
        (s : State) (n : ℕ) (ds : List Document)
        → find_newest s name n ≡ done (map done ds)
        → ds ≡ take n (reverse (stored s))
    -- fields of a document
    pub get_inserted :
        (d : Document) (key : String) (n : ℕ) → get_i64 (insert d key (long n)) key ≡ some n
    pub get_version :
        (d : Document) (n : ℕ)
        → get_i64 (insert d "global_position" (long n)) "stream_version"
          ≡ get_i64 d "stream_version"
    pub unknown_ignored :
        (d : Document) (key : String) (v : Bson)
        → IsIn key stamps
        → from_document (insert d key v) ≡ from_document d
    pub round_trip :
        (e : BenchmarkEvent) (d : Document) → to_document e ≡ some d → from_document d ≡ some e

module _ (server : Server) (to_document : BenchmarkEvent → Option server.Document)
    (from_document : server.Document → Option BenchmarkEvent) (uuid : ℕ → String)
    (name : String) where
  abbrev pub mongo_log : Log
  mongo_log = record {
    Server = server.State;
    append_batch = λ s batch base task_id.
        append_batch_versioned server to_document uuid s name "BenchmarkEvent" batch;
    append_event = λ s event seq.
        append_batch_versioned server to_document uuid s name "BenchmarkEvent" (event ∷ []);
    read_last = λ s n. read_last_n_bench_events server from_document s name n;
  }

  module _ (laws : Laws server to_document from_document name) where
    -- The collection holds the events `es`, with versions below the counter.
    abbrev pub Holds : server.State → List BenchmarkEvent → Type 0
    Holds s es =
        (map from_document (laws.stored s) ≡ map some es)
        × Below server (laws.counter s) (laws.stored s)

    stamped_lem :
        (d : server.Document) (id : String) (v p : ℕ)
        → let doc = stamped server d id "BenchmarkEvent" name v p in
          (server.get_i64 doc "stream_version" ≡ some v) × (from_document doc ≡ from_document d)
    stamped_lem d id v p = (
      laws.get_version _ p ∙ laws.get_inserted _ "stream_version" v,
      laws.unknown_ignored _ "global_position" (long p) (inr (inr (inr (inr (inl refl)))))
          ∙ laws.unknown_ignored _ "stream_version" (long v) (inr (inr (inr (inl refl))))
          ∙ laws.unknown_ignored _ "stream_id" (text name) (inr (inr (inl refl)))
          ∙ laws.unknown_ignored _ "event_type" (text "BenchmarkEvent") (inr (inl refl))
          ∙ laws.unknown_ignored _ "_id" (text id) (inl refl),
    )

    or_err_ok :
        (m : String) (o : Option server.Document) (d : server.Document)
        → or_err m o ≡ ok d
        → o ≡ some d
    or_err_ok m none d h = absurd (cc h)
    or_err_ok m (some d') d h = cc h

    documents_ok :
        (v p : ℕ) (ps : List BenchmarkEvent) (ds : List server.Document)
        → documents server to_document uuid name "BenchmarkEvent" v p ps ≡ ok ds
        → Numbered server v ds × (map from_document ds ≡ map some ps)
    unfolding documents
    documents_ok v p [] ds h =
        let same : ◌≡◌ {A = List server.Document} [] ds = cc h in rw (← same) (tt, refl)
    documents_ok v p (e ∷ es) ds h =
        let (doc, made, h1) = >>=-eq-ok _ _ h in
        let (docs, rest, h2) = >>=-eq-ok _ _ h1 in
        let (numbered, read) = documents_ok (v + 1) (p + 1) es docs rest in
        let (version, same) = stamped_lem doc (uuid v) v p in
        let all : stamped server doc (uuid v) "BenchmarkEvent" name v p ∷ docs ≡ ds = cc h2 in
        rw (← all) (
          (version, numbered),
          rw (same, laws.round_trip e doc (or_err_ok _ _ doc made), read) refl,
        )

    Below-append :
        (v m : ℕ) (olds news : List server.Document)
        → Below server v olds
        → Numbered server v news
        → v + length news ≤ m
        → Below server m (olds ++ news)
    Below-append v m [] [] b h size = tt
    Below-append v m [] (d ∷ ds) b (at, h) size =
        ((v, at, omega (arith, size)), Below-append (v + 1) m [] ds tt h (omega (arith, size)))
    Below-append v m (o ∷ os) news ((w, at, less), b) h size =
        ((w, at, omega (arith, less, size)), Below-append v m os news b h size)

    length-Numbered :
        (ps : List BenchmarkEvent) (ds : List server.Document)
        → map from_document ds ≡ map some ps
        → length ds ≡ length ps
    length-Numbered ps ds h =
        sym (length-map from_document ds)
        ∙ ap length h
        ∙ length-map (λ (e : BenchmarkEvent). some e) ps

    append_ok :
        (s : server.State) (es ps : List BenchmarkEvent)
        → Holds s es
        → let after = append_batch_versioned server to_document uuid s name "BenchmarkEvent" ps in
          after.1 ≡ ok tt → Holds after.0 (es ++ ps)
    unfolding append_batch_versioned
    append_ok s es ps (held, below) sent =
        let n = length ps in
        let s1 = (server.increment s "_stream_versions" name "version" n).0 in
        let s2 = (server.increment s1 "_global_seq" "counter" "seq" n).0 in
        elim (reply_cases (server.increment s "_stream_versions" name "version" n).1) [
          | inr (e, bad) ↦ absurd (cc (rw (append_batch_versioned, bad) at sent))
          | inl (ver, first) ↦
              elim (reply_cases (server.increment s1 "_global_seq" "counter" "seq" n).1) [
                | inr (e, bad) ↦ absurd (cc (rw (append_batch_versioned, first, bad) at sent))
                | inl (gseq, second) ↦
                    let start = before server ver "version" in
                    let position = before server gseq "seq" in
                    elim (result_cases
                      (documents server to_document uuid name "BenchmarkEvent" start position ps)) [
                        | inr (e, bad) ↦
                            absurd (cc (rw (append_batch_versioned, first, second, bad) at sent))
                        | inl (ds, made) ↦
                            rw (append_batch_versioned, first, second, made)
                              (inserted s es ps ver gseq ds (held, below) first second made
                                (with_context_ok _ (server.insert_many s2 name ds).1 tt
                                  (rw (append_batch_versioned, first, second, made) at sent)))
                      ]
              ]
        ]
      where
        inserted :
            (s : server.State) (es ps : List BenchmarkEvent) (ver gseq : Option server.Document)
            (ds : List server.Document)
            → Holds s es
            → let n = length ps in
              let s1 = (server.increment s "_stream_versions" name "version" n).0 in
              let s2 = (server.increment s1 "_global_seq" "counter" "seq" n).0 in
              (server.increment s "_stream_versions" name "version" n).1 ≡ done ver
              → (server.increment s1 "_global_seq" "counter" "seq" n).1 ≡ done gseq
              → documents server to_document uuid name "BenchmarkEvent"
                  (before server ver "version")
                  (before server gseq "seq")
                  ps
                ≡ ok ds
              → (server.insert_many s2 name ds).1 ≡ done tt
              → Holds (server.insert_many s2 name ds).0 (es ++ ps)
        inserted s es ps ver gseq ds (held, below) first second made put =
            let n = length ps in
            let s1 = (server.increment s "_stream_versions" name "version" n).0 in
            let s2 = (server.increment s1 "_global_seq" "counter" "seq" n).0 in
            let (start, count1, same1) = laws.version_done s n ver first in
            let (count2, same2) = laws.position_done s1 n gseq second in
            let (numbered, read) = documents_ok _ _ ps ds made in
            let numbered' : Numbered server (laws.counter s) ds =
              subst (λ v. Numbered server v ds) start numbered in
            let same : laws.stored s2 ≡ laws.stored s = same2 ∙ same1 in
            let (grown, count3) =
              laws.insert_done s2 (laws.counter s) ds put (rw same below) numbered' in
            let all : laws.stored (server.insert_many s2 name ds).0 ≡ laws.stored s ++ ds =
              grown ∙ ap (λ l. l ++ ds) same in
            let size = length-Numbered ps ds read in
            (
              rw (all, map-append from_document (laws.stored s) ds, held, read)
                  (sym (map-append some es ps)),
              rw all (
                  Below-append (laws.counter s) _ (laws.stored s) ds below numbered'
                    (omega (arith, count1, count2, count3, size))),
            )

    collect_ok :
        (items : List (Reply server.Document)) (es : List BenchmarkEvent)
        → collect server from_document items ≡ ok es
        → (ds : List server.Document) × (items ≡ map done ds) × (es ≡ filter_map from_document ds)
    unfolding collect filter_map
    collect_ok [] es h =
        let same : ◌≡◌ {A = List BenchmarkEvent} [] es = cc h in ([], refl, sym same)
    collect_ok (refused e ∷ items) es h = absurd (cc h)
    collect_ok (done d ∷ items) es h =
        let (rest, collected, h1) = >>=-eq-ok _ _ h in
        let (ds, same, read) = collect_ok items rest collected in
        (d ∷ ds, ap (λ l. done d ∷ l) same, sym (cc h1) ∙ one_more d rest ds read)
      where
        one_more :
            (d : server.Document) (rest : List BenchmarkEvent) (ds : List server.Document)
            → rest ≡ filter_map from_document ds
            → kept server from_document (from_document d) rest ≡ filter_map from_document (d ∷ ds)
        one_more d rest ds h = elim (Option-cases (from_document d)) [
          | inl skip ↦ rw skip h
          | inr (e, hit) ↦ rw hit (ap (λ l. e ∷ l) h)
        ]

    filter_map_all :
        (ds : List server.Document) (es : List BenchmarkEvent)
        → map from_document ds ≡ map some es
        → filter_map from_document ds ≡ es
    unfolding filter_map
    filter_map_all [] [] h = refl
    filter_map_all [] (e ∷ es) h = absurd (cc h)
    filter_map_all (d ∷ ds) [] h = absurd (cc h)
    filter_map_all (d ∷ ds) (e ∷ es) h =
        let hit : from_document d ≡ some e = cc h in
        rw hit (ap (λ l. e ∷ l) (filter_map_all ds es (cc h)))

    read_ok :
        (s : server.State) (es : List BenchmarkEvent) (n : ℕ) (read : List BenchmarkEvent)
        → Holds s es
        → read_last_n_bench_events server from_document s name n ≡ ok read
        → read ≡ drop (length es - n) es
    unfolding read_last_n_bench_events
    read_ok s es n read (held, below) h =
        let (items, found, h1) = >>=-eq-ok _ _ h in
        let (collected, gathered, h2) = >>=-eq-ok _ _ h1 in
        let (ds, done_all, decoded) = collect_ok items collected gathered in
        let newest =
          laws.found s n ds
            (with_context_ok _ (server.find_newest s name n) items found ∙ ap done done_all) in
        let shown : map from_document ds ≡ map some (take n (reverse es)) =
          ap (map from_document) newest
          ∙ map-take from_document n (reverse (laws.stored s))
          ∙ ap (take n) (
              map-reverse from_document (laws.stored s)
              ∙ ap reverse held
              ∙ sym (map-reverse some es))
          ∙ sym (map-take some n (reverse es)) in
        let all : reverse collected ≡ read = cc h2 in
        sym all
        ∙ ap reverse (decoded ∙ filter_map_all ds (take n (reverse es)) shown)
        ∙ reverse-take-reverse n es

    pub mongo_log-IsLog : (clock : ℕ → ℕ) → IsLog mongo_log clock itself Holds
    mongo_log-IsLog clock = record {
      batch_held = λ s es base n pos h sent.
          rw (map-itself (events clock 0 base n)) (append_ok s es (events clock 0 base n) h sent);
      event_held = λ s es seq h sent. append_ok s es (new_event (clock seq) seq 1 ∷ []) h sent;
      last_read = λ s es n read h loaded. map-itself read ∙ read_ok s es n read h loaded;
    }
