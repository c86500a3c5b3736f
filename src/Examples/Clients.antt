-- ===== src/Examples/Clients.antt =====
-- Clients of the two databases over collections and tables in memory, and runs of the tails on them.
use event_sourcing_testbed.Common.{
  ℕ, ◌+◌, ◌≡◌, refl, sym, ap, String, str_eq, eq_refl, List, [], ◌∷◌, ◌++◌, map, reverse, take,
  Option, none, some, arith, if◌then◌else◌,
}
use event_sourcing_testbed.Common.Result.{Result, ok}
use event_sourcing_testbed.Events.{BenchmarkEvent}
use event_sourcing_testbed.Kurrent.Driver.{Reply, done}
use event_sourcing_testbed.Kurrent.Streams.{itself}
use event_sourcing_testbed.Mongo.Driver.{inserted}
use event_sourcing_testbed.MongoClient as Mongo
use event_sourcing_testbed.MongoClient.{Bson, text, long}
use event_sourcing_testbed.MongoClient.Streams as MongoStreams
use event_sourcing_testbed.MongoClient.Streams.{mongo_log, mongo_log-IsLog}
use event_sourcing_testbed.PostgresClient as Postgres
use event_sourcing_testbed.PostgresClient.{BenchRow}
use event_sourcing_testbed.PostgresClient.Streams as PostgresStreams
use event_sourcing_testbed.PostgresClient.Streams.{key, Shows}
use event_sourcing_testbed.HotCache.{HotCacheConfig}
use event_sourcing_testbed.Memcache
use event_sourcing_testbed.Memcache.{MemcachedCacheConfig}
use event_sourcing_testbed.Memcache.WriteThrough.{Laws, IsWrittenThrough, run-IsWrittenThrough}

-- numbers of fields, and the event
abbrev Doc : Type 0
Doc = (String → Option ℕ) × Option BenchmarkEvent

abbrev with_field : Doc → String → Bson → Doc
with_field d key (text t) = (λ k. if str_eq k key then none else d.0 k, d.1)
with_field d key (long n) = (λ k. if str_eq k key then some n else d.0 k, d.1)

-- the documents, and the two counters
abbrev Collections : Type 0
Collections = List Doc × ℕ × ℕ

abbrev number : ℕ → Reply (Option Doc)
number n = done (some (λ k. some n, none))

abbrev collections : Mongo.Server
collections = record {
  State = Collections;
  Document = Doc;
  insert = with_field;
  get_i64 = λ d k. d.0 k;
  increment = λ s collection key field n.
      if str_eq collection "_global_seq"
      then ((s.0, s.1, s.2 + n), number s.2)
      else ((s.0, s.1 + n, s.2), number s.1);
  insert_many = λ s collection ds. ((s.0 ++ ds, s.1, s.2), done tt);
  insert_one = λ s collection d. ((s.0 ++ d ∷ [], s.1, s.2), inserted);
  find_newest = λ s collection n. done (map done (take n (reverse s.0)));
  find_last = λ s collection. done none;
}

map_done : (xs ys : List Doc) → map done xs ≡ map done ys → ys ≡ xs
map_done [] [] h = refl
map_done [] (y ∷ ys) h = absurd (cc h)
map_done (x ∷ xs) [] h = absurd (cc h)
map_done (x ∷ xs) (y ∷ ys) h =
    let first : x ≡ y = cc h in
    let rest : map done xs ≡ map done ys = cc h in rw (first, map_done xs ys rest) refl

abbrev to_document : BenchmarkEvent → Option Doc
to_document e = some (λ k. none, some e)

collections_laws : MongoStreams.Laws collections to_document (λ d. d.1) "hot-cache"
collections_laws = record {
  stored = λ s. s.0;
  counter = λ s. s.1;
  version_done = λ s n old h.
      let same : some (λ k. some s.1, none) ≡ old = cc h in (rw (← same) refl, refl, refl);
  position_done = λ s n old h. (refl, refl);
  insert_done = λ s v ds h below numbered. (refl, refl);
  found = λ s n ds h. map_done (take n (reverse s.0)) ds (cc h);
  get_inserted = λ d key n. rw (eq_refl key) refl;
  get_version = λ d n. refl;
  unknown_ignored = λ d key v h. same_event d key v;
  round_trip = λ e d h. let same : (λ k. none, some e) ≡ d = cc h in rw (← same) refl;
}
  where
    same_event : (d : Doc) (key : String) (v : Bson) → (with_field d key v).1 ≡ d.1
    same_event d key (text t) = refl
    same_event d key (long n) = refl

abbrev config : HotCacheConfig
config = record {
  seed_events = 3;
  cache_size = 2;
  live_writes = 1;
  seed_batch_size = 2;
  database = "hotcache";
  stream_name = "hot-cache";
}

-- what was there goes
abbrev emptied : Collections → String → Collections × Result (Unit {0})
emptied s name = (([], s.1, s.2), ok tt)

-- the rows, and the version counter
abbrev Tables : Type 0
Tables = List BenchRow × ℕ

abbrev tables : Postgres.Server
tables = record {
  State = Tables;
  Row = BenchRow;
  advance = λ s stream_id n. ((s.0, s.1 + n), done s.1);
  advance_and_insert = λ s stream_id row. ((s.0 ++ row s.1 ∷ [], s.1 + 1), done tt);
  insert_rows = λ s rows. ((s.0 ++ rows, s.1), done tt);
  insert_row = λ s row. ((s.0 ++ row ∷ [], s.1), inserted);
  select_newest = λ s stream_id n. done (take n (reverse s.0));
  select_after = λ s stream_id after limit. done [];
  fetch_stream = λ s stream_id. [];
  get_number = λ r name.
      if str_eq name "seq"
      then r.seq
      else if str_eq name "task_id"
      then r.task_id
      else r.stream_version;
  get_bytes = λ r name. r.payload;
  get_time = λ r name. 0;
}

Shows-refl : (bs : List BenchRow) → Shows tables bs bs
Shows-refl [] = tt
Shows-refl (b ∷ bs) = (refl, refl, refl, Shows-refl bs)

tables_laws : PostgresStreams.Laws tables "hot-cache"
tables_laws = record {
  stored = λ s. s.0;
  counter = λ s. s.1;
  advanced = λ s n start h. (sym (cc h), refl, refl);
  inserted_one = λ s row h below. (row s.1 ∷ [], Shows-refl (row s.1 ∷ []), refl, refl);
  inserted_rows = λ s v bs h below numbered. (bs, Shows-refl bs, refl, refl);
  found = λ s n rows h. sym (cc h);
}

-- Memcached with lists of events for bytes
abbrev cache : Memcache.Client
cache = record {
  State = String → Option (List BenchmarkEvent);
  Bytes = List BenchmarkEvent;
  get = λ m key. done (m key);
  set = λ m key bytes. (λ k. if str_eq k key then some bytes else m k, done tt);
  delete = λ m key. (λ k. if str_eq k key then none else m k, done tt);
  serialize = λ tail. done tail;
  deserialize = λ bytes. done bytes;
}

cache_laws : Laws cache
cache_laws = record {
  cached = λ m key. m key;
  set_done = λ m key b h. rw (eq_refl key) refl;
  round_trip = λ tail b h. ap done (sym (cc h));
}

abbrev cache_config : MemcachedCacheConfig
cache_config = record {
  seed_events = 3;
  cache_size = 2;
  live_writes = 1;
  seed_batch_size = 2;
  stream_name = "hot-cache";
  database = "mcbench";
}

run-IsWrittenThrough_example :
    let log = mongo_log collections to_document (λ d. d.1) (λ n. "id") "hot-cache" in
    IsWrittenThrough log cache cache_laws
      (λ i. i)
      itself
      (MongoStreams.Holds collections to_document
        (λ d. d.1)
        (λ n. "id")
        "hot-cache"
        collections_laws)
      (mongo_log-IsLog collections to_document
        (λ d. d.1)
        (λ n. "id")
        "hot-cache"
        collections_laws
        (λ i. i))
      cache_config
      "mc-bench:mdb:hot-cache"
      (Memcache.run log cache
        (λ i. i)
        cache_config
        "mc-bench:mdb:hot-cache"
        (λ s. emptied s "hot-cache")
        ([], 0, 0)
        (λ k. none))
unfolding collections_laws
run-IsWrittenThrough_example =
    run-IsWrittenThrough (mongo_log collections to_document (λ d. d.1) (λ n. "id") "hot-cache")
      cache cache_laws (λ i. i) itself
      (MongoStreams.Holds collections to_document (λ d. d.1) (λ n. "id") "hot-cache"
        collections_laws)
      (mongo_log-IsLog collections to_document (λ d. d.1) (λ n. "id") "hot-cache" collections_laws
        (λ i. i))
      cache_config "mc-bench:mdb:hot-cache" (λ s. emptied s "hot-cache") ([], 0, 0) (λ k. none)
      (omega arith) (omega arith) (omega arith) (refl, tt)
