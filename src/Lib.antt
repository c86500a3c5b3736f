-- ===== src/Lib.antt =====
-- A testbed that stores events in KurrentDB, MongoDB and PostgreSQL and measures how the three do
-- (rust-app/src). Each file models the Rust code that its first comment names, with the code's names.
--
--   Events       rust-app/src/events.rs: the domain events, the benchmark payload, the upcast verdicts.
--   Upcast       UpcastRegistry of rust-app/src/mongodb/event_store.rs. The version loop takes fuel;
--                target - stored + 1 is enough, since each turn adds one to the version.
--   Kurrent      rust-app/src/kurrentdb/client.rs over the interface Kurrent.Driver of the crate and
--                the server. A read is the list of what `next` yields.
--   Inventory    the aggregate of rust-app/src/kurrentdb/snapshot_demo.rs, with u64 and i64 wrap-around.
--   Snapshot     `run` of that file, as the phases of writing, rehydration and verification. The write
--                loop takes fuel; event_count + 1 is enough when snapshot_every is not 0 and the sum of the
--                two is below 2 ^ 32.
--   Tail         what the runners that keep the newest events share: a bounded queue, a stream of
--                events as an interface with its laws (Tail.Log), and the seeding in batches.
--   HotCache     rust-app/src/hot_cache_bench.rs: the ring buffer, and the runners for the three
--                databases (HotCache.Runners). Their loops run over counted ranges, without fuel.
--   Store        what the MongoDB and PostgreSQL stores share: errors, envelope, outbox entry, the shape
--                of a transaction (Store.Atomic), the order of versions and positions
--                (Store.Versions), the fold of rehydration (Store.Aggregates), checkpoints and
--                consumers (Store.Checkpoints), and the outbox as a specification with the relay loop
--                (Store.Relay). A loop that ends at a shutdown takes the number of its turns.
--   Mongo        rust-app/src/mongodb/event_store.rs over the interface Mongo.Driver: appends,
--                Mongo.Rehydration, Mongo.Checkpoints, Mongo.Subscription, Mongo.Leases and the relay
--                (Mongo.Outbox), whose workers also run call by call (Mongo.Outbox.Workers).
--   Postgres     rust-app/src/postgres/event_store.rs over Postgres.Driver: appends,
--                Postgres.Rehydration, Postgres.Subscription, Postgres.Leases and the relay
--                (Postgres.Outbox). What the SQL of `bootstrap` declares is the laws.
--   MongoClient  rust-app/src/mongodb/client.rs: versioned appends and reads; MongoClient.Streams shows
--                that they satisfy Tail.Log.
--   PostgresClient  rust-app/src/postgres/client.rs in the same way.
--   Memcache     rust-app/src/memcache_bench.rs: the tail in Memcached and its runner over Tail.Log.
--   Projection   the view and the projectors of rust-app/src/projection_bench.rs; the polling one runs
--                beside writers, in steps.
--   Contention   one hot write of rust-app/src/{kurrentdb,mongodb,postgres}/hot_stream_contention_bench.rs.
--   Common       the shared types, tests, lists, words and results.
--   Examples     an in-memory server and database that satisfy the interfaces, and small runs on them.
--
-- The rehydrations use the upcasters; Snapshot runs on the client of Kurrent, HotCache and Memcache on
-- the three clients. State is passed explicitly, and an `anyhow` error is the list of its messages.
-- The crates (`kurrentdb`, `mongodb`, `sqlx`, `serde_json`, `uuid`, `chrono`, `rand`, `memcache`,
-- `bincode`) and the servers are parameters with their documented behaviour as laws: the records named
-- Laws, IsReliable, IsHonest, IsFaithful, IsTransactional and Selects.
--
-- Not modelled: printing, timing, histograms and readiness loops; the appends without versions; the
-- creation of collections, tables and indexes; the other benchmarks and the command line
-- (rust-app/src/main.rs), which drive these parts and measure them.
-- Columns of type `i32` and `i64` that count up from 0 are natural numbers. What other workers commit
-- while a PostgreSQL transaction runs is left out, and so is a relay that a shutdown drops between two
-- of its calls.
pub mod Common
pub mod Events
pub mod Upcast
pub mod Kurrent
pub mod Inventory
pub mod Snapshot
pub mod Tail
pub mod HotCache
pub mod Store
pub mod Mongo
pub mod MongoClient
pub mod Postgres
pub mod PostgresClient
pub mod Memcache
pub mod Projection
pub mod Contention
pub mod Examples
