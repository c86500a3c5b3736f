-- ===== src/Postgres/Driver.antt =====
-- The interface of the `sqlx` crate, and of the tables behind it, as
-- rust-app/src/postgres/event_store.rs uses them: one function for each statement. A transaction that
-- is dropped is rolled back.
use event_sourcing_testbed.Common.{
  ℕ, ◌+◌, ◌<◌, ◌≡◌, String, str_eq, List, [], ◌∷◌, ◌++◌, Option, some, if◌then◌else◌, All,
}
use mathlib.Core.Option.{get_or}
use event_sourcing_testbed.Kurrent.Driver.{Reply, done}
use event_sourcing_testbed.Store.{EventEnvelope, OutboxEntry}
use event_sourcing_testbed.Store.Atomic.{IsTransactional}

-- the answer to the insert of an event: its `global_position`, or SQL state 23505, or another error
pub data InsertReply : Type 0 where
  returned : ℕ → InsertReply
  unique_violation : InsertReply
  insert_failed : String → InsertReply

-- What the tables hold: the row of a stream in `stream_versions`, events and outbox entries, oldest
-- first.
pub record Tables (Json : Type 0) : Type 0 where
  pub version : String → Option ℕ
  pub events : List (EventEnvelope Json)
  pub outbox : List (OutboxEntry Json)

-- the row with the version after the upsert
abbrev pub advanced : (String → Option ℕ) → String → String → Option ℕ
advanced version stream_id s =
    if str_eq s stream_id then some (get_or (version stream_id) 0 + 1) else version s

pub record Postgres : Type 1 where
  pub Db : Type 0
  pub Tx : Type 0
  pub Json : Type 0
  pub begin : Db → Reply Tx
  -- `INSERT INTO stream_versions … ON CONFLICT … RETURNING version - 1`
  pub advance_version : Tx → String → Tx × Reply ℕ
  -- `INSERT INTO events … RETURNING global_position`; the columns are those of an envelope, but the
  -- position is the server's
  pub insert_event : Tx → (ℕ → EventEnvelope Json) → Tx × InsertReply
  pub insert_outbox : Tx → OutboxEntry Json → Tx × Reply (Unit {0})
  pub commit : Tx → Db × Reply (Unit {0})
  pub abort : Tx → Db
  -- what the tables hold: outside transactions, at the start of one, and inside it
  pub contents : Db → Tables Json
  pub base : Tx → Tables Json
  pub seen : Tx → Tables Json

-- What the documentation of PostgreSQL promises of these statements, on the tables that `bootstrap`
-- declares.
pub record Laws (pg : Postgres) : Type 0 where
  pub begun :
      (db : pg.Db) (tx : pg.Tx)
      → pg.begin db ≡ done tx
      → (pg.base tx ≡ pg.contents db) × (pg.seen tx ≡ pg.contents db)
  pub advance_base :
      (tx : pg.Tx) (stream_id : String) → pg.base (pg.advance_version tx stream_id).0 ≡ pg.base tx
  pub advance_done :
      (tx : pg.Tx) (stream_id : String) (before : ℕ)
      → (pg.advance_version tx stream_id).1 ≡ done before
      → (pg.seen (pg.advance_version tx stream_id).0
          ≡ record (pg.seen tx) { version = advanced (pg.seen tx).version stream_id })
        × (before ≡ get_or ((pg.seen tx).version stream_id) 0)
  pub insert_event_base :
      (tx : pg.Tx) (row : ℕ → EventEnvelope pg.Json)
      → pg.base (pg.insert_event tx row).0 ≡ pg.base tx
  -- `GENERATED ALWAYS AS IDENTITY`: the position is greater than those given before
  pub insert_event_done :
      (tx : pg.Tx) (row : ℕ → EventEnvelope pg.Json) (at : ℕ)
      → (pg.insert_event tx row).1 ≡ returned at
      → (pg.seen (pg.insert_event tx row).0
          ≡ record (pg.seen tx) { events = (pg.seen tx).events ++ row at ∷ [] })
        × All (λ (e : EventEnvelope pg.Json). e.global_position < at) (pg.seen tx).events
  pub insert_outbox_base :
      (tx : pg.Tx) (o : OutboxEntry pg.Json) → pg.base (pg.insert_outbox tx o).0 ≡ pg.base tx
  pub insert_outbox_done :
      (tx : pg.Tx) (o : OutboxEntry pg.Json)
      → (pg.insert_outbox tx o).1 ≡ done tt
      → pg.seen (pg.insert_outbox tx o).0
        ≡ record (pg.seen tx) { outbox = (pg.seen tx).outbox ++ o ∷ [] }
  pub transactional : IsTransactional pg.abort pg.commit pg.contents pg.base pg.seen
