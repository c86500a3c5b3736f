-- ===== src/Mongo/Driver.antt =====
-- The interface of the `mongodb` and `bson` crates as rust-app/src/mongodb/event_store.rs calls them.
-- A session holds the writes of its open transaction; dropping it aborts the transaction.
use event_sourcing_testbed.Common.{
  ℕ, ◌+◌, ◌≡◌, String, str_eq, List, [], ◌∷◌, ◌++◌, Option, none, some, ◌&&◌, if◌then◌else◌,
}
use mathlib.Core.Option.{get_or}
use event_sourcing_testbed.Kurrent.Driver.{Reply, done}
use event_sourcing_testbed.Store.Atomic.{IsTransactional}
pub use event_sourcing_testbed.Store.{EventEnvelope, OutboxEntry}

pub data InsertReply : Type 0 where
  inserted : InsertReply
  duplicate_key : InsertReply
  insert_failed : String → InsertReply

-- What the collections hold: counters by collection and `_id`, events and outbox entries, both
-- oldest first.
pub record Contents (Document : Type 0) : Type 0 where
  pub counter : String → String → Option ℕ
  pub events : List (EventEnvelope Document)
  pub outbox : List (OutboxEntry Document)

-- `$inc` by one, with `upsert`: an absent counter becomes one
abbrev pub increase : (String → String → Option ℕ) → String → String → String → String → Option ℕ
increase counter collection key c k =
    if str_eq c collection && str_eq k key then some (get_or (counter c k) 0 + 1) else counter c k

pub record Mongo : Type 1 where
  pub Db : Type 0
  pub Session : Type 0
  pub Document : Type 0
  pub start_session : Db → Reply Session
  pub start_transaction : Session → Reply Session
  -- `find_one_and_update` with `$inc` by one, `upsert` and `ReturnDocument::Before`
  pub increment : Session → String → String → String → Session × Reply (Option Document)
  pub get_i64 : Document → String → Option ℕ
  pub encode_envelope : EventEnvelope Document → Option Document
  pub insert_event : Session → Document → Session × InsertReply
  pub insert_outbox : Session → OutboxEntry Document → Session × Reply (Unit {0})
  pub commit_transaction : Session → Db × Reply (Unit {0})
  pub abort : Session → Db
  -- what the collections hold: outside transactions, at the start of one, and inside it
  pub contents : Db → Contents Document
  pub base : Session → Contents Document
  pub seen : Session → Contents Document

-- What the documentation of MongoDB promises of these calls.
pub record Laws (mongo : Mongo) : Type 0 where
  pub session :
      (db : mongo.Db) (t u : mongo.Session)
      → mongo.start_session db ≡ done t
      → mongo.start_transaction t ≡ done u
      → (mongo.base u ≡ mongo.contents db) × (mongo.seen u ≡ mongo.contents db)
  pub increment_base :
      (t : mongo.Session) (collection key field : String)
      → mongo.base (mongo.increment t collection key field).0 ≡ mongo.base t
  -- the answer is the document as it was before
  pub increment_done :
      (t : mongo.Session) (collection key field : String) (before : Option mongo.Document)
      → (mongo.increment t collection key field).1 ≡ done before
      → (mongo.seen (mongo.increment t collection key field).0
          ≡ record (mongo.seen t) { counter = increase (mongo.seen t).counter collection key })
        × (elim before [ none ↦ none | some d ↦ mongo.get_i64 d field ]
            ≡ (mongo.seen t).counter collection key)
  pub insert_event_base :
      (t : mongo.Session) (d : mongo.Document)
      → mongo.base (mongo.insert_event t d).0 ≡ mongo.base t
  pub insert_event_done :
      (t : mongo.Session) (e : EventEnvelope mongo.Document) (d : mongo.Document)
      → mongo.encode_envelope e ≡ some d
      → (mongo.insert_event t d).1 ≡ inserted
      → mongo.seen (mongo.insert_event t d).0
        ≡ record (mongo.seen t) { events = (mongo.seen t).events ++ e ∷ [] }
  pub insert_outbox_base :
      (t : mongo.Session) (o : OutboxEntry mongo.Document)
      → mongo.base (mongo.insert_outbox t o).0 ≡ mongo.base t
  pub insert_outbox_done :
      (t : mongo.Session) (o : OutboxEntry mongo.Document)
      → (mongo.insert_outbox t o).1 ≡ done tt
      → mongo.seen (mongo.insert_outbox t o).0
        ≡ record (mongo.seen t) { outbox = (mongo.seen t).outbox ++ o ∷ [] }
  pub transactional :
      IsTransactional mongo.abort mongo.commit_transaction mongo.contents mongo.base mongo.seen
