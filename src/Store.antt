-- ===== src/Store.antt =====
-- What rust-app/src/mongodb/event_store.rs and rust-app/src/postgres/event_store.rs share: the
-- errors, the envelope, the outbox entry, and the shape of a transaction. A payload is a BSON
-- document in the one and a JSON value in the other: its type is a parameter. Positions and versions
-- are `i64`s that count up from 0, so they are natural numbers.
pub mod Atomic
pub mod Versions
pub mod Aggregates
pub mod Checkpoints
pub mod Relay
use event_sourcing_testbed.Common.{ℕ, String, List, [], ◌∷◌, Option, none, some, Bool, false}
use event_sourcing_testbed.Kurrent.Driver.{Reply, done, refused}

pub data EventStoreError : Type 0 where
  concurrency_conflict : String → ℕ → EventStoreError
  io : List String → EventStoreError

pub record EventEnvelope (Document : Type 0) : Type 0 where
  pub event_id : String
  pub stream_id : String
  pub stream_version : ℕ
  pub global_position : ℕ
  pub event_type : String
  pub schema_version : ℕ
  pub payload : Document
  pub occurred_at : String

-- an entry of the integration outbox
pub record OutboxEntry (Document : Type 0) : Type 0 where
  pub id : String
  pub stream_id : String
  pub global_position : ℕ
  pub event_type : String
  pub payload : Document
  pub dispatched : Bool

-- the entry that goes with an event
abbrev pub outbox_entry : {Document : Type 0} → EventEnvelope Document → OutboxEntry Document
outbox_entry envelope = record {
  id = envelope.event_id;
  stream_id = envelope.stream_id;
  global_position = envelope.global_position;
  event_type = envelope.event_type;
  payload = envelope.payload;
  dispatched = false;
}

pub data Fallible {ℓ} (A : Type ℓ) : Type ℓ where
  success : A → Fallible A
  failure : EventStoreError → Fallible A

-- `.context(message).map_err(EventStoreError::Io)`
abbrev pub or_io {ℓ} : {A : Type ℓ} → String → Reply A → Fallible A
or_io message (done a) = success a
or_io message (refused e) = failure (io (message ∷ e ∷ []))

abbrev pub option_io {ℓ} : {A : Type ℓ} → String → Option A → Fallible A
option_io message none = failure (io (message ∷ []))
option_io message (some a) = success a

-- `?` behind a call that may change the state
unfoldable pub bind {ℓ κ} :
    {S : Type ℓ} {A B : Type κ} → S × Fallible A → (S → A → S × Fallible B) → S × Fallible B
bind (s, success a) k = k s a
bind (s, failure e) k = (s, failure e)

-- what becomes of the value when the commit has answered
abbrev pub unless_refused {ℓ} : {A : Type ℓ} → String → A → Reply (Unit {0}) → Fallible A
unless_refused message a (done u) = success a
unless_refused message a (refused e) = failure (io (message ∷ e ∷ []))

-- The commit, if all before it went well; else the transaction is dropped, which aborts it.
abbrev pub committed {ℓ} :
    {Db Session : Type 0} {A : Type ℓ}
    → (Session → Db)
    → (Session → Db × Reply (Unit {0}))
    → String
    → Session × Fallible A
    → Db × Fallible A
committed abort commit message (t, failure e) = (abort t, failure e)
committed abort commit message (t, success a) =
    let (db, reply) = commit t in (db, unless_refused message a reply)
