-- ===== src/Mongo.antt =====
-- rust-app/src/mongodb/event_store.rs: appends in a transaction, with and without an outbox entry,
-- and the rehydration of an aggregate. The `mongodb` crate is the parameter `Mongo`; `uuid`, clock and
-- `serde` are parameters too. Positions and versions are `i64`s that count up from 0, so they are
-- natural numbers; -1 is `negsuc 0`.
pub mod Driver
pub mod Appends
pub mod Sequence
pub mod Rehydration
pub mod Subscription
pub mod Outbox
pub mod Leases
pub mod Checkpoints
use event_sourcing_testbed.Common.{
  ℕ, zero, suc, ◌+◌, String, List, [], ◌∷◌, ◌++◌, Option, none, some, Bool, true, false,
  if◌then◌else◌,
}
use mathlib.Core.Option.{get_or}
use event_sourcing_testbed.Common.Result.{format}
use event_sourcing_testbed.Kurrent.Driver.{Reply, done, refused}
use event_sourcing_testbed.Store.{
  Fallible, success, failure, EventStoreError, concurrency_conflict, io, or_io, option_io, bind,
  committed, unless_refused, outbox_entry,
}
use Driver.{Mongo, EventEnvelope, OutboxEntry, InsertReply, inserted, duplicate_key, insert_failed}

module _ (mongo : Mongo) {T : Type 0} (to_document : T → Option mongo.Document) where
  open mongo use {
    Db, Session, Document, start_session, start_transaction, increment, get_i64, encode_envelope,
    insert_event, insert_outbox, commit_transaction, abort,
  }

  -- `doc.as_ref().and_then(|d| d.get_i64(field).ok()).unwrap_or(0)`
  abbrev pub counted : Option Document → String → ℕ
  counted none field = 0
  counted (some d) field = get_or (get_i64 d field) 0

  -- the match on the insert's answer
  abbrev pub insertion :
      EventEnvelope Document → Session × InsertReply → Session × Fallible (EventEnvelope Document)
  insertion envelope (t, inserted) = (t, success envelope)
  insertion envelope (t, duplicate_key) =
      (t, failure (concurrency_conflict envelope.stream_id envelope.stream_version))
  insertion envelope (t, insert_failed e) = (t, failure (io ("event insert failed" ∷ e ∷ [])))

  -- `event_id` is the fresh UUID, `now` the time.
  unfoldable pub append_in_session :
      String
      → String
      → String
      → String
      → ℕ
      → T
      → Session
      → Session × Fallible (EventEnvelope Document)
  append_in_session event_id now stream_id event_type schema_version payload t =
      let (t1, version) = increment t "_stream_versions" stream_id "version" in
      bind (t1, or_io (format "version counter update failed for '" stream_id "'") version)
        (λ t1 ver_doc.
          let (t2, seq) = increment t1 "_global_seq" "counter" "seq" in
          bind (t2, or_io "global sequence counter update failed" seq)
            (λ t2 gseq_doc.
              bind (t2, option_io "failed to serialise payload" (to_document payload))
                (λ t2 payload_doc.
                  let envelope : EventEnvelope Document = record {
                    event_id = event_id;
                    stream_id = stream_id;
                    stream_version = counted ver_doc "version";
                    global_position = counted gseq_doc "seq";
                    event_type = event_type;
                    schema_version = schema_version;
                    payload = payload_doc;
                    occurred_at = now;
                  } in
                  bind (t2, option_io "failed to serialise envelope" (encode_envelope envelope))
                    (λ t2 doc. insertion envelope (insert_event t2 doc)))))

  abbrev pub in_transaction {ℓ} :
      {A : Type ℓ} → Db → (Session → Session × Fallible A) → Db × Fallible A
  in_transaction db body = elim (start_session db) [
    | refused e ↦ (db, failure (io ("failed to start session" ∷ e ∷ [])))
    | done t ↦ elim (start_transaction t) [
      | refused e ↦ (db, failure (io ("failed to start transaction" ∷ e ∷ [])))
      | done u ↦ committed abort commit_transaction "failed to commit transaction" (body u)
    ]
  ]

  unfoldable pub append :
      String → String → String → String → ℕ → T → Db → Db × Fallible (EventEnvelope Document)
  unfolding append_in_session
  append event_id now stream_id event_type schema_version payload db =
      in_transaction db (append_in_session event_id now stream_id event_type schema_version payload)

  -- the outbox entry behind the event, in the same session
  unfoldable pub append_both :
      String
      → String
      → String
      → String
      → ℕ
      → T
      → Session
      → Session × Fallible (EventEnvelope Document)
  unfolding append_in_session
  append_both event_id now stream_id event_type schema_version payload t =
      bind (append_in_session event_id now stream_id event_type schema_version payload t)
        (λ t1 envelope.
          let (t2, reply) = insert_outbox t1 (outbox_entry envelope) in
          (t2, unless_refused "failed to write integration-event outbox entry" envelope reply))

  unfoldable pub append_with_outbox :
      String → String → String → String → ℕ → T → Db → Db × Fallible (EventEnvelope Document)
  unfolding append_both
  append_with_outbox event_id now stream_id event_type schema_version payload db =
      in_transaction db (append_both event_id now stream_id event_type schema_version payload)
