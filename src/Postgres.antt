-- ===== src/Postgres.antt =====
-- rust-app/src/postgres/event_store.rs: appends in a transaction, with and without an outbox entry.
-- The `sqlx` crate and the server are the parameter `Postgres`; `uuid`, clock and `serde` are
-- parameters too. The children add the rest of the store.
pub mod Driver
pub mod Appends
pub mod Sequence
pub mod Rows
pub mod Rehydration
pub mod Subscription
pub mod Outbox
pub mod Leases
pub mod Roundtrip
use event_sourcing_testbed.Common.{ℕ, String, List, [], ◌∷◌, Option}
use event_sourcing_testbed.Common.Result.{format}
use event_sourcing_testbed.Kurrent.Driver.{Reply, done, refused}
use event_sourcing_testbed.Store.{
  EventEnvelope, Fallible, success, failure, concurrency_conflict, io, or_io, option_io, bind,
  committed, unless_refused, outbox_entry,
}
use Driver.{Postgres, InsertReply, returned, unique_violation, insert_failed}

module _ (pg : Postgres) {T : Type 0} (to_value : T → Option pg.Json) where
  open pg use {Db, Tx, Json, begin, advance_version, insert_event, insert_outbox, commit, abort}

  -- the match on the insert's answer
  abbrev pub insertion :
      (ℕ → EventEnvelope Json) → Tx × InsertReply → Tx × Fallible (EventEnvelope Json)
  insertion row (tx, returned at) = (tx, success (row at))
  insertion row (tx, unique_violation) =
      (tx, failure (concurrency_conflict (row 0).stream_id (row 0).stream_version))
  insertion row (tx, insert_failed e) = (tx, failure (io ("event insert failed" ∷ e ∷ [])))

  -- `event_id` is the fresh UUID, `occurred_at` the time.
  unfoldable pub append_in_tx :
      String → String → String → String → ℕ → T → Tx → Tx × Fallible (EventEnvelope Json)
  append_in_tx event_id occurred_at stream_id event_type schema_version payload tx =
      let (tx1, version) = advance_version tx stream_id in
      bind (tx1, or_io (format "version counter update failed for '" stream_id "'") version)
        (λ tx1 stream_version.
          bind (tx1, option_io "failed to serialise payload" (to_value payload))
            (λ tx1 payload_json.
              let row : ℕ → EventEnvelope Json = λ global_position. record {
                event_id = event_id;
                stream_id = stream_id;
                stream_version = stream_version;
                global_position = global_position;
                event_type = event_type;
                schema_version = schema_version;
                payload = payload_json;
                occurred_at = occurred_at;
              } in
              insertion row (insert_event tx1 row)))

  abbrev pub in_transaction {ℓ} :
      {A : Type ℓ} → String → Db → (Tx → Tx × Fallible A) → Db × Fallible A
  in_transaction message db body = elim (begin db) [
    | refused e ↦ (db, failure (io ("failed to begin transaction" ∷ e ∷ [])))
    | done tx ↦ committed abort commit message (body tx)
  ]

  unfoldable pub append :
      String → String → String → String → ℕ → T → Db → Db × Fallible (EventEnvelope Json)
  unfolding append_in_tx
  append event_id occurred_at stream_id event_type schema_version payload db =
      in_transaction "failed to commit" db
        (append_in_tx event_id occurred_at stream_id event_type schema_version payload)

  -- the outbox entry behind the event, in the same transaction
  unfoldable pub append_both :
      String → String → String → String → ℕ → T → Tx → Tx × Fallible (EventEnvelope Json)
  unfolding append_in_tx
  append_both event_id occurred_at stream_id event_type schema_version payload tx =
      bind (append_in_tx event_id occurred_at stream_id event_type schema_version payload tx)
        (λ tx1 envelope.
          let (tx2, reply) = insert_outbox tx1 (outbox_entry envelope) in
          (tx2, unless_refused "failed to write integration-event outbox entry" envelope reply))

  unfoldable pub append_with_outbox :
      String → String → String → String → ℕ → T → Db → Db × Fallible (EventEnvelope Json)
  unfolding append_both
  append_with_outbox event_id occurred_at stream_id event_type schema_version payload db =
      in_transaction "failed to commit transaction" db
        (append_both event_id occurred_at stream_id event_type schema_version payload)
