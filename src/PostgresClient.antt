-- ===== src/PostgresClient.antt =====
-- rust-app/src/postgres/client.rs: the appends and reads of `PostgresClient`. The `sqlx` crate and the
-- server are the parameter `Server`, with one function for each statement; `uuid` and `serde` are
-- parameters too. A `u64` that is stored as an `i64` and read as a `u64` is the same again, so that
-- these casts are left out; versions and positions count up from 0.
pub mod Streams
use event_sourcing_testbed.Common.{
  ℕ, zero, suc, ◌+◌, String, List, [], ◌∷◌, map, reverse, Option, none, some, length,
}
use event_sourcing_testbed.Common.Result.{Result, ok, err, format, ◌>>=◌}
use event_sourcing_testbed.Events.{BenchmarkEvent}
use event_sourcing_testbed.Kurrent.Driver.{Reply, done, refused}
use event_sourcing_testbed.Mongo.Driver.{InsertReply, inserted, duplicate_key, insert_failed}
use event_sourcing_testbed.Store.Checkpoints.{with_context}

-- a row of `bench_events` as it is inserted; `created_at` and `global_position` are the server's
pub record BenchRow : Type 0 where
  pub event_id : String
  pub stream_id : String
  pub stream_version : ℕ
  pub event_type : String
  pub seq : ℕ
  pub task_id : ℕ
  pub payload : List ℕ

pub record Server : Type 1 where
  pub State : Type 0
  pub Row : Type 0
  -- `INSERT INTO stream_versions … ON CONFLICT … RETURNING version - $2`
  pub advance : State → String → ℕ → State × Reply ℕ
  -- the statement that advances the version by one and inserts the row with the old one
  pub advance_and_insert : State → String → (ℕ → BenchRow) → State × Reply (Unit {0})
  pub insert_rows : State → List BenchRow → State × Reply (Unit {0})
  -- the insert of one row; `duplicate_key` is SQL state 23505
  pub insert_row : State → BenchRow → State × InsertReply
  -- `… WHERE stream_id = $1 ORDER BY stream_version DESC LIMIT $2`
  pub select_newest : State → String → ℕ → Reply (List Row)
  -- `… WHERE stream_id = $1 AND global_position > $2 ORDER BY global_position LIMIT $3`
  pub select_after : State → String → ℕ → ℕ → Reply (List Row)
  -- `SELECT event_id … ORDER BY stream_version`: what `try_next` yields
  pub fetch_stream : State → String → List (Reply Row)
  pub get_number : Row → String → ℕ
  pub get_bytes : Row → String → List ℕ
  pub get_time : Row → String → ℕ

module _ (server : Server) where
  open server use {
    State, Row, advance, advance_and_insert, insert_rows, insert_row, select_newest, select_after,
    fetch_stream, get_number, get_bytes, get_time,
  }

  -- `to_vec` is `serde_json::to_vec(p).unwrap_or_default()`; `uuid` gives the fresh identifier for a
  -- version.
  module _ {T : Type 0} (to_vec : T → List ℕ) (uuid : ℕ → String) where
    abbrev pub row_of : String → String → ℕ → ℕ → ℕ → T → BenchRow
    row_of stream_id event_type stream_version seq task_id payload = record {
      event_id = uuid stream_version;
      stream_id = stream_id;
      stream_version = stream_version;
      event_type = event_type;
      seq = seq;
      task_id = task_id;
      payload = to_vec payload;
    }

    -- `push_values`, from a version and a number on
    unfoldable pub rows_of : String → String → ℕ → ℕ → ℕ → List T → List BenchRow
    rows_of stream_id event_type stream_version seq task_id [] = []
    rows_of stream_id event_type stream_version seq task_id (p ∷ ps) =
        row_of stream_id event_type stream_version seq task_id p
        ∷ rows_of stream_id event_type (stream_version + 1) (seq + 1) task_id ps

    unfoldable pub append_batch_versioned :
        State → String → String → List T → ℕ → ℕ → State × Result ℕ
    unfolding rows_of
    append_batch_versioned s stream_id event_type [] base_seq task_id = (s, ok 0)
    append_batch_versioned s stream_id event_type (p ∷ []) base_seq task_id =
        let (s', reply) =
          advance_and_insert s stream_id
            (λ start_ver. row_of stream_id event_type start_ver base_seq task_id p) in
        (
          s',
          with_context (format "single-event versioned insert failed for '" stream_id "'") reply
              >>= λ u. ok 1,
        )
    append_batch_versioned s stream_id event_type (p ∷ q ∷ ps) base_seq task_id =
        let batch_len = length (p ∷ q ∷ ps) in
        let (s1, row) = advance s stream_id batch_len in
        elim (with_context (format "version counter update failed for '" stream_id "'") row) [
          | err e ↦ (s1, err e)
          | ok start_version ↦
              let (s2, reply) =
                insert_rows s1
                  (rows_of stream_id event_type start_version base_seq task_id (p ∷ q ∷ ps)) in
              (s2, with_context "versioned batch insert failed" reply >>= λ u. ok batch_len)
        ]

    abbrev pub explicit : String → State × InsertReply → State × Result (Unit {0})
    explicit stream_id (s, inserted) = (s, ok tt)
    explicit stream_id (s, duplicate_key) = (s, err ("wrong expected version" ∷ []))
    explicit stream_id (s, insert_failed e) =
        (s, err (format "explicit-version insert failed for '" stream_id "'" ∷ e ∷ []))

    unfoldable pub append_with_stream_version :
        State → String → String → T → ℕ → ℕ → ℕ → State × Result (Unit {0})
    append_with_stream_version s stream_id event_type payload stream_version seq task_id =
        explicit stream_id
          (insert_row s (row_of stream_id event_type stream_version seq task_id payload))

  abbrev pub first : List Row → Option ℕ
  first [] = none
  first (r ∷ rs) = some (get_number r "stream_version")

  unfoldable pub read_last_stream_version : State → String → Result (Option ℕ)
  read_last_stream_version s stream_id =
      with_context (format "failed to read last stream version for '" stream_id "'")
        (select_newest s stream_id 1)
      >>= λ rows. ok (first rows)

  abbrev pub bench_event : Row → BenchmarkEvent
  bench_event row = record {
    seq = get_number row "seq";
    task_id = get_number row "task_id";
    payload = get_bytes row "payload";
    created_at = get_time row "created_at";
  }

  unfoldable pub read_last_n_stream_bench_events : State → String → ℕ → Result (List BenchmarkEvent)
  read_last_n_stream_bench_events s stream_id n =
      with_context "read_last_n_stream_bench_events failed" (select_newest s stream_id n)
      >>= λ rows. ok (reverse (map bench_event rows))

  unfoldable pub poll_new_events : State → String → ℕ → ℕ → Result (List (ℕ × ℕ))
  poll_new_events s stream_id after limit =
      with_context "poll_new_events failed" (select_after s stream_id after limit) >>= λ rows.
      ok (map (λ r. (get_number r "seq", get_number r "global_position")) rows)

  -- the loop of `rehydrate_stream`, from a count on
  abbrev pub count_rows : ℕ → List (Reply Row) → Result ℕ
  count_rows count [] = ok count
  count_rows count (refused e ∷ items) = err (e ∷ [])
  count_rows count (done row ∷ items) = count_rows (count + 1) items

  unfoldable pub rehydrate_stream : State → String → Result ℕ
  rehydrate_stream s stream_id = count_rows 0 (fetch_stream s stream_id)
