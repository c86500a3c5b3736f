-- ===== src/Postgres/Rows.antt =====
-- `row_to_envelope` of rust-app/src/postgres/event_store.rs. The `get` of a row by a column's name is
-- a parameter; `i64` and `i32` columns count up from 0, so they are natural numbers.
use event_sourcing_testbed.Common.{ℕ, String}
use event_sourcing_testbed.Store.{EventEnvelope}

pub record Columns (Row Json : Type 0) : Type 0 where
  pub get_string : Row → String → String
  pub get_number : Row → String → ℕ
  pub get_json : Row → String → Json
  -- a `TIMESTAMPTZ` as RFC 3339
  pub get_time : Row → String → String

module _ {Row Json : Type 0} (columns : Columns Row Json) (row : Row) where
  unfoldable pub row_to_envelope : EventEnvelope Json
  row_to_envelope = record {
    event_id = columns.get_string row "event_id";
    stream_id = columns.get_string row "stream_id";
    stream_version = columns.get_number row "stream_version";
    global_position = columns.get_number row "global_position";
    event_type = columns.get_string row "event_type";
    schema_version = columns.get_number row "schema_version";
    payload = columns.get_json row "payload";
    occurred_at = columns.get_time row "occurred_at";
  }
