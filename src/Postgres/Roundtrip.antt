-- ===== src/Postgres/Roundtrip.antt =====
-- `append` and `rehydrate` of rust-app/src/postgres/event_store.rs together.
use event_sourcing_testbed.Common.{
  ℕ, ◌≡◌, refl, sym, ap, ◌∙◌, String, str_eq, eq_refl, List, [], ◌∷◌, ◌++◌, Option, some,
  if◌then◌else◌, map, inl, inr, Bool-cases,
}
use mathlib.Core.Option.{get_or}
use mathlib.Core.List.{map-append}
use event_sourcing_testbed.Common.Int.{ℤ, pos}
use event_sourcing_testbed.Common.Result.{ok}
use event_sourcing_testbed.Kurrent.Driver.{Reply, done}
use event_sourcing_testbed.Upcast.{UpcastRegistry}
use event_sourcing_testbed.Store.{EventEnvelope, success}
use event_sourcing_testbed.Store.Aggregates.{Aggregate, absorbed, event_at}
use event_sourcing_testbed.Store.Versions.{versions_of, count_up}
use event_sourcing_testbed.Postgres.{append}
use event_sourcing_testbed.Postgres.Driver.{Postgres, Laws}
use event_sourcing_testbed.Postgres.Rows.{Columns}
use event_sourcing_testbed.Postgres.Appends.{append-IsWhole}
use event_sourcing_testbed.Postgres.Sequence.{IsOrdered, append-IsOrdered}
use event_sourcing_testbed.Postgres.Rehydration.{rehydrate, rehydrate_folds, rehydrate-snoc}

module _ {Json : Type 0} where
  -- the events of a stream
  abbrev pub of_stream : String → List (EventEnvelope Json) → List (EventEnvelope Json)
  of_stream s [] = []
  of_stream s (e ∷ es) =
      let rest = of_stream s es in if str_eq e.stream_id s then e ∷ rest else rest

  of_stream-snoc :
      (s : String) (es : List (EventEnvelope Json)) (e : EventEnvelope Json)
      → e.stream_id ≡ s
      → of_stream s (es ++ e ∷ []) ≡ of_stream s es ++ e ∷ []
  of_stream-snoc s [] e own = rw (own, eq_refl s) refl
  of_stream-snoc s (x ∷ es) e own = elim (Bool-cases (str_eq x.stream_id s)) [
    | inl same ↦ rw same (ap (λ l. x ∷ l) (of_stream-snoc s es e own))
    | inr differ ↦ rw differ (of_stream-snoc s es e own)
  ]

-- `SELECT … WHERE stream_id = $1 ORDER BY stream_version`, and the row of an event
pub record Query (pg : Postgres) : Type 1 where
  pub Row : Type 0
  pub columns : Columns Row pg.Json
  pub fetch_stream : pg.Db → String → Reply (List Row)
  pub row_of : EventEnvelope pg.Json → Row

-- What is promised of it; rows whose versions count up are in order already.
pub record Selects (pg : Postgres) (query : Query pg) : Type 0 where
  pub selected :
      (db : pg.Db) (s : String) (rows : List query.Row) (n : ℕ)
      → query.fetch_stream db s ≡ done rows
      → versions_of s (pg.contents db).events ≡ count_up n
      → rows ≡ map query.row_of (of_stream s (pg.contents db).events)
  pub type_column :
      (e : EventEnvelope pg.Json)
      → query.columns.get_string (query.row_of e) "event_type" ≡ e.event_type
  pub schema_column :
      (e : EventEnvelope pg.Json)
      → query.columns.get_number (query.row_of e) "schema_version" ≡ e.schema_version
  pub payload_column :
      (e : EventEnvelope pg.Json) → query.columns.get_json (query.row_of e) "payload" ≡ e.payload
  pub version_column :
      (e : EventEnvelope pg.Json)
      → query.columns.get_number (query.row_of e) "stream_version" ≡ e.stream_version

module _ (pg : Postgres) (laws : Laws pg) (query : Query pg) (selects : Selects pg query)
    {T : Type 0} (to_value : T → Option pg.Json) (aggregate : Aggregate pg.Json)
    (reg : UpcastRegistry pg.Json) (tag : String → pg.Json → pg.Json) where
  rows_after :
      (db : pg.Db) (s : String) (rows : List query.Row)
      → IsOrdered (pg.contents db)
      → query.fetch_stream db s ≡ done rows
      → rows ≡ map query.row_of (of_stream s (pg.contents db).events)
  rows_after db s rows ordered fetched =
      selects.selected db s rows (get_or ((pg.contents db).version s) 0) fetched
        (ordered.versioned.versions s)

  -- From tables in order, an `append` that succeeds adds to what the stream's `rehydrate` gives just
  -- the event that it stored, at the version that its upcasters reach, and its version.
  pub rehydrate-append :
      (event_id now stream_id event_type : String) (schema_version : ℕ) (payload : T) (db : pg.Db)
      (e : EventEnvelope pg.Json) (rows rows' : List query.Row)
      → let after =
          append pg to_value event_id now stream_id event_type schema_version payload db in
        IsOrdered (pg.contents db)
        → after.1 ≡ success e
        → query.fetch_stream db stream_id ≡ done rows
        → query.fetch_stream after.0 stream_id ≡ done rows'
        → (state : aggregate.State) × (version : ℤ) × (rehydrate query.columns aggregate reg tag
              (done rows)
            ≡ some (ok (state, version)))
          × (rehydrate query.columns aggregate reg tag (done rows')
              ≡ some (
                  ok (
                    absorbed aggregate reg tag state
                        (event_at aggregate reg tag e.event_type e.schema_version e.payload),
                    pos e.stream_version,
                  )))
  rehydrate-append event_id now stream_id event_type schema_version payload db e rows rows' ordered
        stored fetched fetched' =
      let atomic =
        append-IsWhole pg laws to_value event_id now stream_id event_type schema_version payload
          db in
      let (grows, _, _, at) = rw stored at atomic in
      let ordered' =
        append-IsOrdered pg laws to_value event_id now stream_id event_type schema_version payload
          db ordered in
      let more : rows' ≡ rows ++ query.row_of e ∷ [] =
        rows_after _ stream_id rows' ordered' fetched'
        ∙ ap (λ c. map query.row_of (of_stream stream_id c.events)) grows
        ∙ ap (map query.row_of) (of_stream-snoc stream_id (pg.contents db).events e at)
        ∙ map-append query.row_of _ (e ∷ [])
        ∙ ap (λ l. l ++ query.row_of e ∷ []) (sym (rows_after db stream_id rows ordered fetched)) in
      let again = rehydrate-snoc query.columns aggregate reg tag rows (query.row_of e) in
      (
        _,
        _,
        rehydrate_folds query.columns aggregate reg tag rows,
        rw more (
            rw
              (
                selects.type_column e,
                selects.schema_column e,
                selects.payload_column e,
                selects.version_column e,
              )
              at again),
      )
