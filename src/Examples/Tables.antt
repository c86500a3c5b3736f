-- ===== src/Examples/Tables.antt =====
-- A PostgreSQL server in memory, and appends to its tables.
use event_sourcing_testbed.Common.{
  ℕ, suc, ◌+◌, ◌<◌, ◌≤◌, ◌≡◌, refl, sym, ap, ◌∙◌, str_eq, List, [], ◌∷◌, ◌++◌, none, some, map, max,
  All, arith, if◌then◌else◌,
}
use mathlib.Core.Option.{get_or}
use event_sourcing_testbed.Common.Int.{ℤ, pos}
use event_sourcing_testbed.Common.Result.{ok}
use event_sourcing_testbed.Kurrent.Driver.{done}
use event_sourcing_testbed.Store.{EventEnvelope, bind}
use event_sourcing_testbed.Store.Aggregates.{Aggregate, absorbed, event_at}
use event_sourcing_testbed.Upcast.{UpcastRegistry, new, register}
use event_sourcing_testbed.Postgres.{append, append_with_outbox, append_in_tx}
use event_sourcing_testbed.Postgres.Driver.{Postgres, Laws, Tables, returned, advanced}
use event_sourcing_testbed.Postgres.Rows.{Columns}
use event_sourcing_testbed.Postgres.Appends.{IsWhole, grown_both, append_with_outbox-IsWhole}
use event_sourcing_testbed.Postgres.Sequence.{IsOrdered, IsMirrored, append_with_outbox-IsOrdered}
use event_sourcing_testbed.Postgres.Rehydration.{rehydrate}
use event_sourcing_testbed.Postgres.Roundtrip.{Query, Selects, of_stream, rehydrate-append}

-- a position above those of the events
abbrev next : List (EventEnvelope ℕ) → ℕ
next [] = 0
next (e ∷ es) = max (suc e.global_position) (next es)

next_above :
    (es : List (EventEnvelope ℕ)) (at : ℕ)
    → next es ≤ at
    → All (λ (e : EventEnvelope ℕ). e.global_position < at) es
next_above [] at h = tt
next_above (e ∷ es) at h = (omega arith, next_above es at (omega arith))

-- a transaction is the tables at its start and now
abbrev memory : Postgres
memory = record {
  Db = Tables ℕ;
  Tx = Tables ℕ × Tables ℕ;
  Json = ℕ;
  begin = λ db. done (db, db);
  advance_version = λ tx s.
      ((tx.0, record tx.1 { version = advanced tx.1.version s }), done (get_or (tx.1.version s) 0));
  insert_event = λ tx row. (
    (tx.0, record tx.1 { events = tx.1.events ++ row (next tx.1.events) ∷ [] }),
    returned (next tx.1.events),
  );
  insert_outbox = λ tx o. ((tx.0, record tx.1 { outbox = tx.1.outbox ++ o ∷ [] }), done tt);
  commit = λ tx. (tx.1, done tt);
  abort = λ tx. tx.0;
  contents = λ db. db;
  base = λ tx. tx.0;
  seen = λ tx. tx.1;
}

memory_laws : Laws memory
memory_laws = record {
  begun = λ db tx h.
      let same : (db, db) ≡ tx = cc h in (ap (λ x. x.0) (sym same), ap (λ x. x.1) (sym same));
  advance_base = λ tx s. refl;
  advance_done = λ tx s before h. (refl, cc h);
  insert_event_base = λ tx row. refl;
  insert_event_done = λ tx row at h.
      let here : next tx.1.events ≡ at = cc h in
      (
        ap (λ n. record tx.1 { events = tx.1.events ++ row n ∷ [] }) here,
        next_above tx.1.events at (omega (arith, here)),
      );
  insert_outbox_base = λ tx o. refl;
  insert_outbox_done = λ tx o h. refl;
  transactional = record {
    aborted = λ tx. refl;
    commit_done = λ tx h. refl;
    commit_refused = λ tx message h. absurd (cc h);
  };
}

abbrev fresh : Tables ℕ
fresh = record { version = λ s. none; events = []; outbox = [] }

fresh-IsOrdered : IsOrdered fresh
fresh-IsOrdered = record { versioned = record { versions = λ s. refl }; ascending = tt }

append_with_outbox-IsWhole_example :
    let after =
      append_with_outbox memory (λ n. some n) "e1" "now" "order-1" "OrderPlaced" 1 7 fresh in
    IsWhole grown_both "order-1" fresh after.0 after.1
append_with_outbox-IsWhole_example =
    append_with_outbox-IsWhole memory memory_laws (λ n. some n) "e1" "now" "order-1" "OrderPlaced" 1
      7 fresh

append_with_outbox-IsOrdered_example :
    let db' =
      (append_with_outbox memory (λ n. some n) "e1" "now" "order-1" "OrderPlaced" 1 7 fresh).0 in
    IsOrdered db' × IsMirrored db'
append_with_outbox-IsOrdered_example =
    append_with_outbox-IsOrdered memory memory_laws (λ n. some n) "e1" "now" "order-1" "OrderPlaced"
      1 7 fresh fresh-IsOrdered refl

-- rows are events
abbrev columns : Columns (EventEnvelope ℕ) ℕ
columns = record {
  get_string = λ e name.
      if str_eq name "event_type"
      then e.event_type
      else if str_eq name "stream_id"
      then e.stream_id
      else e.event_id;
  get_number = λ e name.
      if str_eq name "schema_version"
      then e.schema_version
      else if str_eq name "stream_version"
      then e.stream_version
      else e.global_position;
  get_json = λ e name. e.payload;
  get_time = λ e name. e.occurred_at;
}

abbrev query : Query memory
query = record {
  Row = EventEnvelope ℕ;
  columns = columns;
  fetch_stream = λ db s. done (of_stream s db.events);
  row_of = λ e. e;
}

map_same : (es : List (EventEnvelope ℕ)) → es ≡ map (λ e. e) es
map_same [] = refl
map_same (e ∷ es) = ap (λ l. e ∷ l) (map_same es)

query_Selects : Selects memory query
query_Selects = record {
  selected = λ db s rows n h counts.
      let same : of_stream s db.events ≡ rows = cc h in sym same ∙ map_same (of_stream s db.events);
  type_column = λ e. refl;
  schema_column = λ e. refl;
  payload_column = λ e. refl;
  version_column = λ e. refl;
}

abbrev adder : Aggregate ℕ
adder = record { State = ℕ; Event = ℕ; default = 0; apply = λ s n. s + n; from_value = λ n. some n }

abbrev reg : UpcastRegistry ℕ
reg = register "Added" 1 (λ n. n + 10) new

abbrev stored : EventEnvelope ℕ
stored = record {
  event_id = "e1";
  stream_id = "order-1";
  stream_version = 0;
  global_position = 0;
  event_type = "Added";
  schema_version = 1;
  payload = 7;
  occurred_at = "now";
}

rehydrate-append_example :
    (state : ℕ) × (version : ℤ) × (rehydrate columns adder reg (λ t n. n) (done [])
      ≡ some (ok (state, version)))
    × (rehydrate columns adder reg (λ t n. n) (done (stored ∷ []))
        ≡ some (
            ok (
              absorbed adder reg (λ t n. n) state (event_at adder reg (λ t n. n) "Added" 1 7),
              pos 0,
            )))
unfolding append append_in_tx bind
rehydrate-append_example =
    rehydrate-append memory memory_laws query query_Selects (λ n. some n) adder reg (λ t n. n) "e1"
      "now" "order-1" "Added" 1 7 fresh stored [] (stored ∷ []) fresh-IsOrdered refl refl refl
