-- ===== src/Examples/Database.antt =====
-- A MongoDB database in memory, and appends to it.
use event_sourcing_testbed.Common.{
  ℕ, ◌+◌, ◌≡◌, refl, sym, ◌∙◌, ap, String, str_eq, List, [], ◌∷◌, ◌++◌, Option, none, some,
  if◌then◌else◌,
}
use mathlib.Core.Option
use mathlib.Core.Option.{get_or}
use mathlib.Core.List.{filter_map}
use event_sourcing_testbed.Common.Int.{pos}
use event_sourcing_testbed.Common.Result.{ok}
use event_sourcing_testbed.Kurrent.Driver.{Reply, done}
use event_sourcing_testbed.Mongo.Driver.{Mongo, Laws, Contents, EventEnvelope, inserted, increase}
use event_sourcing_testbed.Mongo.{append, append_with_outbox}
use event_sourcing_testbed.Mongo.Appends.{
  IsAtomic, grown, grown_both, append-IsAtomic, append_with_outbox-IsAtomic,
}
use event_sourcing_testbed.Mongo.Sequence.{IsNumbered, append-IsNumbered}
use event_sourcing_testbed.Store.Aggregates.{Aggregate, fold}
use event_sourcing_testbed.Mongo.Rehydration.{rehydrate, event_of, rehydrate_replays}
use event_sourcing_testbed.Upcast.{new, register}

data Doc : Type 0 where
  number_doc : ℕ → Doc
  row : String → String → ℕ → ℕ → String → ℕ → Doc → String → Doc

abbrev encode : EventEnvelope Doc → Doc
encode e =
    row e.event_id e.stream_id e.stream_version e.global_position e.event_type e.schema_version
      e.payload e.occurred_at

abbrev decode : Doc → Option (EventEnvelope Doc)
decode (number_doc n) = none
decode (row a b c d e f g h) = some (record {
  event_id = a;
  stream_id = b;
  stream_version = c;
  global_position = d;
  event_type = e;
  schema_version = f;
  payload = g;
  occurred_at = h;
})

abbrev Cs : Type 0
Cs = Contents Doc

abbrev number_in : Doc → String → Option ℕ
number_in (number_doc n) field = some n
number_in (row a b c d e f g h) field = none

abbrev with_event : Cs → Option (EventEnvelope Doc) → Cs
with_event c none = c
with_event c (some e) = record c { events = c.events ++ e ∷ [] }

-- a session is the collections at its start and now
abbrev memory : Mongo
memory = record {
  Db = Cs;
  Session = Cs × Cs;
  Document = Doc;
  start_session = λ db. done (db, db);
  start_transaction = λ t. done t;
  increment = λ t collection key field. (
    (t.0, record t.1 { counter = increase t.1.counter collection key }),
    done (Option.map number_doc (t.1.counter collection key)),
  );
  get_i64 = number_in;
  encode_envelope = λ e. some (encode e);
  insert_event = λ t d. ((t.0, with_event t.1 (decode d)), inserted);
  insert_outbox = λ t o. ((t.0, record t.1 { outbox = t.1.outbox ++ o ∷ [] }), done tt);
  commit_transaction = λ t. (t.1, done tt);
  abort = λ t. t.0;
  contents = λ db. db;
  base = λ t. t.0;
  seen = λ t. t.1;
}

memory_laws : Laws memory
memory_laws = record {
  session = λ db t u h k.
      let first : (db, db) ≡ t = cc h in
      let second : t ≡ u = cc k in
      (ap (λ x. x.0) (sym (first ∙ second)), ap (λ x. x.1) (sym (first ∙ second)));
  increment_base = λ t collection key field. refl;
  increment_done = λ t collection key field before h. (refl, read_back _ before field h);
  insert_event_base = λ t d. refl;
  insert_event_done =
      λ t e d h k. let same : encode e ≡ d = cc h in ap (λ d. with_event t.1 (decode d)) (sym same);
  insert_outbox_base = λ t o. refl;
  insert_outbox_done = λ t o h. refl;
  transactional = record {
    aborted = λ t. refl;
    commit_done = λ t h. refl;
    commit_refused = λ t message h. absurd (cc h);
  };
}
  where
    read_back :
        (o : Option ℕ) (before : Option Doc) (field : String)
        → done (Option.map number_doc o) ≡ done before
        → elim before [ none ↦ none | some d ↦ number_in d field ] ≡ o
    read_back none before field h = let same : none ≡ before = cc h in rw (← same) refl
    read_back (some n) before field h =
        let same : some (number_doc n) ≡ before = cc h in rw (← same) refl

abbrev fresh : Cs
fresh = record { counter = λ c k. none; events = []; outbox = [] }

append-IsAtomic_example :
    let after =
      append memory (λ n. some (number_doc n)) "e1" "now" "order-1" "OrderPlaced" 1 7 fresh in
    IsAtomic memory memory_laws
      (λ n. some (number_doc n))
      (grown memory memory_laws (λ n. some (number_doc n)))
      "order-1"
      fresh
      after.0
      after.1
append-IsAtomic_example =
    append-IsAtomic memory memory_laws (λ n. some (number_doc n)) "e1" "now" "order-1" "OrderPlaced"
      1 7 fresh

append_with_outbox-IsAtomic_example :
    let after =
      append_with_outbox memory
        (λ n. some (number_doc n))
        "e1"
        "now"
        "order-1"
        "OrderPlaced"
        1
        7
        fresh in
    IsAtomic memory memory_laws
      (λ n. some (number_doc n))
      (grown_both memory memory_laws (λ n. some (number_doc n)))
      "order-1"
      fresh
      after.0
      after.1
append_with_outbox-IsAtomic_example =
    append_with_outbox-IsAtomic memory memory_laws (λ n. some (number_doc n)) "e1" "now" "order-1"
      "OrderPlaced" 1 7 fresh

-- a counter that adds up the numbers in the payloads
abbrev adder : Aggregate ℕ
adder = record { State = ℕ; Event = ℕ; default = 0; apply = λ s n. s + n; from_value = λ n. some n }

abbrev first_row : Doc
first_row = row "e1" "order-1" 0 0 "Added" 1 (number_doc 3) "now"

abbrev second_row : Doc
second_row = row "e2" "order-1" 1 1 "Added" 2 (number_doc 4) "now"

abbrev first_envelope : EventEnvelope Doc
first_envelope = record {
  event_id = "e1";
  stream_id = "order-1";
  stream_version = 0;
  global_position = 0;
  event_type = "Added";
  schema_version = 1;
  payload = number_doc 3;
  occurred_at = "now";
}

abbrev second_envelope : EventEnvelope Doc
second_envelope = record first_envelope {
  event_id = "e2";
  stream_version = 1;
  global_position = 1;
  schema_version = 2;
  payload = number_doc 4;
}

abbrev value : Doc → ℕ
value d = get_or (number_in d "n") 0

abbrev events_by_version : String → String × String → String → Reply (List (Reply Doc))
events_by_version collection filter sort =
    if str_eq filter.1 "order-1" then done (done first_row ∷ done second_row ∷ []) else done []

rehydrate_replays_example :
    rehydrate adder
      (register "Added" 1 (λ n. n + 10) new)
      decode
      value
      (λ t n. n)
      events_by_version
      "order-1"
    ≡ some (
        ok (
          fold adder
              (register "Added" 1 (λ n. n + 10) new)
              (λ t n. n)
              0
              (filter_map
                (event_of adder (register "Added" 1 (λ n. n + 10) new) decode value (λ t n. n))
                (first_envelope ∷ second_envelope ∷ [])),
          pos 1,
        ))
rehydrate_replays_example =
    rehydrate_replays adder (register "Added" 1 (λ n. n + 10) new) decode value (λ t n. n)
      events_by_version "order-1" (first_row ∷ second_row ∷ [])
      (first_envelope ∷ second_envelope ∷ []) refl refl

fresh-IsNumbered : IsNumbered fresh
fresh-IsNumbered = record {
  next = refl;
  positioned = tt;
  versioned = record { versions = λ s. refl };
}

append-IsNumbered_example :
    IsNumbered
      (append memory (λ n. some (number_doc n)) "e1" "now" "order-1" "OrderPlaced" 1 7 fresh).0
append-IsNumbered_example =
    append-IsNumbered memory memory_laws (λ n. some (number_doc n)) "e1" "now" "order-1"
      "OrderPlaced" 1 7 fresh fresh-IsNumbered
