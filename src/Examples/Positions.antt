-- ===== src/Examples/Positions.antt =====
-- A consumer over checkpoints in memory.
use event_sourcing_testbed.Common.{
  ℕ, ◌≡◌, refl, String, str_eq, eq_refl, List, [], ◌∷◌, ◌++◌, Option, none, some, if◌then◌else◌,
  true, map, Bool, ◌==◌, false,
}
use mathlib.Core.List.{filter_map}
use event_sourcing_testbed.Common.Int.{ℤ, pos, negsuc}
use event_sourcing_testbed.Common.Result.{Result, ok, err}
use event_sourcing_testbed.Kurrent.Driver.{Reply, done}
use event_sourcing_testbed.Store.{EventEnvelope}
use event_sourcing_testbed.Store.Checkpoints.{
  Consumer, IsReliable, load_checkpoint, consume, consume_all, last_position, position_after,
  consume_all_stopped,
}
use event_sourcing_testbed.Postgres.Rows.{Columns, row_to_envelope}
use event_sourcing_testbed.Postgres.Subscription.{Turn, catch_up, catch_up_subscribe}
use event_sourcing_testbed.Postgres.Subscription as Notified
use event_sourcing_testbed.Postgres.Subscription.Exact.{
  turn_event, last_notified, catch_up_subscribe_exact,
}
use event_sourcing_testbed.Mongo.Subscription.{
  ChangeEvent, catch_up_events, catch_up_events_exact, follow, follow_exact,
}

abbrev State : Type 0
State = (String → Option ℤ) × List (EventEnvelope ℕ)

-- the event at a position
abbrev event_at : ℕ → EventEnvelope ℕ
event_at n = record {
  event_id = "e";
  stream_id = "order-1";
  stream_version = n;
  global_position = n;
  event_type = "Added";
  schema_version = 1;
  payload = n;
  occurred_at = "now";
}

abbrev accept : State → EventEnvelope ℕ → State × Result (Unit {0})
accept db e = ((db.0, db.1 ++ e ∷ []), ok tt)

-- a handler that refuses the payload 9
abbrev accept_some : State → EventEnvelope ℕ → State × Result (Unit {0})
accept_some db e = if e.payload == 9 then (db, err ("refused" ∷ [])) else accept db e

abbrev store : (State → EventEnvelope ℕ → State × Result (Unit {0})) → Consumer
store handler = record {
  Db = State;
  Document = ℕ;
  set_position = λ db c at. ((λ d. if str_eq c d then some at else db.0 d, db.1), done tt);
  find_position = λ db c. done (db.0 c);
  handler = handler;
  position = λ db c. db.0 c;
  handled = λ db. db.1;
}

abbrev memory : Consumer
memory = store accept

abbrev picky : Consumer
picky = store accept_some

memory_IsReliable : IsReliable memory
memory_IsReliable = record {
  set_done = λ db c at h. rw (eq_refl c) refl;
  set_handled = λ db c at. refl;
  find_done = λ db c found h. cc h;
  handler_done = λ db e h. refl;
}

picky_IsReliable : IsReliable picky
picky_IsReliable = record {
  set_done = λ db c at h. rw (eq_refl c) refl;
  set_handled = λ db c at. refl;
  find_done = λ db c found h. cc h;
  handler_done = λ db e h. taken db e (e.payload == 9) h;
}
  where
    taken :
        (db : State) (e : EventEnvelope ℕ) (b : Bool)
        → (◌≡◌ {A = Result (Unit {0})}
            (if b then (db, err ("refused" ∷ [])) else accept db e).1
            (ok tt))
        → (if b then (db, err ("refused" ∷ [])) else accept db e).0.1 ≡ db.1 ++ e ∷ []
    taken db e true h = absurd (cc h)
    taken db e false h = refl

abbrev fresh : State
fresh = (λ c. none, [])

consume_all_stopped_example :
    (seen : List (EventEnvelope ℕ)) × (e : EventEnvelope ℕ) × (rest : List (EventEnvelope ℕ))
    × (event_at 3 ∷ event_at 9 ∷ event_at 10 ∷ [] ≡ seen ++ e ∷ rest)
    × (db1 : State) × (db1.1 ≡ [] ++ seen)
    × (db1.0 "billing" ≡ position_after picky none seen)
    × ((consume picky db1 "billing" e (pos e.global_position)).1 ≡ err ("refused" ∷ []))
    × ((consume_all picky fresh "billing" (event_at 3 ∷ event_at 9 ∷ event_at 10 ∷ []) (negsuc 0)).0
        ≡ (consume picky db1 "billing" e (pos e.global_position)).0)
unfolding consume_all consume
consume_all_stopped_example =
    consume_all_stopped picky picky_IsReliable (event_at 3 ∷ event_at 9 ∷ event_at 10 ∷ []) fresh
      "billing" (negsuc 0) ("refused" ∷ []) refl

catch_up_events_exact_example :
    let db' =
      (catch_up_events memory
        (λ n. some (event_at n))
        (λ db from. done [])
        (λ db. done [])
        (done 3 ∷ done 5 ∷ [])
        fresh
        "billing"
        (negsuc 0)).0 in
    (memory.handled db' ≡ [] ++ event_at 3 ∷ event_at 5 ∷ [])
    × (pos 5 ≡ last_position memory (negsuc 0) (event_at 3 ∷ event_at 5 ∷ []))
    × (memory.position db' "billing" ≡ position_after memory none (event_at 3 ∷ event_at 5 ∷ []))
unfolding catch_up_events consume
catch_up_events_exact_example =
    catch_up_events_exact memory (λ n. some (event_at n)) (λ db from. done []) (λ db. done [])
      memory_IsReliable (3 ∷ 5 ∷ []) (event_at 3 ∷ event_at 5 ∷ []) fresh "billing" (negsuc 0)
      (pos 5) refl refl

-- an insert, and an update that is passed over
abbrev changes : List (ChangeEvent ℕ)
changes =
    record { is_insert = true; full_document = some 4 }
    ∷ record { is_insert = false; full_document = some 5 }
    ∷ []

follow_exact_example :
    let db' =
      (follow memory
        (λ n. some (event_at n))
        (λ db from. done [])
        (λ db. done [])
        (map done changes)
        fresh
        "billing").0 in
    (memory.handled db' ≡ [] ++ event_at 4 ∷ [])
    × (memory.position db' "billing" ≡ position_after memory none (event_at 4 ∷ []))
unfolding follow filter_map consume
follow_exact_example =
    follow_exact memory (λ n. some (event_at n)) (λ db from. done []) (λ db. done [])
      memory_IsReliable changes (event_at 4 ∷ []) fresh "billing" refl refl

-- rows are events
abbrev columns : Columns (EventEnvelope ℕ) ℕ
columns = record {
  get_string = λ e name.
      if str_eq name "event_type"
      then e.event_type
      else if str_eq name "stream_id"
      then e.stream_id
      else e.event_id;
  get_number = λ e name.
      if str_eq name "schema_version"
      then e.schema_version
      else if str_eq name "stream_version"
      then e.stream_version
      else e.global_position;
  get_json = λ e name. e.payload;
  get_time = λ e name. e.occurred_at;
}

abbrev found_at : ℤ → Reply (Option (EventEnvelope ℕ))
found_at (pos n) = done (some (event_at n))
found_at (negsuc n) = done none

-- a notification of an event, and one of an event that is not found
abbrev turns : List (Turn (EventEnvelope ℕ))
turns =
    record { notification = done "7"; fetch_at = found_at }
    ∷ record { notification = done "8"; fetch_at = λ at. done none }
    ∷ []

abbrev parse : String → Reply ℤ
parse text = if str_eq text "7" then done (pos 7) else done (pos 8)

catch_up_subscribe_exact_example :
    let db' =
      (catch_up_subscribe memory columns parse
        (λ db from. done (event_at 3 ∷ []))
        (λ db. ok tt)
        turns
        fresh
        "billing").0 in
    let events = filter_map (turn_event memory columns parse) turns in
    (rows : List (EventEnvelope ℕ)) × (done (event_at 3 ∷ []) ≡ done rows)
    × (db'.1 ≡ [] ++ map (row_to_envelope columns) rows ++ map (λ e. e.0) events)
    × (db'.0 "billing"
        ≡ last_notified memory columns parse
            (position_after memory none (map (row_to_envelope columns) rows))
            events)
unfolding catch_up_subscribe catch_up Notified.follow consume consume_all load_checkpoint
catch_up_subscribe_exact_example =
    catch_up_subscribe_exact memory memory_IsReliable columns parse
      (λ db from. done (event_at 3 ∷ [])) (λ db. ok tt) turns fresh "billing" refl
