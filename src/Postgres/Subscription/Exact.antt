-- ===== src/Postgres/Subscription/Exact.antt =====
-- What a subscription of rust-app/src/postgres/event_store.rs that meets no error hands to its
-- handler.
use event_sourcing_testbed.Common.{
  ◌≡◌, refl, sym, ap, ◌∙◌, inl, inr, String, List, [], ◌∷◌, ◌++◌, map, Option, none, some,
  Option-cases,
}
use mathlib.Core.Option.{get_or}
use mathlib.Core.List.{filter_map, append-nil, append_assoc}
use event_sourcing_testbed.Common.Int.{ℤ, negsuc}
use event_sourcing_testbed.Common.Result.{Result, ok}
use event_sourcing_testbed.Kurrent.Driver.{Reply, done, refused}
use event_sourcing_testbed.Store.{EventEnvelope}
use event_sourcing_testbed.Store.Checkpoints.{
  Consumer, IsReliable, load_checkpoint, consume, consume_all, consume_all_exact, consume_done,
  position_after, unit_cases, load_checkpoint_ok, reply_cases, result_cases,
}
use event_sourcing_testbed.Postgres.Rows.{Columns, row_to_envelope}
use event_sourcing_testbed.Postgres.Subscription.{Turn, catch_up, follow, catch_up_subscribe}

module _ {Row : Type 0} (c : Consumer) (columns : Columns Row c.Document)
    (parse : String → Reply ℤ) where
  abbrev Event : Type 0
  Event = EventEnvelope c.Document × ℤ

  abbrev pub fetched_event : Reply (Option Row) → ℤ → Option Event
  fetched_event (refused e) at = none
  fetched_event (done none) at = none
  fetched_event (done (some row)) at = some (row_to_envelope columns row, at)

  abbrev parsed_event : (ℤ → Reply (Option Row)) → Reply ℤ → Option Event
  parsed_event fetch_at (refused e) = none
  parsed_event fetch_at (done at) = fetched_event (fetch_at at) at

  abbrev received_event : (ℤ → Reply (Option Row)) → Reply String → Option Event
  received_event fetch_at (refused e) = none
  received_event fetch_at (done payload) = parsed_event fetch_at (parse payload)

  -- the event of a turn: the row that is found at the position that was notified, with that position
  abbrev pub turn_event : Turn Row → Option Event
  turn_event turn = received_event turn.fetch_at turn.notification

  -- the position of the last of them
  abbrev pub last_notified : Option ℤ → List Event → Option ℤ
  last_notified old [] = old
  last_notified old ((e, at) ∷ rest) = last_notified (some at) rest

module _ {Row : Type 0} (c : Consumer) (reliable : IsReliable c) (columns : Columns Row c.Document)
    (parse : String → Reply ℤ) (fetch_after : c.Db → ℤ → Reply (List Row))
    (listen : c.Db → Result (Unit {0})) where
  abbrev events_of : List (Turn Row) → List (EventEnvelope c.Document × ℤ)
  events_of turns = filter_map (turn_event c columns parse) turns

  abbrev Followed : List (EventEnvelope c.Document × ℤ) → c.Db → c.Db → String → Type 0
  Followed events db db' consumer_id =
      (c.handled db' ≡ c.handled db ++ map (λ e. e.0) events)
      × (c.position db' consumer_id
          ≡ last_notified c columns parse (c.position db consumer_id) events)

  -- a turn with a row
  row_taken :
      (turn : Turn Row) (turns : List (Turn Row)) (payload : String) (at : ℤ) (row : Row)
      → turn.notification ≡ done payload
      → parse payload ≡ done at
      → turn.fetch_at at ≡ done (some row)
      → (db : c.Db) (consumer_id : String)
      → ((db : c.Db) (consumer_id : String)
          → (follow c columns parse fetch_after listen turns db consumer_id).1 ≡ ok tt
          → Followed
              (events_of turns)
              db
              (follow c columns parse fetch_after listen turns db consumer_id).0
              consumer_id)
      → (follow c columns parse fetch_after listen (turn ∷ turns) db consumer_id).1 ≡ ok tt
      → Followed
          (events_of (turn ∷ turns))
          db
          (follow c columns parse fetch_after listen (turn ∷ turns) db consumer_id).0
          consumer_id
  unfolding follow filter_map
  row_taken turn turns payload at row heard parsed step db consumer_id rec ended =
      let e = row_to_envelope columns row in
      elim (unit_cases (consume c db consumer_id e at).1) [
        | inr (f, bad) ↦ absurd (cc (rw (follow, heard, parsed, step, bad) at ended))
        | inl good ↦
            let (handled, saved) = consume_done c reliable db consumer_id e at good in
            let (all, after) =
              rec (consume c db consumer_id e at).0 consumer_id
                (rw (follow, heard, parsed, step, good) at ended) in
            rw (follow, heard, parsed, step, good)
              (
                all
                    ∙ ap (λ l. l ++ map (λ e. e.0) (events_of turns)) handled
                    ∙ append_assoc (c.handled db) (e ∷ []) (map (λ e. e.0) (events_of turns)),
                after ∙ ap (λ o. last_notified c columns parse o (events_of turns)) saved,
              )
      ]

  follow_lem :
      (turns : List (Turn Row)) (db : c.Db) (consumer_id : String)
      → (follow c columns parse fetch_after listen turns db consumer_id).1 ≡ ok tt
      → Followed
          (events_of turns)
          db
          (follow c columns parse fetch_after listen turns db consumer_id).0
          consumer_id
  unfolding follow filter_map
  follow_lem [] db consumer_id ended = (sym (append-nil (c.handled db)), refl)
  follow_lem (turn ∷ turns) db consumer_id ended = elim (reply_cases turn.notification) [
    | inr (e, bad) ↦ absurd (cc (rw (follow, bad) at ended))
    | inl (payload, heard) ↦ elim (reply_cases (parse payload)) [
      | inr (e, bad) ↦ absurd (cc (rw (follow, heard, bad) at ended))
      | inl (at, parsed) ↦ elim (reply_cases (turn.fetch_at at)) [
        | inr (e, bad) ↦ absurd (cc (rw (follow, heard, parsed, bad) at ended))
        | inl (found, fetched) ↦ elim (Option-cases found) [
          | inl gone ↦
              let step : turn.fetch_at at ≡ done none = fetched ∙ ap done gone in
              rw (follow, heard, parsed, step)
                (follow_lem turns db consumer_id (rw (follow, heard, parsed, step) at ended))
          | inr (row, there) ↦
              let step : turn.fetch_at at ≡ done (some row) = fetched ∙ ap done there in
              row_taken turn turns payload at row heard parsed step db consumer_id
                (follow_lem turns) ended
        ]
      ]
    ]
  ]

  catch_up_ok :
      (db : c.Db) (consumer_id : String) (at : ℤ)
      → (catch_up c columns parse fetch_after listen db consumer_id).1 ≡ ok at
      → let from = get_or (c.position db consumer_id) (negsuc 0) in
        (rows : List Row) × (fetch_after db from ≡ done rows)
        × (catch_up c columns parse fetch_after listen db consumer_id
            ≡ consume_all c db consumer_id (map (row_to_envelope columns) rows) from)
  unfolding catch_up
  catch_up_ok db consumer_id at ended = elim (result_cases (load_checkpoint c db consumer_id)) [
    | inr (e, bad) ↦ absurd (cc (rw (catch_up, bad) at ended))
    | inl (found, loaded) ↦
        let stored = load_checkpoint_ok c reliable db consumer_id found loaded in
        elim (reply_cases (fetch_after db (get_or found (negsuc 0)))) [
          | inr (e, bad) ↦ absurd (cc (rw (catch_up, loaded, bad) at ended))
          | inl (rows, fetched) ↦
              (rows, rw (← stored) fetched, rw (catch_up, loaded, fetched, ← stored) refl)
        ]
  ]

  -- A subscription that has met no error has handed to its handler the rows behind the checkpoint and
  -- then the events found at the positions that the notifications name, each once and in order, and
  -- its checkpoint is at the last of these positions.
  pub catch_up_subscribe_exact :
      (turns : List (Turn Row)) (db : c.Db) (consumer_id : String)
      → (catch_up_subscribe c columns parse fetch_after listen turns db consumer_id).1 ≡ ok tt
      → let db' = (catch_up_subscribe c columns parse fetch_after listen turns db consumer_id).0 in
        let events = filter_map (turn_event c columns parse) turns in
        (rows : List Row) × (fetch_after db (get_or (c.position db consumer_id) (negsuc 0))
          ≡ done rows)
        × (c.handled db'
            ≡ c.handled db
              ++ map (row_to_envelope columns) rows
              ++ map (λ (e : EventEnvelope c.Document × ℤ). e.0) events)
        × (c.position db' consumer_id
            ≡ last_notified c columns parse
                (position_after c (c.position db consumer_id) (map (row_to_envelope columns) rows))
                events)
  unfolding catch_up_subscribe
  catch_up_subscribe_exact turns db consumer_id ended =
      elim (result_cases (catch_up c columns parse fetch_after listen db consumer_id).1) [
        | inr (e, bad) ↦ absurd (cc (rw (catch_up_subscribe, bad) at ended))
        | inl (at, caught_up) ↦
            let db1 = (catch_up c columns parse fetch_after listen db consumer_id).0 in
            let (rows, fetched, run) = catch_up_ok db consumer_id at caught_up in
            let es = map (row_to_envelope columns) rows in
            let from = get_or (c.position db consumer_id) (negsuc 0) in
            let (handled, _, saved) =
              consume_all_exact c reliable es db consumer_id from at
                (sym (ap (λ (r : c.Db × Result ℤ). r.1) run) ∙ caught_up) in
            elim (unit_cases (listen db1)) [
              | inr (e, bad) ↦ absurd (cc (rw (catch_up_subscribe, caught_up, bad) at ended))
              | inl listens ↦
                  let (all, after) =
                    follow_lem turns db1 consumer_id
                      (rw (catch_up_subscribe, caught_up, listens) at ended) in
                  (
                    rows,
                    fetched,
                    rw (catch_up_subscribe, caught_up, listens)
                        (all
                          ∙ ap (λ (d : c.Db). c.handled d ++ map (λ e. e.0) (events_of turns))
                              (ap (λ (r : c.Db × Result ℤ). r.0) run)
                          ∙ ap (λ l. l ++ map (λ e. e.0) (events_of turns)) handled),
                    rw (catch_up_subscribe, caught_up, listens)
                        (after
                          ∙ ap
                              (λ (d : c.Db).
                                last_notified c columns parse (c.position d consumer_id)
                                  (events_of turns))
                              (ap (λ (r : c.Db × Result ℤ). r.0) run)
                          ∙ ap (λ o. last_notified c columns parse o (events_of turns)) saved),
                  )
            ]
      ]
