-- ===== src/Postgres/Subscription.antt =====
-- `catch_up_subscribe` of rust-app/src/postgres/event_store.rs: the rows behind the checkpoint, and
-- then those that notifications name. The loop over notifications ends with an error only; here it
-- also ends where the list of its turns does.
pub mod Exact
use event_sourcing_testbed.Common.{
  ◌≡◌, refl, sym, ap, ◌∙◌, ◌⊎◌, inl, inr, String, List, [], ◌∷◌, ◌++◌, map, Option, none, some,
}
use mathlib.Core.Option.{get_or}
use mathlib.Core.List.{append-nil, append_assoc}
use event_sourcing_testbed.Common.Int.{ℤ, pos, negsuc}
use event_sourcing_testbed.Common.Result.{Result, ok, err}
use event_sourcing_testbed.Kurrent.Driver.{Reply, done, refused}
use event_sourcing_testbed.Store.{EventEnvelope}
use event_sourcing_testbed.Store.Checkpoints.{
  Consumer, IsReliable, load_checkpoint, consume, consume_all, consume_all_exact, consume_done,
  last_position, position_after, unit_cases, with_context,
}
use event_sourcing_testbed.Postgres.Rows.{Columns, row_to_envelope}

-- One turn of the loop: what `recv` answers, and the query for an event by its position, `WHERE
-- global_position = $1`, as the table is in that turn.
pub record Turn (Row : Type 0) : Type 0 where
  pub notification : Reply String
  pub fetch_at : ℤ → Reply (Option Row)

module _ {Row : Type 0} (c : Consumer) (columns : Columns Row c.Document) (parse : String → Reply ℤ)
    (fetch_after : c.Db → ℤ → Reply (List Row)) (listen : c.Db → Result (Unit {0})) where
  open c use {Db, Document}

  -- phase 1
  unfoldable pub catch_up : Db → String → Db × Result ℤ
  catch_up db consumer_id = elim (load_checkpoint c db consumer_id) [
    | err e ↦ (db, err e)
    | ok found ↦
        let from = get_or found (negsuc 0) in
        elim (fetch_after db from) [
          | refused e ↦ (db, err ("failed to fetch historical events" ∷ e ∷ []))
          | done rows ↦ consume_all c db consumer_id (map (row_to_envelope columns) rows) from
        ]
  ]

  -- phase 2
  unfoldable pub follow : List (Turn Row) → Db → String → Db × Result (Unit {0})
  unfolding consume
  follow [] db consumer_id = (db, ok tt)
  follow (turn ∷ turns) db consumer_id =
      elim (with_context "LISTEN channel error" turn.notification) [
        | err e ↦ (db, err e)
        | ok payload ↦ elim (with_context "malformed NOTIFY payload" (parse payload)) [
          | err e ↦ (db, err e)
          | ok at ↦ elim (with_context "failed to fetch notified event" (turn.fetch_at at)) [
            | err e ↦ (db, err e)
            | ok none ↦ follow turns db consumer_id
            | ok (some r) ↦
                let (db', consumed) = consume c db consumer_id (row_to_envelope columns r) at in
                elim consumed [ err e ↦ (db', err e) | ok u ↦ follow turns db' consumer_id ]
          ]
        ]
      ]

  -- `listen` stands for `PgListener::connect` and `listen`.
  unfoldable pub catch_up_subscribe : List (Turn Row) → Db → String → Db × Result (Unit {0})
  unfolding catch_up follow
  catch_up_subscribe turns db consumer_id =
      let (db', caught_up) = catch_up db consumer_id in
      elim caught_up [
        | err e ↦ (db', err e)
        | ok at ↦ elim (listen db') [ err e ↦ (db', err e) | ok u ↦ follow turns db' consumer_id ]
      ]
