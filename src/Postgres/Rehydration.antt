-- ===== src/Postgres/Rehydration.antt =====
-- `rehydrate` of rust-app/src/postgres/event_store.rs: the rows of a stream, in the order of their
-- versions, go through the upcasters and then into the aggregate. An `i32` schema version counts up
-- from 0, so that its cast to a `u32` is left out.
use event_sourcing_testbed.Common.{
  ◌≡◌, refl, ◌∙◌, ap, String, List, [], ◌∷◌, ◌++◌, Option, none, some, Option-cases, inl, inr,
}
use mathlib.Core.List.{filter_map}
use event_sourcing_testbed.Common.Int.{ℤ, pos, negsuc}
use event_sourcing_testbed.Common.Result.{Result, ok, err}
use event_sourcing_testbed.Upcast.{UpcastRegistry}
use event_sourcing_testbed.Kurrent.Driver.{Reply, done, refused}
use event_sourcing_testbed.Store.Aggregates.{
  Aggregate, apply_event, apply_event_lem, event_at, absorbed, fold, fold-absorbed,
}
use event_sourcing_testbed.Postgres.Rows.{Columns}

module _ {Row Json : Type 0} (columns : Columns Row Json) (aggregate : Aggregate Json)
    (reg : UpcastRegistry Json) (tag : String → Json → Json) where
  open aggregate use {State, Event, default}

  -- what is done with a row; `none` does not occur
  unfoldable pub apply_row : State → Row → Option State
  apply_row state row =
      apply_event aggregate reg tag state (columns.get_string row "event_type")
        (columns.get_number row "schema_version") (columns.get_json row "payload")

  -- the loop
  pub replay : List Row → State → ℤ → Option (Result (State × ℤ))
  unfolding apply_row
  replay [] state last_version = some (ok (state, last_version))
  replay (row ∷ rows) state last_version =
      let last_version = pos (columns.get_number row "stream_version") in
      elim (apply_row state row) [ none ↦ none | some state' ↦ replay rows state' last_version ]

  unfoldable pub rehydrate : Reply (List Row) → Option (Result (State × ℤ))
  unfolding replay
  rehydrate (refused e) = some (err ("failed to fetch stream for rehydration" ∷ e ∷ []))
  rehydrate (done rows) = replay rows default (negsuc 0)

  -- the event that a row stands for, at the version that its upcasters reach
  abbrev pub event_of : Row → Option Event
  event_of row =
      event_at aggregate reg tag (columns.get_string row "event_type")
        (columns.get_number row "schema_version") (columns.get_json row "payload")

  abbrev pub last_of : ℤ → List Row → ℤ
  last_of last [] = last
  last_of last (row ∷ rows) = last_of (pos (columns.get_number row "stream_version")) rows

  replay_lem :
      (rows : List Row) (state : State) (last : ℤ)
      → replay rows state last
        ≡ some (ok (fold aggregate reg tag state (filter_map event_of rows), last_of last rows))
  unfolding replay filter_map
  replay_lem [] state last = refl
  replay_lem (row ∷ rows) state last =
      let at = pos (columns.get_number row "stream_version") in
      let applied =
        apply_event_lem aggregate reg tag state (columns.get_string row "event_type")
          (columns.get_number row "schema_version") (columns.get_json row "payload") in
      rw (replay, apply_row, applied)
        (replay_lem rows _ at
          ∙ ap (λ (s : State). some (ok (s, last_of at rows)))
              (fold-absorbed aggregate reg tag event_of row rows state))

  -- A rehydration whose query succeeds ends with the state that the rows' events give in their order,
  -- each at the version that its upcasters reach and those that the aggregate does not know left out,
  -- and with the version of the last row, or -1 for none.
  pub rehydrate_folds :
      (rows : List Row)
      → rehydrate (done rows)
        ≡ some (
            ok (fold aggregate reg tag default (filter_map event_of rows), last_of (negsuc 0) rows))
  unfolding rehydrate
  rehydrate_folds rows = replay_lem rows default (negsuc 0)

  last_of-snoc :
      (rows : List Row) (row : Row) (last : ℤ)
      → last_of last (rows ++ row ∷ []) ≡ pos (columns.get_number row "stream_version")
  last_of-snoc [] row last = refl
  last_of-snoc (r ∷ rows) row last = last_of-snoc rows row _

  fold-snoc :
      (rows : List Row) (row : Row) (state : State)
      → fold aggregate reg tag state (filter_map event_of (rows ++ row ∷ []))
        ≡ absorbed aggregate reg tag
            (fold aggregate reg tag state (filter_map event_of rows))
            (event_of row)
  unfolding filter_map
  fold-snoc [] row state = elim (Option-cases (event_of row)) [
    | inl skip ↦ rw skip refl
    | inr (ev, hit) ↦ rw hit refl
  ]
  fold-snoc (r ∷ rows) row state = elim (Option-cases (event_of r)) [
    | inl skip ↦ rw skip (fold-snoc rows row state)
    | inr (ev, hit) ↦ rw hit (fold-snoc rows row _)
  ]

  -- one row more
  pub rehydrate-snoc :
      (rows : List Row) (row : Row)
      → rehydrate (done (rows ++ row ∷ []))
        ≡ some (
            ok (
              absorbed aggregate reg tag
                  (fold aggregate reg tag default (filter_map event_of rows))
                  (event_of row),
              pos (columns.get_number row "stream_version"),
            ))
  rehydrate-snoc rows row =
      rw
        (
          rehydrate_folds (rows ++ row ∷ []),
          fold-snoc rows row default,
          last_of-snoc rows row (negsuc 0),
        )
        refl
