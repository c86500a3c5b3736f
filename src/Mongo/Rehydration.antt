-- ===== src/Mongo/Rehydration.antt =====
-- `rehydrate` of rust-app/src/mongodb/event_store.rs: the events of a stream, in the order of their
-- versions, go through the upcasters and then into the aggregate. The cursor's answers are a list:
-- that of the call that opens it and those of `try_next`.
use event_sourcing_testbed.Common.{
  ◌≡◌, refl, ◌∙◌, ap, String, List, [], ◌∷◌, map, Option, none, some,
}
use mathlib.Core.List.{filter_map}
use event_sourcing_testbed.Common.Int.{ℤ, pos, negsuc}
use event_sourcing_testbed.Common.Result.{Result, ok, err}
use event_sourcing_testbed.Upcast.{UpcastRegistry}
use event_sourcing_testbed.Kurrent.Driver.{Reply, done, refused}
use event_sourcing_testbed.Store.{EventEnvelope}
use event_sourcing_testbed.Store.Aggregates.{
  Aggregate, apply_event, apply_event_lem, event_at, fold, fold-absorbed,
}

module _ {Document Json : Type 0} (aggregate : Aggregate Json) (reg : UpcastRegistry Json)
    (from_document : Document → Option (EventEnvelope Document)) (to_value : Document → Json)
    (tag : String → Json → Json) where
  open aggregate use {State, Event, default}

  -- what is done with an envelope; `none` does not occur
  unfoldable pub apply_envelope : State → EventEnvelope Document → Option State
  apply_envelope state envelope =
      apply_event aggregate reg tag state envelope.event_type envelope.schema_version
        (to_value envelope.payload)

  -- the loop
  pub replay : List (Reply Document) → State → ℤ → Option (Result (State × ℤ))
  unfolding apply_envelope
  replay [] state last_version = some (ok (state, last_version))
  replay (refused e ∷ items) state last_version =
      some (err ("cursor error during rehydration" ∷ e ∷ []))
  replay (done raw ∷ items) state last_version = elim (from_document raw) [
    | none ↦ some (err ("failed to deserialise event envelope" ∷ []))
    | some envelope ↦ elim (apply_envelope state envelope) [
      | none ↦ none
      | some state' ↦ replay items state' (pos envelope.stream_version)
    ]
  ]

  abbrev pub from_cursor : Reply (List (Reply Document)) → Option (Result (State × ℤ))
  from_cursor (refused e) = some (err ("failed to open rehydration cursor" ∷ e ∷ []))
  from_cursor (done items) = replay items default (negsuc 0)

  -- `find` queries a collection by the value of a field, in ascending order of another.
  unfoldable pub rehydrate :
      (String → String × String → String → Reply (List (Reply Document)))
      → String
      → Option (Result (State × ℤ))
  unfolding replay
  rehydrate find stream_id = from_cursor (find "events" ("stream_id", stream_id) "stream_version")

  -- the event that an envelope stands for, at the version that its upcasters reach
  abbrev pub event_of : EventEnvelope Document → Option Event
  event_of e = event_at aggregate reg tag e.event_type e.schema_version (to_value e.payload)

  abbrev pub last_of : ℤ → List (EventEnvelope Document) → ℤ
  last_of last [] = last
  last_of last (e ∷ es) = last_of (pos e.stream_version) es

  replay_lem :
      (raws : List Document) (es : List (EventEnvelope Document)) (state : State) (last : ℤ)
      → map from_document raws ≡ map some es
      → replay (map done raws) state last
        ≡ some (ok (fold aggregate reg tag state (filter_map event_of es), last_of last es))
  unfolding replay filter_map
  replay_lem [] [] state last h = refl
  replay_lem [] (e ∷ es) state last h = absurd (cc h)
  replay_lem (raw ∷ raws) [] state last h = absurd (cc h)
  replay_lem (raw ∷ raws) (e ∷ es) state last h =
      let here : from_document raw ≡ some e = cc h in
      let rest : map from_document raws ≡ map some es = cc h in
      let applied =
        apply_event_lem aggregate reg tag state e.event_type e.schema_version
          (to_value e.payload) in
      rw (replay, here, apply_envelope, applied)
        (replay_lem raws es _ (pos e.stream_version) rest
          ∙ ap (λ (s : State). some (ok (s, last_of (pos e.stream_version) es)))
              (fold-absorbed aggregate reg tag event_of e es state))

  -- If the query of a stream's events by their versions answers with documents that are all
  -- envelopes, the rehydration of the stream ends with the state that the
  -- events give in their order, each at the version that its upcasters reach and those that the
  -- aggregate does not know left out, and with the version of the last envelope, or -1 for none.
  pub rehydrate_replays :
      (find : String → String × String → String → Reply (List (Reply Document)))
      (stream_id : String) (raws : List Document) (es : List (EventEnvelope Document))
      → find "events" ("stream_id", stream_id) "stream_version" ≡ done (map done raws)
      → map from_document raws ≡ map some es
      → rehydrate find stream_id
        ≡ some (ok (fold aggregate reg tag default (filter_map event_of es), last_of (negsuc 0) es))
  unfolding rehydrate
  rehydrate_replays find stream_id raws es found h =
      ap from_cursor found ∙ replay_lem raws es default (negsuc 0) h
