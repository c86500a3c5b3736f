-- ===== src/Snapshot/Rehydration.antt =====
-- Rehydration from the latest snapshot and the trailing events is a full replay
-- (rust-app/src/kurrentdb/snapshot_demo.rs).
use event_sourcing_testbed.Common.{
  ℕ, ◌+◌, ◌-◌, ◌^◌, ◌<◌, ◌≡◌, sym, ap, ◌∙◌, ◌⊎◌, inl, inr, String, List, map, reverse, Option, none,
  some, arith, length, take, drop, take-append-drop, length-map, length-drop,
}
use mathlib.Core.List.{head?, map-append}
use mathlib.Core.Option
use event_sourcing_testbed.Common.Result.{Result, ok, >>=-eq-ok}
use event_sourcing_testbed.Kurrent.Driver.{Api}
use event_sourcing_testbed.Kurrent.{
  Triple, triple, read_stream_events, read_stream_from_revision, read_last_event,
}
use event_sourcing_testbed.Kurrent.Reads.{
  IsHonest, read_stream_events_exact, read_stream_from_revision_exact, read_last_event_exact,
}
use event_sourcing_testbed.Inventory.{InventoryState, initial, SnapshotEnvelope, apply_all}
use event_sourcing_testbed.Inventory.Replay.{apply_all-append, state_eq_refl}
use event_sourcing_testbed.Snapshot.Codec.{Inputs}
use event_sourcing_testbed.Snapshot.{restore, start_from, rehydrate, verify}

module _ (api : Api) (inputs : Inputs api) where
  abbrev pub events_of : api.Server → String → List (Triple api)
  events_of s name = map (triple api) (api.stream s name)

  -- The state after all events of a stream.
  abbrev pub replay : api.Server → String → InventoryState
  replay s name = apply_all inputs.quantity initial (events_of s name)

  abbrev pub newest : api.Server → String → Option (Triple api)
  newest s name = Option.map (triple api) (head? (reverse (api.stream s name)))

  -- `snapshot` decodes to the state after the first `covered` events.
  abbrev pub Covers : api.Server → String → Triple api → ℕ → Type 0
  Covers s stream_name snapshot covered =
      (envelope : SnapshotEnvelope) × (inputs.decode_snapshot snapshot.2 ≡ some envelope)
      × (envelope.at_stream_revision + 1 ≡ covered)
      × (covered < 2 ^ 64)
      × (envelope.state
          ≡ apply_all inputs.quantity initial
              (map (triple api) (take covered (api.stream s stream_name))))

  -- The newest snapshot, if there is one, is that of the first `covered` events; with none, nothing
  -- is covered.
  abbrev pub IsCovered : api.Server → String → String → ℕ → Type 0
  IsCovered s stream_name snapshot_stream covered =
      ((newest s snapshot_stream ≡ none) × (covered ≡ 0))
      ⊎ ((snapshot : Triple api) × (newest s snapshot_stream ≡ some snapshot)
          × Covers s stream_name snapshot covered)

module _ (api : Api) (inputs : Inputs api) (honest : IsHonest api) (s : api.Server)
    (stream_name snapshot_stream : String) where
  resumed :
      (covered : ℕ) (state : InventoryState)
      → state
        ≡ apply_all inputs.quantity initial
            (map (triple api) (take covered (api.stream s stream_name)))
      → apply_all inputs.quantity state (map (triple api) (drop covered (api.stream s stream_name)))
        ≡ replay api inputs s stream_name
  resumed covered state e = rw (
    e,
    ← apply_all-append inputs.quantity initial
        (map (triple api) (take covered (api.stream s stream_name)))
        (map (triple api) (drop covered (api.stream s stream_name))),
    ← map-append (triple api) (take covered (api.stream s stream_name))
        (drop covered (api.stream s stream_name)),
    take-append-drop covered (api.stream s stream_name),
  )

  -- what `restore` makes of the newest snapshot
  restored_lem :
      (covered : ℕ) (o : Option (Triple api)) (restored : InventoryState × Option ℕ)
      → o ≡ newest api inputs s snapshot_stream
      → IsCovered api inputs s stream_name snapshot_stream covered
      → restore api inputs stream_name snapshot_stream o ≡ ok restored
      → (start_from api inputs stream_name snapshot_stream restored.1 ≡ covered)
        × (restored.0
            ≡ apply_all inputs.quantity initial
                (map (triple api) (take covered (api.stream s stream_name))))
  unfolding restore apply_all
  restored_lem covered o restored e (inl (n, z)) h =
      let r = rw (e, n) at h in (rw z (cc r), rw z (cc r))
  restored_lem covered o restored e (inr (snapshot, n, (envelope, d, at, lt, st))) h =
      let r = rw (e, n) at h in
      let r' = rw d at r in
      let pair : (envelope.state, some envelope.at_stream_revision) ≡ restored = cc r' in
      (rw (← pair) (ground (arith, at, lt)), rw (← pair) st)

  finished :
      (covered from count : ℕ) (restored state : InventoryState) (trailing : List (Triple api))
      → from ≡ covered
      → restored
        ≡ apply_all inputs.quantity initial
            (map (triple api) (take covered (api.stream s stream_name)))
      → trailing ≡ map (triple api) (drop from (api.stream s stream_name))
      → ◌≡◌ {A = Result (InventoryState × ℕ)}
          (ok (apply_all inputs.quantity restored trailing, length trailing))
          (ok (state, count))
      → (state ≡ replay api inputs s stream_name)
        × (count ≡ length (api.stream s stream_name) - covered)
  finished covered from count restored state trailing f st t h =
      let same : ◌≡◌ {A = InventoryState × ℕ}
          (apply_all inputs.quantity restored trailing, length trailing) (state, count) =
        cc h in
      let tail = rw f at t in
      (
        sym (ap (λ x. x.0) same)
            ∙ ap (apply_all inputs.quantity restored) tail
            ∙ resumed covered restored st,
        sym (ap (λ x. x.1) same)
            ∙ ap length tail
            ∙ length-map (triple api) (drop covered (api.stream s stream_name))
            ∙ length-drop covered (api.stream s stream_name),
      )

  -- If the newest snapshot holds the state after the first `covered` events of the stream, a
  -- rehydration that succeeds restores the state after all of them, and it replays only the events
  -- behind the snapshot.
  pub rehydrate-replay :
      (covered : ℕ) (state : InventoryState) (trailing_count : ℕ)
      → IsCovered api inputs s stream_name snapshot_stream covered
      → rehydrate api inputs stream_name snapshot_stream s ≡ ok (state, trailing_count)
      → (state ≡ replay api inputs s stream_name)
        × (trailing_count ≡ length (api.stream s stream_name) - covered)
  unfolding rehydrate
  rehydrate-replay covered state trailing_count c h =
      let (o, read, h1) = >>=-eq-ok (read_last_event api s snapshot_stream) _ h in
      let (restored, rest, h2) =
        >>=-eq-ok (restore api inputs stream_name snapshot_stream o) _ h1 in
      let (trailing, read', h3) =
        >>=-eq-ok
          (read_stream_from_revision api s stream_name
            (start_from api inputs stream_name snapshot_stream restored.1))
          _ h2 in
      let lem =
        restored_lem covered o restored (read_last_event_exact api honest s snapshot_stream o read)
          c rest in
      finished covered (start_from api inputs stream_name snapshot_stream restored.1) trailing_count
        restored.0 state trailing lem.0 lem.1
        (read_stream_from_revision_exact api honest s stream_name _ trailing read') h3

  -- If the newest snapshot holds the state after the first `covered` events of the stream and the
  -- reads succeed, the comparison with the full replay passes.
  pub verify_passes :
      (covered : ℕ) (restored : InventoryState × ℕ) (all_events snapshots : List (Triple api))
      → IsCovered api inputs s stream_name snapshot_stream covered
      → rehydrate api inputs stream_name snapshot_stream s ≡ ok restored
      → read_stream_events api s stream_name ≡ ok all_events
      → read_stream_events api s snapshot_stream ≡ ok snapshots
      → verify api inputs stream_name snapshot_stream s ≡ ok tt
  unfolding verify
  verify_passes covered restored all_events snapshots c h1 h2 h3 =
      let same : restored.0 ≡ replay api inputs s stream_name =
        (rehydrate-replay covered restored.0 restored.1 c h1).0 in
      let full = read_stream_events_exact api honest s stream_name all_events h2 in
      rw (h1, h2, h3, same, full, state_eq_refl)
