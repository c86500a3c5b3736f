-- ===== src/Snapshot.antt =====
-- `run` of rust-app/src/kurrentdb/snapshot_demo.rs: windows of events are appended and folded into
-- the live state, a snapshot follows each window, and the state is rebuilt from the last snapshot
-- and the events behind it, then compared with a full replay. What the run draws from outside
-- (random quantities, identifiers, clock, prices, and `serde`'s encodings) is the parameter `Inputs`.
-- The readiness loop and what is printed are left out. A loop takes fuel: `none` means that it ran
-- out.
pub mod Codec
pub mod Windows
pub mod Rehydration
pub mod Progress
pub mod Outcome
use event_sourcing_testbed.Common.{
  ℕ, zero, suc, ◌+◌, ◌-◌, ◌%◌, ◌^◌, ◌==◌, min, ltb, String, List, [], ◌∷◌, ◌++◌, map, Option, none,
  some, Bool, true, false, add32, add64, sub64, sub32, if◌then◌else◌, length,
}
use event_sourcing_testbed.Common.Result.{Result, ok, err, context, or_err, format, ◌>>=◌}
use event_sourcing_testbed.Kurrent.Driver.{Api, EventData, StreamState, any, Reply, done, refused}
use event_sourcing_testbed.Kurrent.{
  Triple, append, read_stream_events, read_stream_from_revision, read_last_event,
}
use event_sourcing_testbed.Inventory.{
  ItemAdded, ItemPriceUpdated, ItemRemoved, InventoryState, initial, state_eq, SnapshotEnvelope,
  apply, apply_all,
}
use Codec.{Inputs}

module _ (api : Api) (inputs : Inputs api) (stream_name snapshot_stream : String) where
  open api use {Server, Data, Value, append_to_stream}
  open inputs use {
    quantity, json_quantity, json_empty, added, price_updated, removed, encode_snapshot,
    decode_snapshot, draw, item_id, sku, price, raised_price, clock,
  }

  -- an event to append, with what the fold needs of it: its type and a payload
  pub record Pending : Type 0 where
    pub sent : EventData Data
    pub log_type : String
    pub log_payload : Value

  pending : String → Reply Data → Value → Result Pending
  pending event_type (refused e) payload = err (e ∷ [])
  pending event_type (done d) payload = ok (record {
    sent = record { event_type = event_type; data' = d };
    log_type = event_type;
    log_payload = payload;
  })

  -- the body of `for i in seq..window_end`
  unfoldable pub event_at : ℕ → Result Pending
  unfolding pending
  event_at i =
      if i % 3 == 0
      then pending "ItemAdded"
          (added (record {
            item_id = item_id (i % 10);
            sku = sku (i % 10);
            quantity = draw i;
            unit_price_usd = price i;
            added_at = clock i;
          }))
          (json_quantity (draw i))
      else if i % 3 == 1
      then pending "ItemPriceUpdated"
          (price_updated (record {
            item_id = item_id (i % 10);
            old_price_usd = price i;
            new_price_usd = raised_price (price i);
            updated_at = clock i;
          }))
          json_empty
      else pending "ItemRemoved"
          (removed (record {
            item_id = item_id (i % 10);
            quantity = draw i;
            reason = if i % 7 == 0 then "scrapped" else "sold";
            removed_at = clock i;
          }))
          (json_quantity (draw i))

  -- the events from `seq` on, as many as the window is long
  pub window : ℕ → ℕ → Result (List Pending)
  unfolding event_at
  window seq zero = ok []
  window seq (suc n) = event_at seq >>= λ p. window (seq + 1) n >>= λ ps. ok (p ∷ ps)

  abbrev pub batch : List Pending → List (EventData Data)
  batch = map (λ p. p.sent)

  -- `live_state.apply(event_type, apply_payload, first_revision + offset as u64)`
  pub fold : InventoryState → ℕ → List Pending → InventoryState
  fold s revision [] = s
  fold s revision (p ∷ ps) =
      fold (apply quantity s p.log_type p.log_payload revision) (add64 revision 1) ps

  pub record Writer : Type 0 where
    pub server : Server
    pub live_state : InventoryState
    pub snapshot_count : ℕ
    pub seq : ℕ

  -- the `?` behind the snapshot's append, and the counters
  snapshotted : Writer → Server → InventoryState → ℕ → Result ℕ → Writer × Result (Unit {0})
  snapshotted w server live window_end (err e) =
      (record w { server = server; live_state = live }, err e)
  snapshotted w server live window_end (ok r) = (
    record {
      server = server;
      live_state = live;
      snapshot_count = add32 w.snapshot_count 1;
      seq = window_end;
    },
    ok tt,
  )

  -- from the reply to the batch on: the fold, the snapshot, and the counters
  pub acknowledge : Writer → Server → List Pending → ℕ → ℕ → Reply ℕ → Writer × Result (Unit {0})
  unfolding snapshotted
  acknowledge w server ps window_len window_end (refused e) =
      (record w { server = server }, err (format "batch append failed: " e "" ∷ []))
  acknowledge w server ps window_len window_end (done last_revision) =
      let first_revision = sub64 last_revision (sub64 window_len 1) in
      let live = fold w.live_state first_revision ps in
      let envelope : SnapshotEnvelope = record {
        state = live;
        at_stream_revision = last_revision;
        taken_at = clock last_revision;
      } in
      let (server', appended) =
        append api encode_snapshot server snapshot_stream "InventorySnapshot" envelope in
      snapshotted w server' live window_end appended

  -- from the batch on
  unfoldable pub send_window : Writer → ℕ → ℕ → Result (List Pending) → Writer × Result (Unit {0})
  unfolding acknowledge
  send_window w window_len window_end (err e) = (w, err e)
  send_window w window_len window_end (ok ps) =
      let (server, reply) = append_to_stream w.server stream_name any (batch ps) in
      acknowledge w server ps window_len window_end reply

  -- the body of `while seq < event_count`
  pub write_window : ℕ → ℕ → Writer → Writer × Result (Unit {0})
  unfolding send_window
  write_window event_count snapshot_every w =
      let window_end = min (add32 w.seq snapshot_every) event_count in
      send_window w (sub32 window_end w.seq) window_end (window w.seq (window_end - w.seq))

  pub write_all : ℕ → ℕ → ℕ → Writer → Option (Writer × Result (Unit {0}))
  write_all zero event_count snapshot_every w = none
  write_all (suc fuel) event_count snapshot_every w =
      if ltb w.seq event_count
      then (let (w', written) = write_window event_count snapshot_every w in
          elim written [
            | ok u ↦ write_all fuel event_count snapshot_every w'
            | err e ↦ some (w', err e)
          ])
      else some (w, ok tt)

  -- step 3a: the state of the latest snapshot and the revision that it covers (the message leaves
  -- out serde's own)
  unfoldable pub restore : Option (Triple api) → Result (InventoryState × Option ℕ)
  restore none = ok (initial, none)
  restore (some (event_type, revision, payload)) =
      or_err "failed to deserialise snapshot" (decode_snapshot payload) >>= λ envelope.
      ok (envelope.state, some envelope.at_stream_revision)

  abbrev pub start_from : Option ℕ → ℕ
  start_from none = 0
  start_from (some r) = add64 r 1

  -- step 3b: the trailing events over the snapshot's state; also how many they are
  unfoldable pub rehydrate : Server → Result (InventoryState × ℕ)
  unfolding restore
  rehydrate server = read_last_event api server snapshot_stream >>= λ snapshot.
      restore snapshot >>= λ restored.
      read_stream_from_revision api server stream_name (start_from restored.1) >>= λ trailing.
      ok (apply_all quantity restored.0 trailing, length trailing)

  -- phases 3 to 5: rehydration, the comparison with a full replay, and the read of the snapshots
  unfoldable pub verify : Server → Result (Unit {0})
  verify server = rehydrate server >>= λ restored.
      read_stream_events api server stream_name >>= λ all_events.
      read_stream_events api server snapshot_stream >>= λ all_snapshots.
      if state_eq restored.0 (apply_all quantity initial all_events)
      then ok tt
      else err ("rehydration verification failed" ∷ [])

  abbrev pub start : Server → Writer
  start server = record { server = server; live_state = initial; snapshot_count = 0; seq = 0 }

  pub run : ℕ → Server → ℕ → ℕ → Option (Server × Result (Unit {0}))
  unfolding verify
  run fuel server event_count snapshot_every =
      elim (write_all fuel event_count snapshot_every (start server)) [
        | none ↦ none
        | some (w, written) ↦ some (w.server, written >>= λ u. verify w.server)
      ]
