-- ===== src/Snapshot/Progress.antt =====
-- The write phase of rust-app/src/kurrentdb/snapshot_demo.rs: after each window the live state is a
-- replay of the stream, and the newest snapshot covers all of it.
use event_sourcing_testbed.Common.{
  ℕ, ◌+◌, ◌^◌, ◌<◌, ◌≡◌, ◌≢◌, refl, sym, ap, ◌∙◌, inr, String, List, [], ◌∷◌, ◌++◌, map, some,
  arith, length, length-append, length-map, take_all, sub64, All,
}
use mathlib.Core.List.{map-append, reverse-append}
use event_sourcing_testbed.Common.Result.{Result, ok, err}
use event_sourcing_testbed.Kurrent.Driver.{
  Api, Recorded, number, length-number, any, Reply, done, refused,
}
use event_sourcing_testbed.Kurrent.{Triple, triple, append}
use event_sourcing_testbed.Kurrent.Appends.{append_exact}
use event_sourcing_testbed.Kurrent.Reads.{IsHonest}
use event_sourcing_testbed.Inventory.{InventoryState, initial, SnapshotEnvelope, apply_all}
use event_sourcing_testbed.Inventory.Replay.{apply_all-append}
use event_sourcing_testbed.Snapshot.Codec.{Inputs, IsFaithful}
use event_sourcing_testbed.Snapshot.{Writer, Pending, batch, fold, acknowledge, snapshotted}
use event_sourcing_testbed.Snapshot.Windows.{Agrees, fold-replay}
use event_sourcing_testbed.Snapshot.Rehydration.{replay, newest, IsCovered}

module _ (api : Api) (inputs : Inputs api) (stream_name snapshot_stream : String) where
  -- Between two windows: the live state is a replay of the stream, which holds `seq` events, and the
  -- newest snapshot covers all of them.
  pub record IsReady (w : Writer api inputs stream_name snapshot_stream) : Type 0 where
    pub live : w.live_state ≡ replay api inputs w.server stream_name
    pub grown : length (api.stream w.server stream_name) ≡ w.seq
    pub covered :
        IsCovered api inputs w.server stream_name snapshot_stream
          (length (api.stream w.server stream_name))

  abbrev pub Ready : Writer api inputs stream_name snapshot_stream → ℕ → Type 0
  Ready w seq = IsReady w × (w.seq ≡ seq)

module _ (api : Api) (inputs : Inputs api) (honest : IsHonest api) (faithful : IsFaithful inputs)
    (stream_name snapshot_stream : String) (distinct : snapshot_stream ≢ stream_name) where
  abbrev Stored : api.Server → api.Server → SnapshotEnvelope → Type 0
  Stored s s' envelope =
      (api.stream s' stream_name ≡ api.stream s stream_name)
      × (snapshot : Triple api) × (newest api inputs s' snapshot_stream ≡ some snapshot)
      × (inputs.decode_snapshot snapshot.2 ≡ some envelope)

  newest-append :
      (s' : api.Server) (es : List (Recorded api.Data)) (e : Recorded api.Data)
      → api.stream s' snapshot_stream ≡ es ++ e ∷ []
      → newest api inputs s' snapshot_stream ≡ some (triple api e)
  newest-append s' es e h = rw (h, reverse-append es (e ∷ []))

  appended :
      (s : api.Server) (envelope : SnapshotEnvelope) (r : ℕ)
      → (append api inputs.encode_snapshot s snapshot_stream "InventorySnapshot" envelope).1 ≡ ok r
      → Stored s
          (append api inputs.encode_snapshot s snapshot_stream "InventorySnapshot" envelope).0
          envelope
  appended s envelope r h =
      let (d, e, g) =
        append_exact api honest.laws inputs.encode_snapshot s snapshot_stream "InventorySnapshot"
          envelope r h in
      let (v, parsed, decoded) = faithful.snapshot envelope d e in
      (g.2 stream_name distinct, _, newest-append _ _ _ g.0, rw parsed decoded)

  -- the stream after a batch, as a replay
  replay-append :
      (s s' : api.Server) (live : InventoryState)
      (ps : List (Pending api inputs stream_name snapshot_stream))
      → live ≡ replay api inputs s stream_name
      → length (api.stream s stream_name) + length ps < 2 ^ 64
      → All (Agrees api inputs stream_name snapshot_stream) ps
      → api.stream s' stream_name
        ≡ api.stream s stream_name
          ++ number
              (length (api.stream s stream_name))
              (batch api inputs stream_name snapshot_stream ps)
      → fold api inputs stream_name snapshot_stream live (length (api.stream s stream_name)) ps
        ≡ replay api inputs s' stream_name
  replay-append s s' live ps l lt agree grown =
      fold-replay api inputs stream_name snapshot_stream live _ ps lt agree
      ∙ rw
          (
            l,
            grown,
            map-append (triple api) (api.stream s stream_name) (
                number (length (api.stream s stream_name))
                  (batch api inputs stream_name snapshot_stream ps)),
          )
          (sym (apply_all-append inputs.quantity initial _ _))

  snapshotted-Ready :
      (w : Writer api inputs stream_name snapshot_stream) (s : api.Server) (live : InventoryState)
      (last window_end now : ℕ) (res : Result ℕ)
      → live ≡ replay api inputs s stream_name
      → length (api.stream s stream_name) ≡ window_end
      → last + 1 ≡ window_end
      → window_end < 2 ^ 64
      → let envelope : SnapshotEnvelope = record {
        state = live;
        at_stream_revision = last;
        taken_at = now;
      } in
        let sent =
          append api inputs.encode_snapshot s snapshot_stream "InventorySnapshot" envelope in
        sent.1 ≡ res
        → (snapshotted api inputs stream_name snapshot_stream w sent.0 live window_end res).1
          ≡ ok tt
        → Ready api inputs stream_name snapshot_stream
            (snapshotted api inputs stream_name snapshot_stream w sent.0 live window_end res).0
            window_end
  unfolding snapshotted
  snapshotted-Ready w s live last window_end now (err e) l g a b q h = absurd (cc h)
  snapshotted-Ready w s live last window_end now (ok r) l g a b q h =
      let envelope : SnapshotEnvelope = record {
        state = live;
        at_stream_revision = last;
        taken_at = now;
      } in
      let (same, snapshot, is_newest, decoded) = appended s envelope r q in
      let g' = ap length same ∙ g in
      let f = λ (es : List (Recorded api.Data)).
        apply_all inputs.quantity initial (map (triple api) es) in
      let t =
        api.stream
          (append api inputs.encode_snapshot s snapshot_stream "InventorySnapshot" envelope).0
          stream_name in
      let all = take_all (length t) t (omega arith) in
      (
        record {
          live = l ∙ ap f (sym same);
          grown = g';
          covered = inr (
            snapshot,
            is_newest,
            (
              envelope,
              decoded,
              omega (arith, g'),
              omega (arith, g'),
              l ∙ ap f (sym same ∙ sym all),
            ),
          );
        },
        refl,
      )

  pub acknowledge-Ready :
      (w : Writer api inputs stream_name snapshot_stream)
      (p : Pending api inputs stream_name snapshot_stream)
      (ps : List (Pending api inputs stream_name snapshot_stream)) (window_len window_end : ℕ)
      (reply : Reply ℕ)
      → IsReady api inputs stream_name snapshot_stream w
      → window_len ≡ length (p ∷ ps)
      → w.seq + window_len ≡ window_end
      → window_end < 2 ^ 64
      → All (Agrees api inputs stream_name snapshot_stream) (p ∷ ps)
      → let sent =
          api.append_to_stream w.server stream_name any
            (batch api inputs stream_name snapshot_stream (p ∷ ps)) in
        sent.1 ≡ reply
        → (acknowledge api inputs stream_name snapshot_stream w sent.0
            (p ∷ ps)
            window_len
            window_end
            reply).1
          ≡ ok tt
        → Ready api inputs stream_name snapshot_stream
            (acknowledge api inputs stream_name snapshot_stream w sent.0
              (p ∷ ps)
              window_len
              window_end
              reply).0
            window_end
  unfolding acknowledge
  acknowledge-Ready w p ps window_len window_end (refused e) ready len at small agree q h =
      absurd (cc h)
  acknowledge-Ready w p ps window_len window_end (done last) ready len at small agree q h =
      let (grown, r) =
        honest.append_done w.server stream_name any p.sent
          (batch api inputs stream_name snapshot_stream ps) last q in
      let n = length-map (λ (p : Pending api inputs stream_name snapshot_stream). p.sent) ps in
      let first : sub64 last (sub64 window_len 1) ≡ length (api.stream w.server stream_name) =
        omega (arith, r, n, ready.grown) in
      let s' =
        (api.append_to_stream w.server stream_name any
          (batch api inputs stream_name snapshot_stream (p ∷ ps))).0 in
      let total : length (api.stream s' stream_name) ≡ window_end =
        ap length grown
        ∙ omega (
          arith,
          n,
          len,
          at,
          ready.grown,
          length-append (api.stream w.server stream_name) (
              number (length (api.stream w.server stream_name))
                (batch api inputs stream_name snapshot_stream (p ∷ ps))),
          length-number (length (api.stream w.server stream_name))
              (batch api inputs stream_name snapshot_stream (p ∷ ps)),
        ) in
      let live =
        ap (λ (k : ℕ). fold api inputs stream_name snapshot_stream w.live_state k (p ∷ ps)) first
        ∙ replay-append w.server s' w.live_state (p ∷ ps) ready.live (omega (arith, ready.grown))
            agree grown in
      snapshotted-Ready w s' _ last window_end (inputs.clock last) _ live total
        (omega (arith, r, n, ready.grown)) small refl h
