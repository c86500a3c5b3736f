-- ===== src/Snapshot/Outcome.antt =====
-- `run` of rust-app/src/kurrentdb/snapshot_demo.rs ends, and its verification passes.
use event_sourcing_testbed.Common.{
  ℕ, zero, suc, ◌+◌, ◌-◌, ◌^◌, ◌<◌, ◌≤◌, ◌≡◌, ◌≢◌, refl, ap, ◌∙◌, ◌⊎◌, inl, inr, Bool-cases, String,
  List, [], ◌∷◌, All, some, arith, length, add32, sub32, min, ltb, ltb→lt, false,
}
use event_sourcing_testbed.Common.Result.{Result, ok, err}
use event_sourcing_testbed.Kurrent.Driver.{Api}
use event_sourcing_testbed.Kurrent.{read_stream_events}
use event_sourcing_testbed.Kurrent.Reads.{IsHonest}
use event_sourcing_testbed.Inventory.{apply_all}
use event_sourcing_testbed.Snapshot.Codec.{Inputs, IsFaithful}
use event_sourcing_testbed.Snapshot.{
  Writer, Pending, window, send_window, write_window, write_all, start, rehydrate, verify, run,
}
use event_sourcing_testbed.Store.Checkpoints.{result_cases}
use event_sourcing_testbed.Snapshot.Windows.{Agrees, window-Agrees}
use event_sourcing_testbed.Snapshot.Rehydration.{IsCovered, verify_passes}
use event_sourcing_testbed.Snapshot.Progress.{IsReady, Ready, acknowledge-Ready}

module _ (api : Api) (inputs : Inputs api) (honest : IsHonest api) (faithful : IsFaithful inputs)
    (stream_name snapshot_stream : String) (distinct : snapshot_stream ≢ stream_name) where
  abbrev W : Type 0
  W = Writer api inputs stream_name snapshot_stream

  -- A window that succeeds moves `seq` to the end of the window, and leaves the live state a replay of
  -- the stream, the stream `seq` events long, and the newest snapshot one of all of them.
  pub write_window-Ready :
      (w : W) (event_count snapshot_every : ℕ)
      → IsReady api inputs stream_name snapshot_stream w
      → w.seq < event_count
      → event_count < 2 ^ 32
      → 0 < snapshot_every
      → w.seq + snapshot_every < 2 ^ 32
      → (write_window api inputs stream_name snapshot_stream event_count snapshot_every w).1 ≡ ok tt
      → IsReady api inputs stream_name snapshot_stream
          (write_window api inputs stream_name snapshot_stream event_count snapshot_every w).0
        × ((write_window api inputs stream_name snapshot_stream event_count snapshot_every w).0.seq
            ≡ min (w.seq + snapshot_every) event_count)
  unfolding write_window send_window
  write_window-Ready w event_count snapshot_every ready more small pos fits h =
      let window_end = min (add32 w.seq snapshot_every) event_count in
      let e : window_end ≡ min (w.seq + snapshot_every) event_count = omega arith in
      let made = window api inputs stream_name snapshot_stream w.seq (window_end - w.seq) in
      elim (result_cases made) [
        | inr (f, bad) ↦ absurd (cc (rw (write_window, bad) at h))
        | inl (ps, good) ↦
            let (size, agree) =
              window-Agrees api inputs stream_name snapshot_stream faithful w.seq
                (window_end - w.seq) ps good in
            let r =
              sent_window window_end ps size agree (omega arith) (omega arith)
                (rw (write_window, good) at h) in
            rw (write_window, good) (r.0, r.1 ∙ e)
      ]
    where
      sent_window :
          (window_end : ℕ) (ps : List (Pending api inputs stream_name snapshot_stream))
          → length ps ≡ window_end - w.seq
          → All (Agrees api inputs stream_name snapshot_stream) ps
          → w.seq < window_end
          → window_end < 2 ^ 32
          → let after =
              send_window api inputs stream_name snapshot_stream w
                (sub32 window_end w.seq)
                window_end
                (ok ps) in
            after.1 ≡ ok tt → Ready api inputs stream_name snapshot_stream after.0 window_end
      sent_window window_end [] size agree more small h = absurd (omega arith)
      sent_window window_end (p ∷ ps) size agree more small h =
          acknowledge-Ready api inputs honest faithful stream_name snapshot_stream distinct w p ps
            (sub32 window_end w.seq) window_end _ ready (omega (arith, size)) (omega arith)
            (omega arith) agree refl h

  -- a written window, by what it answers
  written_cases : (r : Result (Unit {0})) → (r ≡ ok tt) ⊎ ((e : List String) × (r ≡ err e))
  written_cases (ok tt) = inl refl
  written_cases (err e) = inr (e, refl)

  -- the write phase answers, and a writer whose answer is `ok` has written all events
  abbrev pub Ends : ℕ → ℕ → ℕ → W → Type 0
  Ends fuel event_count snapshot_every w =
      (w' : W) × (written : Result (Unit {0})) × (write_all api inputs stream_name snapshot_stream
          fuel event_count snapshot_every w
        ≡ some (w', written))
      × (written ≡ ok tt → Ready api inputs stream_name snapshot_stream w' event_count)

  stopped : (a b : ℕ) → a ≤ b → ltb a b ≡ false → a ≡ b
  stopped a b le h = ground arith

  -- The write phase ends, if there is a window at all to move on by: with fuel for every event left, it
  -- answers, and when it answers `ok` the writer is ready with all of `event_count` written.
  pub write_all-Ends :
      (fuel event_count snapshot_every : ℕ) (w : W)
      → IsReady api inputs stream_name snapshot_stream w
      → w.seq ≤ event_count
      → event_count - w.seq < fuel
      → 0 < snapshot_every
      → event_count + snapshot_every < 2 ^ 32
      → Ends fuel event_count snapshot_every w
  unfolding write_all
  write_all-Ends zero event_count snapshot_every w ready le lt pos fits = absurd (omega (arith, lt))
  write_all-Ends (suc fuel) event_count snapshot_every w ready le lt pos fits =
      elim (Bool-cases (ltb w.seq event_count)) [
        | inr stop ↦ (w, ok tt, rw stop refl, λ h. (ready, stopped w.seq event_count le stop))
        | inl more ↦
            elim (written_cases
              (write_window api inputs stream_name snapshot_stream event_count snapshot_every
                w).1) [
                  | inr (e, failed) ↦ (
                    (write_window api inputs stream_name snapshot_stream event_count snapshot_every
                        w).0,
                    err e,
                    rw (more, failed) refl,
                    λ h. absurd (cc h),
                  )
                  | inl good ↦
                      let less = ltb→lt w.seq event_count more in
                      let next =
                        (write_window api inputs stream_name snapshot_stream event_count
                          snapshot_every w).0 in
                      let (ready', at) =
                        write_window-Ready w event_count snapshot_every ready less (omega arith) pos
                          (omega arith) good in
                      let (w', r, e, keep) =
                        write_all-Ends fuel event_count snapshot_every next ready'
                          (omega (arith, at)) (omega (arith, at, less, pos, lt)) pos fits in
                      (w', r, rw (more, good) e, keep)
                ]
      ]

  fresh :
      (s : api.Server)
      → api.stream s stream_name ≡ []
      → api.stream s snapshot_stream ≡ []
      → IsReady api inputs stream_name snapshot_stream
          (start api inputs stream_name snapshot_stream s)
  unfolding apply_all
  fresh s m n = record { live = rw m refl; grown = rw m refl; covered = inl (rw n refl, rw m refl) }

  -- The reads of the verification, by their answers: one of them failed, or the comparison passed.
  abbrev pub Verified : api.Server → Result (Unit {0}) → Type 0
  Verified s r =
      (r ≡ ok tt)
      ⊎ ((e : List String) × (rehydrate api inputs stream_name snapshot_stream s ≡ err e))
      ⊎ ((e : List String) × (read_stream_events api s stream_name ≡ err e))
      ⊎ ((e : List String) × (read_stream_events api s snapshot_stream ≡ err e))

  read_cases :
      {A : Type 0} (r : Result A) → ((a : A) × (r ≡ ok a)) ⊎ ((e : List String) × (r ≡ err e))
  read_cases (ok a) = inl (a, refl)
  read_cases (err e) = inr (e, refl)

  verified :
      (s : api.Server) (covered : ℕ)
      → IsCovered api inputs s stream_name snapshot_stream covered
      → Verified s (verify api inputs stream_name snapshot_stream s)
  verified s covered c = elim (read_cases (rehydrate api inputs stream_name snapshot_stream s)) [
    | inr failed ↦ inr (inl failed)
    | inl (a, h) ↦ elim (read_cases (read_stream_events api s stream_name)) [
      | inr failed ↦ inr (inr (inl failed))
      | inl (b, k) ↦ elim (read_cases (read_stream_events api s snapshot_stream)) [
        | inr failed ↦ inr (inr (inr failed))
        | inl (d, l) ↦
            inl
              (verify_passes api inputs honest s stream_name snapshot_stream covered a b d c h k l)
      ]
    ]
  ]

  -- How a run ends: after all events were written, with the answer of the verification; or with an
  -- error of the write phase.
  abbrev pub Outcome : ℕ → ℕ → api.Server → Type 0
  Outcome event_count snapshot_every s =
      (s' : api.Server) × (r : Result (Unit {0})) × (run api inputs stream_name snapshot_stream
          (suc event_count) s event_count snapshot_every
        ≡ some (s', r))
      × (((length (api.stream s' stream_name) ≡ event_count) × Verified s' r)
          ⊎ ((w' : W) × (e : List String) × (r ≡ err e)
              × (write_all api inputs stream_name snapshot_stream (suc event_count) event_count
                    snapshot_every (start api inputs stream_name snapshot_stream s)
                  ≡ some (w', err e))))

  -- A run over two empty streams, with windows of at least one event and `event_count +
  -- snapshot_every` below 2 ^ 32, ends, with a loop of at most `event_count` turns. Its answer is that
  -- of the verification after all `event_count` events were written, which is `ok` unless a read
  -- failed: never a mismatch between the rehydrated state and the full replay; or else it is an error
  -- of the write phase.
  pub run-Outcome :
      (event_count snapshot_every : ℕ) (s : api.Server)
      → api.stream s stream_name ≡ []
      → api.stream s snapshot_stream ≡ []
      → 0 < snapshot_every
      → event_count + snapshot_every < 2 ^ 32
      → Outcome event_count snapshot_every s
  unfolding run
  run-Outcome event_count snapshot_every s m n pos fits =
      let (w', written, e, ready) =
        write_all-Ends (suc event_count) event_count snapshot_every _ (fresh s m n) (omega arith)
          (omega arith) pos fits in
      elim (written_cases written) [
        | inl good ↦
            let (r, at) = ready good in
            (
              w'.server,
              verify api inputs stream_name snapshot_stream w'.server,
              rw (run, e, good) refl,
              inl (r.grown ∙ at, verified w'.server _ r.covered),
            )
        | inr (chain, bad) ↦ (
          w'.server,
          err chain,
          rw (run, e, bad) refl,
          inr (w', chain, refl, e ∙ ap (λ x. some (w', x)) bad),
        )
      ]
