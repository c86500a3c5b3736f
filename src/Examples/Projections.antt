-- ===== src/Examples/Projections.antt =====
-- A projector that polls a table in memory while a writer adds rows.
use event_sourcing_testbed.Common.{
  none, some, ℕ, ◌+◌, ◌≡◌, ◌<◌, refl, ap, str_eq, List, [], ◌∷◌, ◌++◌, map, take, arith,
  if◌then◌else◌,
}
use event_sourcing_testbed.Common.Result.{ok}
use event_sourcing_testbed.Kurrent.Driver.{done, refused}
use event_sourcing_testbed.Mongo.Driver.{inserted}
use event_sourcing_testbed.PostgresClient.{Server, BenchRow, poll_new_events}
use event_sourcing_testbed.Projection.{Projector, start, turn, project_rows, read_view}
use event_sourcing_testbed.Projection.Polling.{Laws, Reach, here, next, write, poll, waited_newest}
use event_sourcing_testbed.Projection.Progress.{turns, turns_catch_up}
use event_sourcing_testbed.Projection.Subscriptions.{
  project, delivered, readable, Shows, project-Shows,
}
use event_sourcing_testbed.Projection.Rows.{Ascends, later}

-- the sequence numbers; positions count from one
abbrev numbered : ℕ → List ℕ → List (ℕ × ℕ)
numbered at [] = []
numbered at (seq ∷ rest) = (seq, at) ∷ numbered (at + 1) rest

abbrev table : Server
table = record {
  State = List ℕ;
  Row = ℕ × ℕ;
  advance = λ s stream_id n. (s, done 0);
  advance_and_insert = λ s stream_id row. let r = row 0 in (s ++ r.seq ∷ [], done tt);
  insert_rows = λ s rows. (s ++ map (λ (r : BenchRow). r.seq) rows, done tt);
  insert_row = λ s row. (s ++ row.seq ∷ [], inserted);
  select_newest = λ s stream_id n. done [];
  select_after = λ s stream_id after limit. done (take limit (later after (numbered 1 s)));
  fetch_stream = λ s stream_id. [];
  get_number = λ r name. if str_eq name "seq" then r.0 else r.1;
  get_bytes = λ r name. [];
  get_time = λ r name. 0;
}

numbered-Ascends : (after at : ℕ) (s : List ℕ) → after < at → Ascends after (numbered at s)
unfolding Ascends
numbered-Ascends after at [] h = tt
numbered-Ascends after at (seq ∷ rest) h = (h, numbered-Ascends at (at + 1) rest (omega arith))

same_rows : (rs : List (ℕ × ℕ)) → map (λ r. (r.0, r.1)) rs ≡ rs
same_rows [] = refl
same_rows (r ∷ rs) = ap (◌∷◌ r) (same_rows rs)

table_laws : Laws table "bench"
table_laws = record {
  rows = numbered 1;
  ascending = λ s. numbered-Ascends 0 1 s (omega arith);
  selected = λ s after limit found h.
      let same : take limit (later after (numbered 1 s)) ≡ found = cc h in
      rw (← same) (same_rows (take limit (later after (numbered 1 s))));
}

abbrev seeded : List ℕ
seeded = 1 ∷ 2 ∷ 3 ∷ []

abbrev polled : Projector
polled = turn table "bench" 2 seeded (start 2)

abbrev written : List ℕ
written = seeded ++ 4 ∷ []

abbrev caught_up : Projector
caught_up = turn table "bench" 2 written polled

ran : Reach table "bench" table_laws 2 (seeded, start 2) (written, caught_up)
unfolding table_laws
ran =
    next (next (next here (poll seeded (start 2))) (write seeded written polled ((4, 4) ∷ []) refl))
      (poll written polled)

waited_newest_example : read_view caught_up.view ≡ 3 ∷ 4 ∷ []
unfolding table_laws turn later project_rows poll_new_events
waited_newest_example =
    waited_newest table "bench" table_laws 2 seeded (written, caught_up) (omega arith) (omega arith)
      ran (omega arith)

answers :
    (after : ℕ)
    → (found : List (ℕ × ℕ)) × (poll_new_events table written "bench" after 200 ≡ ok found)
unfolding poll_new_events
answers after = (_, refl)

turns_catch_up_example :
    let p = turns table "bench" table_laws 2 1 written (start 2) in
    (p.processed ≡ 4) × (read_view p.view ≡ 3 ∷ 4 ∷ [])
unfolding table_laws
turns_catch_up_example =
    turns_catch_up table "bench" table_laws 2 1 written (omega arith) (omega arith) answers
      (omega arith)

project-Shows_example :
    Shows 2
      (project some 2
        ([], 0)
        (done 1 ∷ refused "lost" ∷ done 2 ∷ [])
        (done (some 3) ∷ done none ∷ refused "closed" ∷ done (some 4) ∷ []))
      (1 ∷ 2 ∷ 3 ∷ [])
unfolding delivered readable
project-Shows_example =
    project-Shows some 2 (done 1 ∷ refused "lost" ∷ done 2 ∷ [])
      (done (some 3) ∷ done none ∷ refused "closed" ∷ done (some 4) ∷ []) (omega arith)
