-- ===== src/Projection.antt =====
-- rust-app/src/projection_bench.rs: the materialised view, and the projector of `run_postgres`, which
-- polls the table. The writer and the projector run side by side: Projection.Polling has them as steps.
-- Timings and the channel that wakes the writer are left out: it waits for a value of `processed`.
pub mod Rows
pub mod Polling
pub mod Progress
pub mod Subscriptions
use event_sourcing_testbed.Common.{
  ℕ, zero, suc, ◌+◌, String, List, [], ◌∷◌, Option, none, some, add64, ltb, if◌then◌else◌,
}
use event_sourcing_testbed.Common.Result.{Result, ok, err}
use event_sourcing_testbed.Tail.{pushed}
use event_sourcing_testbed.PostgresClient.{Server, poll_new_events}

abbrev pub View : Type 0
View = List ℕ

-- the capacity only reserves memory
abbrev pub new_view : ℕ → View
new_view capacity = []

unfoldable pub push_to_view : View → ℕ → ℕ → View
push_to_view v seq capacity = pushed capacity v seq

abbrev pub read_view : View → List ℕ
read_view view = view

-- what the projector's task owns, and the view
pub record Projector : Type 0 where
  pub view : View
  pub checkpoint : ℕ
  pub processed : ℕ

abbrev pub start : ℕ → Projector
start view_size = record { view = new_view view_size; checkpoint = 0; processed = 0 }

-- `for (seq, gpos) in rows`
unfoldable pub project_rows : ℕ → Projector → List (ℕ × ℕ) → Projector
unfolding push_to_view
project_rows view_size p [] = p
project_rows view_size p ((seq, gpos) ∷ rows) =
    let p' : Projector = record {
      view = push_to_view p.view seq view_size;
      checkpoint = gpos;
      processed = add64 p.processed 1;
    } in
    project_rows view_size p' rows

-- one turn of the projector's loop; after an error or without rows it sleeps
unfoldable pub turn : (server : Server) → String → ℕ → server.State → Projector → Projector
unfolding project_rows
turn server stream_name view_size s p =
    elim (poll_new_events server s stream_name p.checkpoint 200) [
      | ok rows ↦ project_rows view_size p rows
      | err e ↦ p
    ]
