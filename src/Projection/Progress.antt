-- ===== src/Projection/Progress.antt =====
-- Without errors the projector of rust-app/src/projection_bench.rs catches up with its stream.
use event_sourcing_testbed.Common.{
  ℕ, ◌*◌, zero, suc, ◌-◌, ◌^◌, ◌<◌, ◌≤◌, ◌≡◌, refl, sym, inl, inr, String, List, [], ◌++◌, arith,
  length, length-map, length-drop, take, drop, drop_all,
}
use native.Mathlib.Nat.{suc-mul}
use event_sourcing_testbed.Common.Result.{ok}
use event_sourcing_testbed.PostgresClient.{Server, poll_new_events}
use event_sourcing_testbed.Projection.{Projector, start, read_view, turn}
use event_sourcing_testbed.Projection.Rows.{last_position, no_more, seqs, IsProjected}
use event_sourcing_testbed.Projection.Polling.{Laws, poll_new_events_ok, poll_answered}

module _ (server : Server) (stream_name : String) (laws : Laws server stream_name)
    (view_size : ℕ) where
  -- turns without a write in between
  unfoldable pub turns : ℕ → server.State → Projector → Projector
  turns zero s p = p
  turns (suc n) s p = turns n s (turn server stream_name view_size s p)

  turns_lem :
      (n : ℕ) (s : server.State) (p : Projector) (seen rest : List (ℕ × ℕ))
      → 0 < view_size
      → length (laws.rows s) < 2 ^ 64
      → laws.rows s ≡ seen ++ rest
      → IsProjected view_size p seen
      → ((after : ℕ)
          → (found : List (ℕ × ℕ)) × (poll_new_events server s stream_name after 200 ≡ ok found))
      → length rest ≤ n * 200
      → IsProjected view_size (turns n s p) (laws.rows s)
  unfolding turns
  turns_lem zero s p seen rest pos fits split is answered enough =
      rw (split, no_more seen rest (omega (arith, enough))) is
  turns_lem (suc n) s p seen rest pos fits split is answered enough =
      elim (poll_new_events_ok server stream_name laws s p.checkpoint 200) [
        | inl (e, bad) ↦ absurd (cc (answered p.checkpoint).1)
        | inr good ↦
            let (whole, is') =
              poll_answered server stream_name laws view_size s p seen rest pos fits split is
                good in
            turns_lem n s (turn server stream_name view_size s p) (seen ++ take 200 rest)
              (drop 200 rest) pos fits whole is' answered
              (omega (arith, enough, length-drop 200 rest, suc-mul n 200))
      ]

  -- Where the polls are answered, for a view of at least one place and a stream below 2 ^ 64 rows, as many turns as a two-hundredth of the number of rows, rounded
  -- up, count every row, and the view then holds the newest of them, as many as it has places.
  pub turns_catch_up :
      (n : ℕ) (s : server.State)
      → 0 < view_size
      → length (laws.rows s) < 2 ^ 64
      → ((after : ℕ)
          → (found : List (ℕ × ℕ)) × (poll_new_events server s stream_name after 200 ≡ ok found))
      → length (laws.rows s) ≤ n * 200
      → let p = turns n s (start view_size) in
        (p.processed ≡ length (laws.rows s))
        × (read_view p.view ≡ drop (length (laws.rows s) - view_size) (seqs (laws.rows s)))
  unfolding last_position
  turns_catch_up n s pos fits answered enough =
      let is =
        turns_lem n s (start view_size) [] (laws.rows s) pos fits refl
          (sym (drop_all (0 - view_size) [] (omega arith)), refl, refl) answered enough in
      let size : length (seqs (laws.rows s)) ≡ length (laws.rows s) =
        length-map (λ q. q.0) (laws.rows s) in
      (is.2, rw (← size) is.0)
