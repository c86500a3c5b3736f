-- ===== src/Projection/Polling.antt =====
-- The polling projector of rust-app/src/projection_bench.rs beside writers of its stream: its view
-- holds the newest of the rows that it has seen.
use event_sourcing_testbed.Common.{
  ℕ, ◌-◌, ◌^◌, ◌<◌, ◌≤◌, ◌≡◌, refl, sym, ap, subst, ◌∙◌, ◌⊎◌, inl, inr, String, List, [], ◌∷◌, ◌++◌,
  map, arith, length, length-append, length-map, take-append-drop, take, drop, drop_all,
}
use mathlib.Core.List.{append_assoc}
use event_sourcing_testbed.Common.Result.{ok, err}
use event_sourcing_testbed.Kurrent.Driver.{done}
use event_sourcing_testbed.Store.Checkpoints.{reply_cases}
use event_sourcing_testbed.PostgresClient.{Server, poll_new_events}
use event_sourcing_testbed.Projection.{Projector, start, read_view, turn}
use event_sourcing_testbed.Projection.Rows.{
  later, Ascends, last_position, later-last_position, no_more, seqs, IsProjected,
  project_rows-IsProjected,
}

-- What is promised of the server: `rows` are the stream's rows by position.
pub record Laws (server : Server) (stream_name : String) : Type 0 where
  pub rows : server.State → List (ℕ × ℕ)
  pub ascending : (s : server.State) → Ascends 0 (rows s)
  pub selected :
      (s : server.State) (after limit : ℕ) (found : List server.Row)
      → server.select_after s stream_name after limit ≡ done found
      → map (λ r. (server.get_number r "seq", server.get_number r "global_position")) found
        ≡ take limit (later after (rows s))

module _ (server : Server) (stream_name : String) (laws : Laws server stream_name) where
  pub poll_new_events_ok :
      (s : server.State) (after limit : ℕ)
      → ((e : List String) × (poll_new_events server s stream_name after limit ≡ err e))
        ⊎ (poll_new_events server s stream_name after limit
            ≡ ok (take limit (later after (laws.rows s))))
  unfolding poll_new_events
  poll_new_events_ok s after limit =
      elim (reply_cases (server.select_after s stream_name after limit)) [
        | inr (e, bad) ↦ inl ("poll_new_events failed" ∷ e ∷ [], rw (poll_new_events, bad) refl)
        | inl (found, good) ↦
            inr (rw (poll_new_events, good) (ap ok (laws.selected s after limit found good)))
      ]

  module _ (view_size : ℕ) where
    -- A writer adds rows, or the projector takes a turn. Its turn is one step: writes in between do
    -- not touch the rows that it has fetched.
    pub data Step : server.State × Projector → server.State × Projector → Type 0 where
      write :
          (s s' : server.State) (p : Projector) (new : List (ℕ × ℕ))
          → laws.rows s' ≡ laws.rows s ++ new
          → Step (s, p) (s', p)
      poll :
          (s : server.State) (p : Projector)
          → Step (s, p) (s, turn server stream_name view_size s p)

    pub data Reach (c : server.State × Projector) : server.State × Projector → Type 0 where
      here : Reach c c
      next : {d e : server.State × Projector} → Reach c d → Step d e → Reach c e

    -- the projector has seen a first part of the rows
    abbrev pub Follows : server.State × Projector → Type 0
    Follows (s, p) =
        (seen : List (ℕ × ℕ)) × (rest : List (ℕ × ℕ)) × (laws.rows s ≡ seen ++ rest)
        × IsProjected view_size p seen

    -- A poll that is answered counts the next rows, 200 at most.
    pub poll_answered :
        (s : server.State) (p : Projector) (seen rest : List (ℕ × ℕ))
        → 0 < view_size
        → length (laws.rows s) < 2 ^ 64
        → laws.rows s ≡ seen ++ rest
        → IsProjected view_size p seen
        → poll_new_events server s stream_name p.checkpoint 200
          ≡ ok (take 200 (later p.checkpoint (laws.rows s)))
        → (laws.rows s ≡ (seen ++ take 200 rest) ++ drop 200 rest)
          × IsProjected view_size (turn server stream_name view_size s p) (seen ++ take 200 rest)
    unfolding turn
    poll_answered s p seen rest pos fits split is good =
        let up : Ascends 0 (seen ++ rest) = subst (Ascends 0) split (laws.ascending s) in
        let unseen : later p.checkpoint (laws.rows s) ≡ rest =
          rw (is.1, split) (later-last_position 0 seen rest up) in
        let polled : poll_new_events server s stream_name p.checkpoint 200 ≡ ok (take 200 rest) =
          good ∙ ap (λ l. ok (take 200 l)) unseen in
        let whole : laws.rows s ≡ (seen ++ take 200 rest) ++ drop 200 rest =
          split
          ∙ ap (λ l. seen ++ l) (sym (take-append-drop 200 rest))
          ∙ sym (append_assoc seen (take 200 rest) (drop 200 rest)) in
        let some_rows = length-append (seen ++ take 200 rest) (drop 200 rest) in
        let short : length (seen ++ take 200 rest) < 2 ^ 64 =
          omega (arith, fits, some_rows, ap length whole) in
        (
          whole,
          rw (turn, polled)
              (project_rows-IsProjected view_size p seen (take 200 rest) pos short is),
        )

    poll-Follows :
        (s : server.State) (p : Projector)
        → 0 < view_size
        → length (laws.rows s) < 2 ^ 64
        → Follows (s, p)
        → Follows (s, turn server stream_name view_size s p)
    unfolding turn
    poll-Follows s p pos fits (seen, rest, split, is) =
        elim (poll_new_events_ok s p.checkpoint 200) [
          | inl (e, bad) ↦ rw (turn, bad) (seen, rest, split, is)
          | inr good ↦
              let (whole, is') = poll_answered s p seen rest pos fits split is good in
              (seen ++ take 200 rest, drop 200 rest, whole, is')
        ]

    Step-Follows :
        {c d : server.State × Projector}
        → 0 < view_size
        → length (laws.rows d.0) < 2 ^ 64
        → Follows c
        → Step c d
        → Follows d
    Step-Follows pos fits (seen, rest, split, is) (write s s' p new grown) =
        (seen, rest ++ new, grown ∙ ap (λ l. l ++ new) split ∙ append_assoc seen rest new, is)
    Step-Follows pos fits f (poll s p) = poll-Follows s p pos fits f

    Step-rows :
        {c d : server.State × Projector}
        → Step c d
        → length (laws.rows c.0) ≤ length (laws.rows d.0)
    Step-rows (write s s' p new grown) =
        omega (arith, ap length grown, length-append (laws.rows s) new)
    Step-rows (poll s p) = omega arith

    -- In every interleaving of writes and polls, with whatever errors of the polls, for a view of at
    -- least one place and a stream below 2 ^ 64 rows, the projector has
    -- counted a first part of the stream's rows and no row twice, its checkpoint is at the last of
    -- them, and the view holds the newest of them, as many as it has places.
    pub Reach-Follows :
        (s : server.State) (c : server.State × Projector)
        → 0 < view_size
        → length (laws.rows c.0) < 2 ^ 64
        → Reach (s, start view_size) c
        → Follows c
    unfolding last_position
    Reach-Follows s c pos fits here =
        ([], laws.rows s, refl, (sym (drop_all (0 - view_size) [] (omega arith)), refl, refl))
    Reach-Follows s c pos fits (next {d} r st) =
        Step-Follows pos fits (Reach-Follows s d pos (omega (arith, fits, Step-rows st)) r) st

    -- Where the writers wait until as many rows are counted as the stream has, a view of at least one
    -- place, of a stream below 2 ^ 64 rows, then holds the newest rows of the stream, as many as it has places, whatever the interleaving was.
    pub waited_newest :
        (s : server.State) (c : server.State × Projector)
        → 0 < view_size
        → length (laws.rows c.0) < 2 ^ 64
        → Reach (s, start view_size) c
        → length (laws.rows c.0) ≤ c.1.processed
        → read_view c.1.view ≡ drop (length (laws.rows c.0) - view_size) (seqs (laws.rows c.0))
    waited_newest s c pos fits r waited =
        let (seen, rest, split, is) = Reach-Follows s c pos fits r in
        let nothing : length rest ≡ 0 =
          omega (arith, ap length split, length-append seen rest, is.2, waited) in
        let all : laws.rows c.0 ≡ seen = split ∙ no_more seen rest nothing in
        let size : length (seqs seen) ≡ length seen = length-map (λ q. q.0) seen in
        rw (all, ← size) is.0
