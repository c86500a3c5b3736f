-- ===== src/Projection/Rows.antt =====
-- The rows that the projector of rust-app/src/projection_bench.rs polls, by position, and its loop over
-- them.
use event_sourcing_testbed.Common.{
  ℕ, ◌^◌, ◌<◌, ◌≤◌, ◌≡◌, refl, sym, subst, List, [], ◌∷◌, ◌++◌, map, true, false, ltb,
  if◌then◌else◌, arith, length, length-append, add64,
}
use mathlib.Core.List.{append_assoc, append-nil, map-append}
use event_sourcing_testbed.Tail.Newest.{IsTail, pushed-IsTail}
use event_sourcing_testbed.Projection.{Projector, push_to_view, read_view, project_rows}

-- sequence numbers and positions; `WHERE global_position > $2`
unfoldable pub later : ℕ → List (ℕ × ℕ) → List (ℕ × ℕ)
later after [] = []
later after (r ∷ rs) = let rest = later after rs in if ltb after r.1 then r ∷ rest else rest

-- positions above `after`, each above the one before
unfoldable pub Ascends : ℕ → List (ℕ × ℕ) → Type 0
Ascends after [] = Unit
Ascends after (r ∷ rs) = (after < r.1) × Ascends r.1 rs

-- the position of the last row
unfoldable pub last_position : ℕ → List (ℕ × ℕ) → ℕ
last_position at [] = at
last_position at (r ∷ rs) = last_position r.1 rs

pub Ascends-above : (a b : ℕ) (rs : List (ℕ × ℕ)) → a ≤ b → Ascends b rs → Ascends a rs
unfolding Ascends
Ascends-above a b [] h up = tt
Ascends-above a b (r ∷ rs) h up = (omega (arith, up.0), up.1)

pub later_all : (after : ℕ) (rs : List (ℕ × ℕ)) → Ascends after rs → later after rs ≡ rs
unfolding later Ascends
later_all after [] up = refl
later_all after (r ∷ rs) up =
    let above : ltb after r.1 ≡ true = ground (arith, up.0) in
    rw (above, later_all after rs (Ascends-above after r.1 rs (omega (arith, up.0)) up.1)) refl

pub last_position-le :
    (at : ℕ) (xs ys : List (ℕ × ℕ)) → Ascends at (xs ++ ys) → at ≤ last_position at xs
unfolding last_position Ascends
last_position-le at [] ys up = omega arith
last_position-le at (r ∷ rs) ys up = omega (arith, up.0, last_position-le r.1 rs ys up.1)

-- Behind the position of the last row of a first part stands the second part.
pub later-last_position :
    (at : ℕ) (xs ys : List (ℕ × ℕ))
    → Ascends at (xs ++ ys)
    → later (last_position at xs) (xs ++ ys) ≡ ys
unfolding later last_position Ascends
later-last_position at [] ys up = later_all at ys up
later-last_position at (r ∷ rs) ys up =
    let below : ltb (last_position r.1 rs) r.1 ≡ false =
      ground (arith, last_position-le r.1 rs ys up.1) in
    rw below (later-last_position r.1 rs ys up.1)

pub last_position-append :
    (at : ℕ) (xs ys : List (ℕ × ℕ))
    → last_position at (xs ++ ys) ≡ last_position (last_position at xs) ys
unfolding last_position
last_position-append at [] ys = refl
last_position-append at (r ∷ rs) ys = last_position-append r.1 rs ys

abbrev pub seqs : List (ℕ × ℕ) → List ℕ
seqs = map (λ r. r.0)

pub no_more : (xs ys : List (ℕ × ℕ)) → length ys ≡ 0 → xs ++ ys ≡ xs
no_more xs [] h = append-nil xs
no_more xs (y ∷ ys) h = absurd (omega (arith, h))

-- the projector has seen the rows `seen`
abbrev pub IsProjected : ℕ → Projector → List (ℕ × ℕ) → Type 0
IsProjected view_size p seen =
    IsTail view_size (read_view p.view) (seqs seen)
    × (p.checkpoint ≡ last_position 0 seen)
    × (p.processed ≡ length seen)

pub project_rows-IsProjected :
    (view_size : ℕ) (p : Projector) (seen rows : List (ℕ × ℕ))
    → 0 < view_size
    → length (seen ++ rows) < 2 ^ 64
    → IsProjected view_size p seen
    → IsProjected view_size (project_rows view_size p rows) (seen ++ rows)
unfolding project_rows push_to_view last_position
project_rows-IsProjected view_size p seen [] pos fits is = rw (append-nil seen) is
project_rows-IsProjected view_size p seen (r ∷ rs) pos fits is =
    let p' : Projector = record {
      view = push_to_view p.view r.0 view_size;
      checkpoint = r.1;
      processed = add64 p.processed 1;
    } in
    let one = seen ++ r ∷ [] in
    let joined : one ++ rs ≡ seen ++ r ∷ rs = append_assoc seen (r ∷ []) rs in
    let size = length-append seen (r ∷ []) in
    let whole = length-append seen (r ∷ rs) in
    let counted : add64 p.processed 1 ≡ length one = omega (arith, is, fits, size, whole) in
    let shown : IsTail view_size p'.view (seqs one) =
      subst (IsTail view_size p'.view) (sym (map-append (λ r. r.0) seen (r ∷ [])))
        (pushed-IsTail view_size p.view (seqs seen) r.0 pos is.0) in
    let at : r.1 ≡ last_position 0 one = sym (last_position-append 0 seen (r ∷ [])) in
    rw (← joined)
      (project_rows-IsProjected view_size p' one rs pos (rw joined fits) (shown, at, counted))
