-- ===== src/Projection/Subscriptions.antt =====
-- The projectors of `run_kurrentdb` and `run_mongo` of rust-app/src/projection_bench.rs, on what a
-- subscription, a cursor and a change stream yield, up to the point that they have reached.
use event_sourcing_testbed.Common.{
  ℕ, ◌-◌, ◌%◌, ◌^◌, ◌<◌, ◌≡◌, sym, subst, List, [], ◌∷◌, ◌++◌, Option, none, some, arith, length,
  length-append, drop_all, add64,
}
use mathlib.Core.List.{append_assoc, append-nil}
use event_sourcing_testbed.Events.{BenchmarkEvent}
use event_sourcing_testbed.Kurrent.Driver.{Reply, done, refused}
use event_sourcing_testbed.Tail.Newest.{IsTail, pushed-IsTail}
use event_sourcing_testbed.Projection.{View, push_to_view}

-- `push_to_view(…); processed += 1`
unfoldable pub count : ℕ → View × ℕ → ℕ → View × ℕ
count view_size (view, processed) seq = (push_to_view view seq view_size, add64 processed 1)

module _ {Data : Type 0} (decode : Data → Option BenchmarkEvent) (view_size : ℕ) where
  abbrev pub with_event : View × ℕ → Option BenchmarkEvent → View × ℕ
  with_event p none = p
  with_event p (some bench_ev) = count view_size p bench_ev.seq

  -- the loop over `sub.next()`; an error ends it
  unfoldable pub project_events : View × ℕ → List (Reply Data) → View × ℕ
  project_events p [] = p
  project_events p (refused e ∷ items) = p
  project_events p (done recorded ∷ items) = project_events (with_event p (decode recorded)) items

module _ {Document : Type 0} (seq_of : Document → Option ℕ) (view_size : ℕ) where
  abbrev pub with_seq : View × ℕ → Option ℕ → View × ℕ
  with_seq p none = p
  with_seq p (some seq) = count view_size p seq

  -- phase A, the cursor; an item that is an error is skipped
  unfoldable pub project_documents : View × ℕ → List (Reply Document) → View × ℕ
  project_documents p [] = p
  project_documents p (refused e ∷ items) = project_documents p items
  project_documents p (done doc ∷ items) = project_documents (with_seq p (seq_of doc)) items

  abbrev pub with_document : View × ℕ → Option Document → View × ℕ
  with_document p none = p
  with_document p (some doc) = with_seq p (seq_of doc)

  -- phase B, the change stream with its full documents; an error ends it
  unfoldable pub project_changes : View × ℕ → List (Reply (Option Document)) → View × ℕ
  project_changes p [] = p
  project_changes p (refused e ∷ items) = p
  project_changes p (done full_document ∷ items) =
      project_changes (with_document p full_document) items

  unfoldable pub project :
      View × ℕ → List (Reply Document) → List (Reply (Option Document)) → View × ℕ
  unfolding project_documents project_changes
  project p replayed watched = project_changes (project_documents p replayed) watched

abbrev pub shown : Option ℕ → List ℕ
shown none = []
shown (some seq) = seq ∷ []

abbrev pub seq_of_event : Option BenchmarkEvent → Option ℕ
seq_of_event none = none
seq_of_event (some bench_ev) = some bench_ev.seq

module _ {A : Type 0} (seq_of : A → Option ℕ) where
  -- the numbers of what stands before the first error
  unfoldable pub delivered : List (Reply A) → List ℕ
  delivered [] = []
  delivered (refused e ∷ items) = []
  delivered (done a ∷ items) = shown (seq_of a) ++ delivered items

  -- the numbers of what is no error
  unfoldable pub readable : List (Reply A) → List ℕ
  readable [] = []
  readable (refused e ∷ items) = readable items
  readable (done a ∷ items) = shown (seq_of a) ++ readable items

abbrev pub seq_of_change : {Document : Type 0} → (Document → Option ℕ) → Option Document → Option ℕ
seq_of_change seq_of none = none
seq_of_change seq_of (some doc) = seq_of doc

-- the view has the newest of the numbers `seen`, and they are counted
abbrev pub Shows : ℕ → View × ℕ → List ℕ → Type 0
Shows view_size (view, processed) seen =
    IsTail view_size view seen × (processed ≡ length seen % 2 ^ 64)

count_lem :
    (view_size : ℕ) (p : View × ℕ) (seen : List ℕ) (seq : ℕ)
    → 0 < view_size
    → Shows view_size p seen
    → Shows view_size (count view_size p seq) (seen ++ seq ∷ [])
unfolding count push_to_view
count_lem view_size (view, processed) seen seq pos (tail, counted) =
    let size = length-append seen (seq ∷ []) in
    (pushed-IsTail view_size view seen seq pos tail, omega (arith, counted, size))

with_seq_lem :
    {Document : Type 0} (seq_of : Document → Option ℕ) (view_size : ℕ) (p : View × ℕ)
    (seen : List ℕ) (o : Option ℕ)
    → 0 < view_size
    → Shows view_size p seen
    → Shows view_size (with_seq seq_of view_size p o) (seen ++ shown o)
with_seq_lem seq_of view_size p seen none pos s = rw (append-nil seen) s
with_seq_lem seq_of view_size p seen (some seq) pos s = count_lem view_size p seen seq pos s

with_event_lem :
    {Data : Type 0} (decode : Data → Option BenchmarkEvent) (view_size : ℕ) (p : View × ℕ)
    (seen : List ℕ) (o : Option BenchmarkEvent)
    → 0 < view_size
    → Shows view_size p seen
    → Shows view_size (with_event decode view_size p o) (seen ++ shown (seq_of_event o))
with_event_lem decode view_size p seen none pos s = rw (append-nil seen) s
with_event_lem decode view_size p seen (some e) pos s = count_lem view_size p seen e.seq pos s

with_document_lem :
    {Document : Type 0} (seq_of : Document → Option ℕ) (view_size : ℕ) (p : View × ℕ)
    (seen : List ℕ) (o : Option Document)
    → 0 < view_size
    → Shows view_size p seen
    → Shows view_size (with_document seq_of view_size p o) (seen ++ shown (seq_of_change seq_of o))
with_document_lem seq_of view_size p seen none pos s = rw (append-nil seen) s
with_document_lem seq_of view_size p seen (some doc) pos s =
    with_seq_lem seq_of view_size p seen (seq_of doc) pos s

-- A view of at least one place on KurrentDB shows the events that decode, up to the first error of the subscription.
pub project_events-Shows :
    {Data : Type 0} (decode : Data → Option BenchmarkEvent) (view_size : ℕ) (p : View × ℕ)
    (seen : List ℕ) (items : List (Reply Data))
    → 0 < view_size
    → Shows view_size p seen
    → Shows view_size
        (project_events decode view_size p items)
        (seen ++ delivered (λ d. seq_of_event (decode d)) items)
unfolding project_events delivered
project_events-Shows decode view_size p seen [] pos s = rw (append-nil seen) s
project_events-Shows decode view_size p seen (refused e ∷ items) pos s = rw (append-nil seen) s
project_events-Shows decode view_size p seen (done d ∷ items) pos s =
    subst (Shows view_size (project_events decode view_size p (done d ∷ items)))
      (append_assoc seen (shown (seq_of_event (decode d))) _)
      (project_events-Shows decode view_size (with_event decode view_size p (decode d))
        (seen ++ shown (seq_of_event (decode d))) items pos
        (with_event_lem decode view_size p seen (decode d) pos s))

project_documents-Shows :
    {Document : Type 0} (seq_of : Document → Option ℕ) (view_size : ℕ) (p : View × ℕ)
    (seen : List ℕ) (items : List (Reply Document))
    → 0 < view_size
    → Shows view_size p seen
    → Shows view_size (project_documents seq_of view_size p items) (seen ++ readable seq_of items)
unfolding project_documents readable
project_documents-Shows seq_of view_size p seen [] pos s = rw (append-nil seen) s
project_documents-Shows seq_of view_size p seen (refused e ∷ items) pos s =
    project_documents-Shows seq_of view_size p seen items pos s
project_documents-Shows seq_of view_size p seen (done d ∷ items) pos s =
    subst (Shows view_size (project_documents seq_of view_size p (done d ∷ items)))
      (append_assoc seen (shown (seq_of d)) _)
      (project_documents-Shows seq_of view_size (with_seq seq_of view_size p (seq_of d))
        (seen ++ shown (seq_of d)) items pos
        (with_seq_lem seq_of view_size p seen (seq_of d) pos s))

project_changes-Shows :
    {Document : Type 0} (seq_of : Document → Option ℕ) (view_size : ℕ) (p : View × ℕ)
    (seen : List ℕ) (items : List (Reply (Option Document)))
    → 0 < view_size
    → Shows view_size p seen
    → Shows view_size
        (project_changes seq_of view_size p items)
        (seen ++ delivered (seq_of_change seq_of) items)
unfolding project_changes delivered
project_changes-Shows seq_of view_size p seen [] pos s = rw (append-nil seen) s
project_changes-Shows seq_of view_size p seen (refused e ∷ items) pos s = rw (append-nil seen) s
project_changes-Shows seq_of view_size p seen (done d ∷ items) pos s =
    subst (Shows view_size (project_changes seq_of view_size p (done d ∷ items)))
      (append_assoc seen (shown (seq_of_change seq_of d)) _)
      (project_changes-Shows seq_of view_size (with_document seq_of view_size p d)
        (seen ++ shown (seq_of_change seq_of d)) items pos
        (with_document_lem seq_of view_size p seen d pos s))

-- A view of at least one place on MongoDB shows the numbers of the documents that the cursor could read, in its order,
-- and then those of the changes up to the first error; they are counted modulo 2 ^ 64.
pub project-Shows :
    {Document : Type 0} (seq_of : Document → Option ℕ) (view_size : ℕ)
    (replayed : List (Reply Document)) (watched : List (Reply (Option Document)))
    → 0 < view_size
    → Shows view_size
        (project seq_of view_size ([], 0) replayed watched)
        (readable seq_of replayed ++ delivered (seq_of_change seq_of) watched)
unfolding project
project-Shows seq_of view_size replayed watched pos =
    project_changes-Shows seq_of view_size _ _ watched pos (
      project_documents-Shows seq_of view_size ([], 0) [] replayed pos
        (sym (drop_all (0 - view_size) [] (omega arith)), omega arith))
