-- ===== src/Store/Versions.antt =====
-- The versions and the positions of the events that rust-app/src/mongodb/event_store.rs and
-- rust-app/src/postgres/event_store.rs store, and how one event more keeps them in order.
use event_sourcing_testbed.Common.{
  ℕ, zero, suc, ◌+◌, ◌<◌, ◌≡◌, refl, ap, ◌∙◌, inl, inr, String, str_eq, eq_iff, List, [], ◌∷◌, ◌++◌,
  if◌then◌else◌, Bool-cases, All, arith,
}
use event_sourcing_testbed.Store.{EventEnvelope}

-- 0, 1, 2 and so on, `n` of them
abbrev pub count_up : ℕ → List ℕ
count_up zero = []
count_up (suc n) = count_up n ++ n ∷ []

module _ {Document : Type 0} where
  -- the versions of a stream's events, in the order in which they were stored
  abbrev pub versions_of : String → List (EventEnvelope Document) → List ℕ
  versions_of s [] = []
  versions_of s (e ∷ es) =
      let rest = versions_of s es in if str_eq s e.stream_id then e.stream_version ∷ rest else rest

  -- Each stream has the versions from 0 on, without a gap, and its counter shows the next one.
  pub record IsVersioned (counter : String → ℕ) (events : List (EventEnvelope Document))
      : Type 0 where
    pub versions : (s : String) → versions_of s events ≡ count_up (counter s)

  versions_of-snoc :
      (s : String) (es : List (EventEnvelope Document)) (e : EventEnvelope Document)
      → versions_of s (es ++ e ∷ []) ≡ (
          if str_eq s e.stream_id
          then versions_of s es ++ e.stream_version ∷ []
          else versions_of s es)
  versions_of-snoc s [] e = refl
  versions_of-snoc s (x ∷ es) e = elim (Bool-cases (str_eq s x.stream_id)) [
    | inl own ↦ elim (Bool-cases (str_eq s e.stream_id)) [
      | inl same ↦ rw (own, versions_of-snoc s es e, same) refl
      | inr differ ↦ rw (own, versions_of-snoc s es e, differ) refl
    ]
    | inr other ↦ rw (other, versions_of-snoc s es e) refl
  ]

  -- an event with the next version of its stream
  pub IsVersioned-snoc :
      (counter counter' : String → ℕ) (es : List (EventEnvelope Document))
      (e : EventEnvelope Document)
      → IsVersioned counter es
      → e.stream_version ≡ counter e.stream_id
      → ((s : String)
          → counter' s ≡ (if str_eq s e.stream_id then counter e.stream_id + 1 else counter s))
      → IsVersioned counter' (es ++ e ∷ [])
  IsVersioned-snoc counter counter' es e versioned next up = record {
    versions = λ s. elim (Bool-cases (str_eq s e.stream_id)) [
      | inl same ↦
          let own : s ≡ e.stream_id = (eq_iff s e.stream_id).0 same in
          let here : counter' s
              ≡ (if str_eq s e.stream_id then counter e.stream_id + 1 else counter s) =
            up s in
          let one_more : counter' s ≡ suc (counter s) =
            rw same at here ∙ omega (arith, ap counter own) in
          rw (one_more, versions_of-snoc s es e, same, versioned.versions s, next, own) refl
      | inr differ ↦ rw (up s, versions_of-snoc s es e, differ) (versioned.versions s)
    ];
  }

  -- Each position is above those before it.
  abbrev pub IsAscending : List (EventEnvelope Document) → Type 0
  IsAscending [] = Unit
  IsAscending (e ∷ es) =
      All (λ (f : EventEnvelope Document). e.global_position < f.global_position) es
      × IsAscending es

  All-snoc :
      (P : EventEnvelope Document → Type 0) (es : List (EventEnvelope Document))
      (e : EventEnvelope Document)
      → All P es
      → P e
      → All P (es ++ e ∷ [])
  All-snoc P [] e h p = (p, tt)
  All-snoc P (x ∷ es) e h p = (h.0, All-snoc P es e h.1 p)

  pub IsAscending-snoc :
      (es : List (EventEnvelope Document)) (e : EventEnvelope Document)
      → IsAscending es
      → All (λ (f : EventEnvelope Document). f.global_position < e.global_position) es
      → IsAscending (es ++ e ∷ [])
  IsAscending-snoc [] e h below = (tt, tt)
  IsAscending-snoc (x ∷ es) e h below = (
    All-snoc (λ (f : EventEnvelope Document). x.global_position < f.global_position) es e h.0
        below.0,
    IsAscending-snoc es e h.1 below.1,
  )
