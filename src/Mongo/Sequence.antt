-- ===== src/Mongo/Sequence.antt =====
-- The positions and versions that rust-app/src/mongodb/event_store.rs assigns have no gaps.
use event_sourcing_testbed.Common.{
  ℕ, suc, ◌+◌, ◌≡◌, sym, subst, inl, inr, String, List, [], ◌∷◌, ◌++◌, Option, arith, length,
  length-append, Bool-cases, str_eq, eq_iff, refl,
}
use mathlib.Core.Option.{get_or}
use event_sourcing_testbed.Mongo.Driver.{Mongo, Laws, Contents, EventEnvelope}
use event_sourcing_testbed.Store.Atomic.{IsAtomic_keeps}
use event_sourcing_testbed.Store.Versions.{IsVersioned, IsVersioned-snoc}
use event_sourcing_testbed.Mongo.{append}
use event_sourcing_testbed.Mongo.Appends.{grown, Assigned, Added, append-IsAtomic}

module _ {Document : Type 0} where
  -- the events have the positions from `n` on
  abbrev pub Positioned : ℕ → List (EventEnvelope Document) → Type 0
  Positioned n [] = Unit
  Positioned n (e ∷ es) = (e.global_position ≡ n) × Positioned (suc n) es

  -- The events have the positions 0, 1, 2 and so on, and those of each stream the versions 0, 1, 2 and
  -- so on; the counters show the next ones.
  pub record IsNumbered (c : Contents Document) : Type 0 where
    pub next : get_or (c.counter "_global_seq" "counter") 0 ≡ length c.events
    pub positioned : Positioned 0 c.events
    pub versioned : IsVersioned (λ s. get_or (c.counter "_stream_versions" s) 0) c.events

  Positioned-snoc :
      (n : ℕ) (es : List (EventEnvelope Document)) (e : EventEnvelope Document)
      → Positioned n es
      → e.global_position ≡ n + length es
      → Positioned n (es ++ e ∷ [])
  Positioned-snoc n [] e h at = (omega (arith, at), tt)
  Positioned-snoc n (x ∷ es) e h at = (h.0, Positioned-snoc (suc n) es e h.1 (omega (arith, at)))

module _ (mongo : Mongo) (laws : Laws mongo) {T : Type 0}
    (to_document : T → Option mongo.Document) where
  grown-IsNumbered :
      (c : Contents mongo.Document) (e : EventEnvelope mongo.Document)
      → IsNumbered c
      → Assigned mongo laws to_document c e
      → IsNumbered (grown mongo laws to_document c e)
  grown-IsNumbered c e numbered (version, at) = record {
    next = omega (arith, numbered.next, length-append c.events (e ∷ []));
    positioned =
        Positioned-snoc 0 c.events e numbered.positioned (omega (arith, at, numbered.next));
    versioned =
        IsVersioned-snoc (λ s. get_or (c.counter "_stream_versions" s) 0)
          (λ s. get_or ((grown mongo laws to_document c e).counter "_stream_versions" s) 0) c.events
          e numbered.versioned version
          (λ s. elim (Bool-cases (str_eq s e.stream_id)) [
            | inl same ↦ rw (same, (eq_iff s e.stream_id).0 same) refl
            | inr differ ↦ rw differ refl
          ]);
  }

  -- An `append`, whatever it answers, keeps the global positions, and the versions of every stream,
  -- those from 0 on without a gap, and the counters at the next ones.
  pub append-IsNumbered :
      (event_id now stream_id event_type : String) (schema_version : ℕ) (payload : T)
      (db : mongo.Db)
      → IsNumbered (mongo.contents db)
      → IsNumbered (
          mongo.contents
            (append mongo to_document event_id now stream_id event_type schema_version payload
              db).0)
  append-IsNumbered event_id now stream_id event_type schema_version payload db numbered =
      IsAtomic_keeps
        (Added mongo laws to_document (grown mongo laws to_document) stream_id (mongo.contents db))
        IsNumbered (mongo.contents db) _ _ numbered
        (λ e d (same, assigned, _).
          subst IsNumbered (sym same) (grown-IsNumbered (mongo.contents db) e numbered assigned))
        (append-IsAtomic mongo laws to_document event_id now stream_id event_type schema_version
          payload db)
