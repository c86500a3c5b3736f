-- ===== src/Postgres/Sequence.antt =====
-- The order that the appends of rust-app/src/postgres/event_store.rs keep in the tables.
use event_sourcing_testbed.Common.{
  ℕ, ◌+◌, ◌≡◌, refl, sym, ap, subst, ◌∙◌, inl, inr, String, str_eq, Option, map, Bool-cases,
  if◌then◌else◌,
}
use mathlib.Core.Option.{get_or}
use mathlib.Core.List.{map-append}
use event_sourcing_testbed.Postgres.Driver.{Postgres, Laws, Tables, advanced}
use event_sourcing_testbed.Store.{EventEnvelope, OutboxEntry}
use event_sourcing_testbed.Store.Atomic.{IsAtomic_keeps}
use event_sourcing_testbed.Store.Versions.{
  IsVersioned, IsVersioned-snoc, IsAscending, IsAscending-snoc,
}
use event_sourcing_testbed.Postgres.{append, append_with_outbox}
use event_sourcing_testbed.Postgres.Appends.{
  grown, grown_both, Added, append-IsWhole, append_with_outbox-IsWhole,
}

advanced_lem :
    (version : String → Option ℕ) (stream_id s : String)
    → get_or (advanced version stream_id s) 0
      ≡ (if str_eq s stream_id then get_or (version stream_id) 0 + 1 else get_or (version s) 0)
advanced_lem version stream_id s = elim (Bool-cases (str_eq s stream_id)) [
  | inl same ↦ rw same refl
  | inr differ ↦ rw differ refl
]

module _ {Json : Type 0} where
  -- The versions of each stream count up from 0 and agree with `stream_versions`; the positions go up
  -- in the order of the events.
  pub record IsOrdered (c : Tables Json) : Type 0 where
    pub versioned : IsVersioned (λ s. get_or (c.version s) 0) c.events
    pub ascending : IsAscending c.events

  -- Each event has its entry in the outbox, in the same order.
  abbrev pub IsMirrored : Tables Json → Type 0
  IsMirrored c =
      map (λ (o : OutboxEntry Json). o.id) c.outbox
      ≡ map (λ (e : EventEnvelope Json). e.event_id) c.events

  grown-IsOrdered :
      (grow : Tables Json → EventEnvelope Json → Tables Json)
      → ((c : Tables Json) (e : EventEnvelope Json)
          → ((grow c e).version ≡ (grown c e).version) × ((grow c e).events ≡ (grown c e).events))
      → (stream_id : String) (c c' : Tables Json) (e : EventEnvelope Json) → IsOrdered c
      → Added grow stream_id c e c'
      → IsOrdered c'
  grown-IsOrdered grow grows stream_id c c' e ordered (same, version, above, at) =
      let next : e.stream_version ≡ get_or (c.version e.stream_id) 0 =
        version ∙ ap (λ s. get_or (c.version s) 0) (sym at) in
      let after : IsOrdered (grown c e) = record {
        versioned =
            IsVersioned-snoc (λ s. get_or (c.version s) 0)
              (λ s. get_or (advanced c.version e.stream_id s) 0) c.events e ordered.versioned next
              (advanced_lem c.version e.stream_id);
        ascending = IsAscending-snoc c.events e ordered.ascending above;
      } in
      let (versions, events) = grows c e in
      subst IsOrdered (sym same) (record {
        versioned = rw (versions, events) after.versioned;
        ascending = rw events after.ascending;
      })

module _ (pg : Postgres) (laws : Laws pg) {T : Type 0} (to_value : T → Option pg.Json)
    (event_id now stream_id event_type : String) (schema_version : ℕ) (payload : T)
    (db : pg.Db) where
  -- An `append`, whatever it answers, keeps the versions of every stream those from 0 on without a
  -- gap, in step with `stream_versions`, and the positions in ascending order.
  pub append-IsOrdered :
      IsOrdered (pg.contents db)
      → IsOrdered (
          pg.contents
            (append pg to_value event_id now stream_id event_type schema_version payload db).0)
  append-IsOrdered ordered =
      IsAtomic_keeps (Added grown stream_id (pg.contents db)) IsOrdered (pg.contents db) _ _ ordered
        (λ e d added.
          grown-IsOrdered grown (λ c e. (refl, refl)) stream_id (pg.contents db) d e ordered added)
        (append-IsWhole pg laws to_value event_id now stream_id event_type schema_version payload
          db)

  -- An `append_with_outbox`, whatever it answers, keeps versions and positions in order, and an
  -- outbox that mirrors the events goes on to mirror them.
  pub append_with_outbox-IsOrdered :
      IsOrdered (pg.contents db)
      → IsMirrored (pg.contents db)
      → let db' =
          (append_with_outbox pg to_value event_id now stream_id event_type schema_version payload
            db).0 in
        IsOrdered (pg.contents db') × IsMirrored (pg.contents db')
  append_with_outbox-IsOrdered ordered mirrored =
      IsAtomic_keeps (Added grown_both stream_id (pg.contents db)) (λ c. IsOrdered c × IsMirrored c)
        (pg.contents db) _ _ (ordered, mirrored)
        (λ e d added. (
          grown-IsOrdered grown_both (λ c e. (refl, refl)) stream_id (pg.contents db) d e ordered
              added,
          subst IsMirrored (sym added.0) (mirrored_more (pg.contents db) e mirrored),
        ))
        (append_with_outbox-IsWhole pg laws to_value event_id now stream_id event_type
          schema_version payload db)
    where
      mirrored_more :
          (c : Tables pg.Json) (e : EventEnvelope pg.Json)
          → IsMirrored c
          → IsMirrored (grown_both c e)
      mirrored_more c e h = rw (map-append _ c.outbox _, map-append _ c.events _, h) refl
