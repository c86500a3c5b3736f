-- ===== src/Postgres/Appends.antt =====
-- What the appends of rust-app/src/postgres/event_store.rs leave in the tables.
use event_sourcing_testbed.Common.{
  ℕ, ◌<◌, ◌≡◌, refl, ap, subst, ◌∙◌, inl, String, [], ◌∷◌, ◌++◌, Option, All,
}
use mathlib.Core.Option.{get_or}
use event_sourcing_testbed.Kurrent.Driver.{Reply, done, refused}
use event_sourcing_testbed.Postgres.Driver.{
  Postgres, Laws, Tables, InsertReply, returned, unique_violation, insert_failed, advanced,
}
use event_sourcing_testbed.Store.Atomic
use event_sourcing_testbed.Store.Atomic.{
  bind_ok, bind_base, or_io_ok, option_io_ok, unless_refused_ok, committed-IsAtomic,
}
use event_sourcing_testbed.Store.{
  EventEnvelope, Fallible, success, failure, io, committed, outbox_entry,
}
use event_sourcing_testbed.Postgres.{
  insertion, append_in_tx, in_transaction, append, append_both, append_with_outbox,
}

module _ {Json : Type 0} where
  -- the tables after the append of an event
  abbrev pub grown : Tables Json → EventEnvelope Json → Tables Json
  grown c e = record c { version = advanced c.version e.stream_id; events = c.events ++ e ∷ [] }

  -- the tables after the append of an event and of its outbox entry
  abbrev pub grown_both : Tables Json → EventEnvelope Json → Tables Json
  grown_both c e = record (grown c e) { outbox = c.outbox ++ outbox_entry e ∷ [] }

  -- what an append that is successful has done: the event is added; it carries the version that its
  -- stream had, and a position behind those before
  abbrev pub Added :
      (Tables Json → EventEnvelope Json → Tables Json)
      → String
      → Tables Json
      → EventEnvelope Json
      → Tables Json
      → Type 0
  Added grow stream_id c e c' =
      (c' ≡ grow c e)
      × (e.stream_version ≡ get_or (c.version stream_id) 0)
      × All (λ (f : EventEnvelope Json). f.global_position < e.global_position) c.events
      × (e.stream_id ≡ stream_id)

-- The tables after an append that answers `r`: grown by the event that it returns, or, on an error, as
-- they were, or grown by one event all the same, by a commit whose answer was lost.
abbrev pub IsWhole :
    {Json : Type 0}
    → (Tables Json → EventEnvelope Json → Tables Json)
    → String
    → Tables Json
    → Tables Json
    → Fallible (EventEnvelope Json)
    → Type 0
IsWhole grow stream_id c c' r = Atomic.IsAtomic (Added grow stream_id c) c c' r

module _ (pg : Postgres) (laws : Laws pg) {T : Type 0} (to_value : T → Option pg.Json) where
  abbrev C : Type 0
  C = Tables pg.Json

  abbrev E : Type 0
  E = EventEnvelope pg.Json

  insertion_ok :
      (tx : pg.Tx) (r : InsertReply) (row : ℕ → E) (e : E)
      → (insertion pg to_value row (tx, r)).1 ≡ success e
      → (at : ℕ) × (r ≡ returned at) × (row at ≡ e)
  insertion_ok tx (returned at) row e h = (at, refl, cc h)
  insertion_ok tx unique_violation row e h = absurd (cc h)
  insertion_ok tx (insert_failed m) row e h = absurd (cc h)

  insertion_state :
      (tx : pg.Tx) (r : InsertReply) (row : ℕ → E) → (insertion pg to_value row (tx, r)).0 ≡ tx
  insertion_state tx (returned at) row = refl
  insertion_state tx unique_violation row = refl
  insertion_state tx (insert_failed m) row = refl

  -- what a transaction's body has to do
  abbrev Does : (C → E → C) → String → pg.Tx → pg.Tx × Fallible E → Type 0
  Does grow stream_id tx result =
      (pg.base result.0 ≡ pg.base tx)
      × ((e : E) → result.1 ≡ success e → Added grow stream_id (pg.seen tx) e (pg.seen result.0))

  module _ (event_id now stream_id event_type : String) (schema_version : ℕ) (payload : T) where
    tx_base :
        (tx : pg.Tx)
        → pg.base
            (append_in_tx pg to_value event_id now stream_id event_type schema_version payload tx).0
          ≡ pg.base tx
    unfolding append_in_tx
    tx_base tx = bind_base pg.base _ tx _ _ (laws.advance_base tx stream_id) (λ a.
        bind_base pg.base _ _ _ _ refl
          (λ b. ap pg.base (insertion_state _ _ _) ∙ laws.insert_event_base _ _))

    tx_ok :
        (tx : pg.Tx) (e : E)
        → (append_in_tx pg to_value event_id now stream_id event_type schema_version payload tx).1
          ≡ success e
        → Added grown stream_id (pg.seen tx) e (
            pg.seen
              (append_in_tx pg to_value event_id now stream_id event_type schema_version payload
                tx).0)
    unfolding append_in_tx
    tx_ok tx e h =
        let (version, h1, k1, s1) = bind_ok _ _ _ _ h in
        let (payload_json, h2, k2, s2) = bind_ok _ _ _ _ k1 in
        let (at, put', same) = insertion_ok _ _ _ e k2 in
        let tx1 = (pg.advance_version tx stream_id).0 in
        let (first, before) = laws.advance_done tx stream_id version (or_io_ok _ _ _ h1) in
        let row : ℕ → E = λ global_position. record {
          event_id = event_id;
          stream_id = stream_id;
          stream_version = version;
          global_position = global_position;
          event_type = event_type;
          schema_version = schema_version;
          payload = payload_json;
          occurred_at = now;
        } in
        let (second, above) = laws.insert_event_done tx1 row at put' in
        let last = s1 ∙ s2 ∙ insertion_state _ _ row in
        subst
          (λ (e : E). Added grown stream_id (pg.seen tx) e (
            pg.seen
              (append_in_tx pg to_value event_id now stream_id event_type schema_version payload
                tx).0))
          same
          (
            ap pg.seen last
                ∙ second
                ∙ ap (λ (c : C). record c { events = c.events ++ row at ∷ [] }) first,
            before,
            subst (λ (c : C). All (λ (f : E). f.global_position < at) c.events) first above,
            refl,
          )

    both-Does :
        (tx : pg.Tx)
        → Does grown_both stream_id tx
            (append_both pg to_value event_id now stream_id event_type schema_version payload tx)
    unfolding append_both
    both-Does tx = (
      bind_base pg.base _ tx _ _ (tx_base tx) (λ e. laws.insert_outbox_base _ _),
      λ e h.
          let (env, h1, k1, s1) = bind_ok _ _ _ _ h in
          let tx1 =
            (append_in_tx pg to_value event_id now stream_id event_type schema_version payload
              tx).0 in
          let (seen, version, above, at) = tx_ok tx env h1 in
          let (stored, same) =
            unless_refused_ok "failed to write integration-event outbox entry"
              (pg.insert_outbox tx1 _).1 env e k1 in
          subst
            (λ (e : E). Added grown_both stream_id (pg.seen tx) e (
              pg.seen
                (append_both pg to_value event_id now stream_id event_type schema_version payload
                  tx).0))
            same
            (
              ap pg.seen s1
                  ∙ laws.insert_outbox_done tx1 (outbox_entry env) stored
                  ∙ ap (λ (c : C). record c { outbox = c.outbox ++ outbox_entry env ∷ [] }) seen,
              version,
              above,
              at,
            ),
    )

  in_transaction_lem :
      (grow : C → E → C) (stream_id message : String) (db : pg.Db)
      (body : pg.Tx → pg.Tx × Fallible E)
      → ((tx : pg.Tx) → Does grow stream_id tx (body tx))
      → let after = in_transaction pg to_value message db body in
        Atomic.IsAtomic
          (Added grow stream_id (pg.contents db))
          (pg.contents db)
          (pg.contents after.0)
          after.1
  in_transaction_lem grow stream_id message db body does = opened (pg.begin db) refl
    where
      opened :
          (r : Reply pg.Tx)
          → pg.begin db ≡ r
          → let after : pg.Db × Fallible E = elim r [
            | refused e ↦ (db, failure (io ("failed to begin transaction" ∷ e ∷ [])))
            | done tx ↦ committed pg.abort pg.commit message (body tx)
          ] in
            Atomic.IsAtomic
              (Added grow stream_id (pg.contents db))
              (pg.contents db)
              (pg.contents after.0)
              after.1
      opened (refused e) p = inl refl
      opened (done tx) p =
          let (b, v) = laws.begun db tx p in
          let (kept, added) = does tx in
          committed-IsAtomic pg.abort pg.commit pg.contents pg.base pg.seen laws.transactional
            message (Added grow stream_id (pg.contents db)) (pg.contents db) (body tx) (kept ∙ b)
            (λ e h. rw v at added e h)

  -- An `append` is atomic: the tables are as they were, or they have one event more, which carries
  -- the version of its stream, then advanced, and a position above all others; with no error it is
  -- the event that the call returns.
  pub append-IsWhole :
      (event_id now stream_id event_type : String) (schema_version : ℕ) (payload : T) (db : pg.Db)
      → let after =
          append pg to_value event_id now stream_id event_type schema_version payload db in
        Atomic.IsAtomic
          (Added grown stream_id (pg.contents db))
          (pg.contents db)
          (pg.contents after.0)
          after.1
  unfolding append
  append-IsWhole event_id now stream_id event_type schema_version payload db =
      in_transaction_lem grown stream_id _ db _ (λ tx. (
        tx_base event_id now stream_id event_type schema_version payload tx,
        tx_ok event_id now stream_id event_type schema_version payload tx,
      ))

  -- An `append_with_outbox` is atomic too, with the event's outbox entry beside the event: never one
  -- without the other.
  pub append_with_outbox-IsWhole :
      (event_id now stream_id event_type : String) (schema_version : ℕ) (payload : T) (db : pg.Db)
      → let after =
          append_with_outbox pg to_value event_id now stream_id event_type schema_version payload
            db in
        Atomic.IsAtomic
          (Added grown_both stream_id (pg.contents db))
          (pg.contents db)
          (pg.contents after.0)
          after.1
  unfolding append_with_outbox
  append_with_outbox-IsWhole event_id now stream_id event_type schema_version payload db =
      in_transaction_lem grown_both stream_id _ db _
        (both-Does event_id now stream_id event_type schema_version payload)
