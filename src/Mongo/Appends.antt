-- ===== src/Mongo/Appends.antt =====
-- What the appends of rust-app/src/mongodb/event_store.rs leave in the database.
use event_sourcing_testbed.Common.{
  ℕ, ◌≡◌, refl, ap, subst, ◌∙◌, inl, String, [], ◌∷◌, ◌++◌, Option, none, some,
}
use mathlib.Core.Option.{get_or}
use event_sourcing_testbed.Kurrent.Driver.{Reply, done, refused}
use event_sourcing_testbed.Mongo.Driver.{
  Mongo, Laws, Contents, EventEnvelope, InsertReply, inserted, duplicate_key, insert_failed,
  increase,
}
use event_sourcing_testbed.Store.Atomic
use event_sourcing_testbed.Store.Atomic.{
  bind_ok, bind_base, or_io_ok, option_io_ok, unless_refused_ok, committed-IsAtomic,
}
use event_sourcing_testbed.Store.{Fallible, success, failure, io, committed, outbox_entry}
use event_sourcing_testbed.Mongo.{
  counted, insertion, append_in_session, in_transaction, append, append_both, append_with_outbox,
}

module _ (mongo : Mongo) (laws : Laws mongo) {T : Type 0}
    (to_document : T → Option mongo.Document) where
  abbrev C : Type 0
  C = Contents mongo.Document

  abbrev E : Type 0
  E = EventEnvelope mongo.Document

  -- the collections after the append of an event
  abbrev pub grown : C → E → C
  grown c e = record c {
    counter = increase (increase c.counter "_stream_versions" e.stream_id) "_global_seq" "counter";
    events = c.events ++ e ∷ [];
  }

  -- the event carries the values that the counters had
  abbrev pub Assigned : C → E → Type 0
  Assigned c e =
      (e.stream_version ≡ get_or (c.counter "_stream_versions" e.stream_id) 0)
      × (e.global_position
          ≡ get_or (increase c.counter "_stream_versions" e.stream_id "_global_seq" "counter") 0)

  insertion_ok :
      (t : mongo.Session) (r : InsertReply) (e e' : E)
      → (insertion mongo to_document e (t, r)).1 ≡ success e'
      → (r ≡ inserted) × (e ≡ e')
  insertion_ok t inserted e e' h = (refl, cc h)
  insertion_ok t duplicate_key e e' h = absurd (cc h)
  insertion_ok t (insert_failed m) e e' h = absurd (cc h)

  insertion_state :
      (t : mongo.Session) (r : InsertReply) (e : E) → (insertion mongo to_document e (t, r)).0 ≡ t
  insertion_state t inserted e = refl
  insertion_state t duplicate_key e = refl
  insertion_state t (insert_failed m) e = refl

  counted_lem :
      (o : Option mongo.Document) (field : String) (v : Option ℕ)
      → elim o [ none ↦ none | some d ↦ mongo.get_i64 d field ] ≡ v
      → counted mongo to_document o field ≡ get_or v 0
  counted_lem none field v h = ap (λ o. get_or o 0) h
  counted_lem (some d) field v h = ap (λ o. get_or o 0) h

  module _ (event_id now stream_id event_type : String) (schema_version : ℕ) (payload : T) where
    session_base :
        (t : mongo.Session)
        → mongo.base
            (append_in_session mongo to_document event_id now stream_id event_type schema_version
              payload t).0
          ≡ mongo.base t
    unfolding append_in_session
    session_base t =
        bind_base mongo.base _ t _ _ (laws.increment_base t "_stream_versions" stream_id "version")
          (λ a.
            bind_base mongo.base _ _ _ _ (laws.increment_base _ "_global_seq" "counter" "seq") (λ b.
              bind_base mongo.base _ _ _ _ refl (λ c.
                bind_base mongo.base _ _ _ _ refl
                  (λ d. ap mongo.base (insertion_state _ _ _) ∙ laws.insert_event_base _ d))))

    session_ok :
        (t : mongo.Session) (e : E)
        → (append_in_session mongo to_document event_id now stream_id event_type schema_version
            payload t).1
          ≡ success e
        → (mongo.seen
              (append_in_session mongo to_document event_id now stream_id event_type schema_version
                payload t).0
            ≡ grown (mongo.seen t) e)
          × Assigned (mongo.seen t) e
          × (e.stream_id ≡ stream_id)
    unfolding append_in_session
    session_ok t e h =
        let (ver_doc, h1, k1, s1) = bind_ok _ _ _ _ h in
        let (gseq_doc, h2, k2, s2) = bind_ok _ _ _ _ k1 in
        let (payload_doc, h3, k3, s3) = bind_ok _ _ _ _ k2 in
        let (doc, h4, k4, s4) = bind_ok _ _ _ _ k3 in
        let (put', same) = insertion_ok _ _ _ e k4 in
        let t1 = (mongo.increment t "_stream_versions" stream_id "version").0 in
        let t2 = (mongo.increment t1 "_global_seq" "counter" "seq").0 in
        let first =
          laws.increment_done t "_stream_versions" stream_id "version" ver_doc
            (or_io_ok _ _ _ h1) in
        let second =
          laws.increment_done t1 "_global_seq" "counter" "seq" gseq_doc (or_io_ok _ _ _ h2) in
        let env : E = record {
          event_id = event_id;
          stream_id = stream_id;
          stream_version = counted mongo to_document ver_doc "version";
          global_position = counted mongo to_document gseq_doc "seq";
          event_type = event_type;
          schema_version = schema_version;
          payload = payload_doc;
          occurred_at = now;
        } in
        let third = laws.insert_event_done t2 env doc (option_io_ok _ _ _ h4) put' in
        let last = s1 ∙ s2 ∙ s3 ∙ s4 ∙ insertion_state _ _ env in
        subst
          (λ (e : E).
            (mongo.seen
                (append_in_session mongo to_document event_id now stream_id event_type
                  schema_version payload t).0
              ≡ grown (mongo.seen t) e)
            × Assigned (mongo.seen t) e
            × (e.stream_id ≡ stream_id))
          same
          (
            ap mongo.seen last
                ∙ third
                ∙ ap (λ (c : C). record c { events = c.events ++ env ∷ [] })
                    (second.0
                      ∙ ap
                          (λ (c : C). record c {
                            counter = increase c.counter "_global_seq" "counter";
                          })
                          first.0),
            (
              counted_lem ver_doc "version" _ first.1,
              counted_lem gseq_doc "seq" _ second.1
                  ∙ ap (λ (c : C). get_or (c.counter "_global_seq" "counter") 0) first.0,
            ),
            refl,
          )

  -- what an append that is successful has done: the event is added, and carries what the counters
  -- had
  abbrev pub Added : (C → E → C) → String → C → E → C → Type 0
  Added grow stream_id c e c' = (c' ≡ grow c e) × Assigned c e × (e.stream_id ≡ stream_id)

  -- The database after an append that answers `r`: grown by the event that it returns, or, on an
  -- error, as it was, or grown by one event all the same, by a commit whose answer was lost.
  abbrev pub IsAtomic : (C → E → C) → String → C → C → Fallible E → Type 0
  IsAtomic grow stream_id c c' r = Atomic.IsAtomic (Added grow stream_id c) c c' r

  -- what a transaction's body has to do
  abbrev Does : (C → E → C) → String → mongo.Session → mongo.Session × Fallible E → Type 0
  Does grow stream_id t result =
      (mongo.base result.0 ≡ mongo.base t)
      × ((e : E)
          → result.1 ≡ success e
          → Added grow stream_id (mongo.seen t) e (mongo.seen result.0))

  in_transaction_lem :
      (grow : C → E → C) (stream_id : String) (db : mongo.Db)
      (body : mongo.Session → mongo.Session × Fallible E)
      → ((t : mongo.Session) → Does grow stream_id t (body t))
      → let after = in_transaction mongo to_document db body in
        IsAtomic grow stream_id (mongo.contents db) (mongo.contents after.0) after.1
  in_transaction_lem grow stream_id db body does = opened (mongo.start_session db) refl
    where
      started :
          (t : mongo.Session) (r : Reply mongo.Session)
          → mongo.start_session db ≡ done t
          → mongo.start_transaction t ≡ r
          → let after : mongo.Db × Fallible E = elim r [
            | refused e ↦ (db, failure (io ("failed to start transaction" ∷ e ∷ [])))
            | done u ↦
                committed mongo.abort mongo.commit_transaction "failed to commit transaction"
                  (body u)
          ] in
            IsAtomic grow stream_id (mongo.contents db) (mongo.contents after.0) after.1
      started t (refused e) p q = inl refl
      started t (done u) p q =
          let (b, v) = laws.session db t u p q in
          let (kept, added) = does u in
          committed-IsAtomic mongo.abort mongo.commit_transaction mongo.contents mongo.base
            mongo.seen laws.transactional "failed to commit transaction"
            (Added grow stream_id (mongo.contents db)) (mongo.contents db) (body u) (kept ∙ b)
            (λ e h. rw v at added e h)

      opened :
          (r : Reply mongo.Session)
          → mongo.start_session db ≡ r
          → let after : mongo.Db × Fallible E = elim r [
            | refused e ↦ (db, failure (io ("failed to start session" ∷ e ∷ [])))
            | done t ↦ elim (mongo.start_transaction t) [
              | refused e ↦ (db, failure (io ("failed to start transaction" ∷ e ∷ [])))
              | done u ↦
                  committed mongo.abort mongo.commit_transaction "failed to commit transaction"
                    (body u)
            ]
          ] in
            IsAtomic grow stream_id (mongo.contents db) (mongo.contents after.0) after.1
      opened (refused e) p = inl refl
      opened (done t) p = started t (mongo.start_transaction t) p refl

  -- An `append` is atomic: the collections are as they were, or they have the one event, with the
  -- next version of its stream and the next global position, and both counters are advanced; with
  -- no error it is the event that the call returns.
  pub append-IsAtomic :
      (event_id now stream_id event_type : String) (schema_version : ℕ) (payload : T)
      (db : mongo.Db)
      → let after =
          append mongo to_document event_id now stream_id event_type schema_version payload db in
        IsAtomic grown stream_id (mongo.contents db) (mongo.contents after.0) after.1
  unfolding append
  append-IsAtomic event_id now stream_id event_type schema_version payload db =
      in_transaction_lem grown stream_id db _ (λ t. (
        session_base event_id now stream_id event_type schema_version payload t,
        session_ok event_id now stream_id event_type schema_version payload t,
      ))

  -- the collections after the append of an event and of its outbox entry
  abbrev pub grown_both : C → E → C
  grown_both c e = record (grown c e) { outbox = c.outbox ++ outbox_entry e ∷ [] }

  both-Does :
      (event_id now stream_id event_type : String) (schema_version : ℕ) (payload : T)
      (t : mongo.Session)
      → Does grown_both stream_id t
          (append_both mongo to_document event_id now stream_id event_type schema_version payload t)
  unfolding append_both
  both-Does event_id now stream_id event_type schema_version payload t = (
    bind_base mongo.base _ t _ _
        (session_base event_id now stream_id event_type schema_version payload t)
        (λ e. laws.insert_outbox_base _ _),
    λ e h.
        let (env, h1, k1, s1) = bind_ok _ _ _ _ h in
        let t1 =
          (append_in_session mongo to_document event_id now stream_id event_type schema_version
            payload t).0 in
        let (seen, assigned, at) =
          session_ok event_id now stream_id event_type schema_version payload t env h1 in
        let (stored, same) =
          unless_refused_ok "failed to write integration-event outbox entry"
            (mongo.insert_outbox t1 _).1 env e k1 in
        subst
          (λ (e : E).
            (mongo.seen
                (append_both mongo to_document event_id now stream_id event_type schema_version
                  payload t).0
              ≡ grown_both (mongo.seen t) e)
            × Assigned (mongo.seen t) e
            × (e.stream_id ≡ stream_id))
          same
          (
            ap mongo.seen s1
                ∙ laws.insert_outbox_done t1 (outbox_entry env) stored
                ∙ ap (λ (c : C). record c { outbox = c.outbox ++ outbox_entry env ∷ [] }) seen,
            assigned,
            at,
          ),
  )

  -- An `append_with_outbox` is atomic too, with the event's outbox entry beside the event: never one
  -- without the other.
  pub append_with_outbox-IsAtomic :
      (event_id now stream_id event_type : String) (schema_version : ℕ) (payload : T)
      (db : mongo.Db)
      → let after =
          append_with_outbox mongo to_document event_id now stream_id event_type schema_version
            payload db in
        IsAtomic grown_both stream_id (mongo.contents db) (mongo.contents after.0) after.1
  unfolding append_with_outbox
  append_with_outbox-IsAtomic event_id now stream_id event_type schema_version payload db =
      in_transaction_lem grown_both stream_id db _
        (both-Does event_id now stream_id event_type schema_version payload)
