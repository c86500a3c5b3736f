-- ===== src/Mongo/Subscription.antt =====
-- `catch_up_subscribe` of rust-app/src/mongodb/event_store.rs: the events behind the checkpoint, read
-- through a cursor, and then those that the change stream delivers. What the cursor and the change
-- stream answer are lists.
use event_sourcing_testbed.Common.{
  ◌≡◌, refl, sym, ap, ◌∙◌, String, List, [], ◌∷◌, ◌++◌, map, Bool-cases, Option-cases, Option, none,
  some, Bool, true, false, inl, inr,
}
use mathlib.Core.Option.{get_or}
use mathlib.Core.List.{filter_map, append-nil, append_assoc}
use event_sourcing_testbed.Common.Int.{ℤ, pos, negsuc}
use event_sourcing_testbed.Common.Result.{Result, ok, err}
use event_sourcing_testbed.Kurrent.Driver.{Reply, done, refused}
use event_sourcing_testbed.Store.{EventEnvelope}
use event_sourcing_testbed.Store.Checkpoints.{
  Consumer, IsReliable, load_checkpoint, consume, consume_all, consume_all_exact, consume_done,
  last_position, position_after, unit_cases,
}

-- an event of the change stream: whether it is an insert, and the full document
pub record ChangeEvent (Document : Type 0) : Type 0 where
  pub is_insert : Bool
  pub full_document : Option Document

module _ (c : Consumer) (from_document : c.Document → Option (EventEnvelope c.Document))
    (find_after : c.Db → ℤ → Reply (List (Reply c.Document)))
    (watch : c.Db → Reply (List (Reply (ChangeEvent c.Document)))) where
  open c use {Db, Document}

  -- the loop of phase 1; it ends with `last_pos`
  unfoldable pub catch_up_events : List (Reply Document) → Db → String → ℤ → Db × Result ℤ
  catch_up_events [] db consumer_id last_pos = (db, ok last_pos)
  catch_up_events (refused e ∷ items) db consumer_id last_pos =
      (db, err ("cursor error during catch-up" ∷ e ∷ []))
  catch_up_events (done raw ∷ items) db consumer_id last_pos = elim (from_document raw) [
    | none ↦ (db, err ("failed to deserialise envelope during catch-up" ∷ []))
    | some envelope ↦
        let (db', consumed) = consume c db consumer_id envelope (pos envelope.global_position) in
        elim consumed [
          | err e ↦ (db', err e)
          | ok u ↦ catch_up_events items db' consumer_id (pos envelope.global_position)
        ]
  ]

  abbrev pub opened : Db → String → Reply (List (Reply Document)) → ℤ → Db × Result ℤ
  opened db consumer_id (refused e) from = (db, err ("failed to open catch-up cursor" ∷ e ∷ []))
  opened db consumer_id (done items) from = catch_up_events items db consumer_id from

  -- phase 1
  unfoldable pub catch_up : Db → String → Db × Result ℤ
  unfolding catch_up_events
  catch_up db consumer_id = elim (load_checkpoint c db consumer_id) [
    | err e ↦ (db, err e)
    | ok found ↦
        let from = get_or found (negsuc 0) in opened db consumer_id (find_after db from) from
  ]

  -- phase 2: the end of the change stream ends the subscription
  unfoldable pub follow : List (Reply (ChangeEvent Document)) → Db → String → Db × Result (Unit {0})
  follow [] db consumer_id = (db, ok tt)
  follow (refused e ∷ items) db consumer_id = (db, err ("change stream error" ∷ e ∷ []))
  follow (done event ∷ items) db consumer_id = elim event.is_insert [
    | false ↦ follow items db consumer_id
    | true ↦ elim event.full_document [
      | none ↦ follow items db consumer_id
      | some full_doc ↦ elim (from_document full_doc) [
        | none ↦ (db, err ("failed to deserialise change stream doc" ∷ []))
        | some envelope ↦
            let (db', consumed) =
              consume c db consumer_id envelope (pos envelope.global_position) in
            elim consumed [ err e ↦ (db', err e) | ok u ↦ follow items db' consumer_id ]
      ]
    ]
  ]

  abbrev pub watched :
      Db → String → Reply (List (Reply (ChangeEvent Document))) → Db × Result (Unit {0})
  watched db consumer_id (refused e) = (db, err ("failed to open change stream" ∷ e ∷ []))
  watched db consumer_id (done items) = follow items db consumer_id

  unfoldable pub catch_up_subscribe : Db → String → Db × Result (Unit {0})
  unfolding catch_up follow
  catch_up_subscribe db consumer_id =
      let (db', caught_up) = catch_up db consumer_id in
      elim caught_up [ err e ↦ (db', err e) | ok at ↦ watched db' consumer_id (watch db') ]

  -- The loop over the cursor, where every document is an envelope, is that over the envelopes.
  pub catch_up_events-consume_all :
      (raws : List Document) (es : List (EventEnvelope Document)) (db : Db) (consumer_id : String)
      (last : ℤ)
      → map from_document raws ≡ map some es
      → catch_up_events (map done raws) db consumer_id last ≡ consume_all c db consumer_id es last
  unfolding catch_up_events consume_all
  catch_up_events-consume_all [] [] db consumer_id last h = refl
  catch_up_events-consume_all [] (e ∷ es) db consumer_id last h = absurd (cc h)
  catch_up_events-consume_all (raw ∷ raws) [] db consumer_id last h = absurd (cc h)
  catch_up_events-consume_all (raw ∷ raws) (e ∷ es) db consumer_id last h =
      let here : from_document raw ≡ some e = cc h in
      let rest : map from_document raws ≡ map some es = cc h in
      let at = pos e.global_position in
      elim (unit_cases (consume c db consumer_id e at).1) [
        | inr (f, bad) ↦ rw (catch_up_events, consume_all, here, bad) refl
        | inl good ↦
            rw (catch_up_events, consume_all, here, good)
              (catch_up_events-consume_all raws es (consume c db consumer_id e at).0 consumer_id at
                rest)
      ]

  -- A historical phase that ends without an error has handed every event of the cursor to the
  -- handler, once and in order, and has saved the position of the last one, which it returns.
  pub catch_up_events_exact :
      (reliable : IsReliable c) (raws : List Document) (es : List (EventEnvelope Document))
      (db : Db) (consumer_id : String) (last last' : ℤ)
      → map from_document raws ≡ map some es
      → (catch_up_events (map done raws) db consumer_id last).1 ≡ ok last'
      → let db' = (catch_up_events (map done raws) db consumer_id last).0 in
        (c.handled db' ≡ c.handled db ++ es)
        × (last' ≡ last_position c last es)
        × (c.position db' consumer_id ≡ position_after c (c.position db consumer_id) es)
  catch_up_events_exact reliable raws es db consumer_id last last' h ended =
      rw (catch_up_events-consume_all raws es db consumer_id last h) (
        consume_all_exact c reliable es db consumer_id last last'
          (rw (catch_up_events-consume_all raws es db consumer_id last h) at ended))

  -- the full documents of the inserts
  abbrev pub inserted_doc : ChangeEvent Document → Option Document
  inserted_doc e = elim e.is_insert [ false ↦ none | true ↦ e.full_document ]

  -- the envelopes of the inserts, in their order, all of them documents that decode
  abbrev pub Delivers : List (ChangeEvent Document) → List (EventEnvelope Document) → Type 0
  Delivers evs es = map from_document (filter_map inserted_doc evs) ≡ map some es

  -- what `follow` has done with the events that stand for `es`
  abbrev Followed :
      List (ChangeEvent Document) → List (EventEnvelope Document) → Db → String → Type 0
  Followed evs es db consumer_id =
      let db' = (follow (map done evs) db consumer_id).0 in
      (c.handled db' ≡ c.handled db ++ es)
      × (c.position db' consumer_id ≡ position_after c (c.position db consumer_id) es)

  -- an insert with a full document
  insert_taken :
      (reliable : IsReliable c) (ev : ChangeEvent Document) (evs : List (ChangeEvent Document))
      (consumer_id : String) (doc : Document)
      → ((es : List (EventEnvelope Document)) (db : Db)
          → Delivers evs es
          → (follow (map done evs) db consumer_id).1 ≡ ok tt
          → Followed evs es db consumer_id)
      → ev.is_insert ≡ true
      → ev.full_document ≡ some doc
      → (es : List (EventEnvelope Document)) (db : Db)
      → map from_document (doc ∷ filter_map inserted_doc evs) ≡ map some es
      → (follow (map done (ev ∷ evs)) db consumer_id).1 ≡ ok tt
      → Followed (ev ∷ evs) es db consumer_id
  unfolding follow
  insert_taken reliable ev evs consumer_id doc rec insert full [] db h ended = absurd (cc h)
  insert_taken reliable ev evs consumer_id doc rec insert full (e ∷ es) db h ended =
      let here : from_document doc ≡ some e = cc h in
      let rest : Delivers evs es = cc h in
      let at = pos e.global_position in
      elim (unit_cases (consume c db consumer_id e at).1) [
        | inr (f, bad) ↦ absurd (cc (rw (follow, insert, full, here, bad) at ended))
        | inl good ↦
            let (handled, saved) = consume_done c reliable db consumer_id e at good in
            let (all, after) =
              rec es (consume c db consumer_id e at).0 rest
                (rw (follow, insert, full, here, good) at ended) in
            rw (follow, insert, full, here, good)
              (
                all ∙ ap (λ l. l ++ es) handled ∙ append_assoc (c.handled db) (e ∷ []) es,
                after ∙ ap (λ o. position_after c o es) saved,
              )
      ]

  -- A change stream that ends has handed every inserted event to the handler, once and in order, and
  -- the checkpoint is the position of the last one.
  pub follow_exact :
      (reliable : IsReliable c) (evs : List (ChangeEvent Document))
      (es : List (EventEnvelope Document)) (db : Db) (consumer_id : String)
      → Delivers evs es
      → (follow (map done evs) db consumer_id).1 ≡ ok tt
      → let db' = (follow (map done evs) db consumer_id).0 in
        (c.handled db' ≡ c.handled db ++ es)
        × (c.position db' consumer_id ≡ position_after c (c.position db consumer_id) es)
  unfolding follow filter_map
  follow_exact reliable [] [] db consumer_id h ended = (sym (append-nil (c.handled db)), refl)
  follow_exact reliable [] (e ∷ es) db consumer_id h ended = absurd (cc h)
  follow_exact reliable (ev ∷ evs) es db consumer_id h ended = elim (Bool-cases ev.is_insert) [
    | inr other ↦
        rw (follow, other)
          (follow_exact reliable evs es db consumer_id (rw other at h)
            (rw (follow, other) at ended))
    | inl insert ↦ elim (Option-cases ev.full_document) [
      | inl empty ↦
          rw (follow, insert, empty)
            (follow_exact reliable evs es db consumer_id (rw (insert, empty) at h)
              (rw (follow, insert, empty) at ended))
      | inr (doc, full) ↦
          insert_taken reliable ev evs consumer_id doc
            (λ es db h ended. follow_exact reliable evs es db consumer_id h ended) insert full es db
            (rw (insert, full) at h) ended
    ]
  ]
