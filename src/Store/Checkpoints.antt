-- ===== src/Store/Checkpoints.antt =====
-- Checkpoints and consumers, as rust-app/src/mongodb/event_store.rs and
-- rust-app/src/postgres/event_store.rs use them: the handler is given an event, and then the event's
-- position is saved. The database and the handler are parameters.
use event_sourcing_testbed.Common.{
  ◌≡◌, refl, sym, ap, ◌∙◌, ◌⊎◌, inl, inr, String, List, [], ◌∷◌, ◌++◌, Option, some,
}
use mathlib.Core.List.{append_assoc, append-nil}
use event_sourcing_testbed.Common.Int.{ℤ, pos}
use event_sourcing_testbed.Common.Result.{Result, ok, err}
use event_sourcing_testbed.Kurrent.Driver.{Reply, done, refused}
use event_sourcing_testbed.Store.{EventEnvelope}

pub record Consumer : Type 1 where
  pub Db : Type 0
  pub Document : Type 0
  -- the upsert of a consumer's position
  pub set_position : Db → String → ℤ → Db × Reply (Unit {0})
  -- the query of it
  pub find_position : Db → String → Reply (Option ℤ)
  pub handler : Db → EventEnvelope Document → Db × Result (Unit {0})
  -- what is stored, and the events that the handler has accepted
  pub position : Db → String → Option ℤ
  pub handled : Db → List (EventEnvelope Document)

-- What is promised of them.
pub record IsReliable (c : Consumer) : Type 0 where
  pub set_done :
      (db : c.Db) (consumer_id : String) (at : ℤ)
      → (c.set_position db consumer_id at).1 ≡ done tt
      → c.position (c.set_position db consumer_id at).0 consumer_id ≡ some at
  pub set_handled :
      (db : c.Db) (consumer_id : String) (at : ℤ)
      → c.handled (c.set_position db consumer_id at).0 ≡ c.handled db
  pub find_done :
      (db : c.Db) (consumer_id : String) (found : Option ℤ)
      → c.find_position db consumer_id ≡ done found
      → found ≡ c.position db consumer_id
  pub handler_done :
      (db : c.Db) (e : EventEnvelope c.Document)
      → (c.handler db e).1 ≡ ok tt
      → c.handled (c.handler db e).0 ≡ c.handled db ++ e ∷ []

abbrev pub with_context {ℓ} : {A : Type ℓ} → String → Reply A → Result A
with_context message (done a) = ok a
with_context message (refused e) = err (message ∷ e ∷ [])

module _ (c : Consumer) where
  open c use {Db, Document, set_position, find_position, handler}

  unfoldable pub save_checkpoint : Db → String → ℤ → Db × Result (Unit {0})
  save_checkpoint db consumer_id global_position =
      let (db', reply) = set_position db consumer_id global_position in
      (db', with_context "failed to save checkpoint" reply)

  unfoldable pub load_checkpoint : Db → String → Result (Option ℤ)
  load_checkpoint db consumer_id =
      with_context "failed to load checkpoint" (find_position db consumer_id)

  -- `handler(envelope).await?; self.save_checkpoint(consumer_id, at).await?`
  unfoldable pub consume : Db → String → EventEnvelope Document → ℤ → Db × Result (Unit {0})
  unfolding save_checkpoint
  consume db consumer_id envelope at =
      let (db', accepted) = handler db envelope in
      elim accepted [ ok u ↦ save_checkpoint db' consumer_id at | err e ↦ (db', err e) ]

  -- one event after the other, each at its own position
  unfoldable pub consume_all : Db → String → List (EventEnvelope Document) → ℤ → Db × Result ℤ
  unfolding consume
  consume_all db consumer_id [] last_pos = (db, ok last_pos)
  consume_all db consumer_id (e ∷ es) last_pos =
      let (db', consumed) = consume db consumer_id e (pos e.global_position) in
      elim consumed [
        | err f ↦ (db', err f)
        | ok u ↦ consume_all db' consumer_id es (pos e.global_position)
      ]

  -- the position of the last event, and the checkpoint once all are handled
  abbrev pub last_position : ℤ → List (EventEnvelope Document) → ℤ
  last_position last [] = last
  last_position last (e ∷ es) = last_position (pos e.global_position) es

  abbrev pub position_after : Option ℤ → List (EventEnvelope Document) → Option ℤ
  position_after old [] = old
  position_after old (e ∷ es) = position_after (some (pos e.global_position)) es

pub unit_cases : (r : Result (Unit {0})) → (r ≡ ok tt) ⊎ ((e : List String) × (r ≡ err e))
unit_cases (ok u) = inl refl
unit_cases (err e) = inr (e, refl)

pub result_cases :
    {A : Type 0} (r : Result A) → ((a : A) × (r ≡ ok a)) ⊎ ((e : List String) × (r ≡ err e))
result_cases (ok a) = inl (a, refl)
result_cases (err e) = inr (e, refl)

pub reply_cases :
    {A : Type 0} (r : Reply A) → ((a : A) × (r ≡ done a)) ⊎ ((e : String) × (r ≡ refused e))
reply_cases (done a) = inl (a, refl)
reply_cases (refused e) = inr (e, refl)

pub with_context_ok :
    {A : Type 0} (message : String) (r : Reply A) (a : A)
    → with_context message r ≡ ok a
    → r ≡ done a
with_context_ok message (done b) a h = cc h
with_context_ok message (refused e) a h = absurd (cc h)

module _ (c : Consumer) (reliable : IsReliable c) where
  pub load_checkpoint_ok :
      (db : c.Db) (consumer_id : String) (found : Option ℤ)
      → load_checkpoint c db consumer_id ≡ ok found
      → found ≡ c.position db consumer_id
  unfolding load_checkpoint
  load_checkpoint_ok db consumer_id found loaded =
      reliable.find_done db consumer_id found (with_context_ok _ _ _ loaded)

  pub consume_done :
      (db : c.Db) (consumer_id : String) (e : EventEnvelope c.Document) (at : ℤ)
      → (consume c db consumer_id e at).1 ≡ ok tt
      → (c.handled (consume c db consumer_id e at).0 ≡ c.handled db ++ e ∷ [])
        × (c.position (consume c db consumer_id e at).0 consumer_id ≡ some at)
  unfolding consume save_checkpoint
  consume_done db consumer_id e at h = elim (unit_cases (c.handler db e).1) [
    | inr (f, bad) ↦ absurd (cc (rw (consume, bad) at h))
    | inl good ↦
        let db' = (c.handler db e).0 in
        let saved =
          with_context_ok _ (c.set_position db' consumer_id at).1 tt (rw (consume, good) at h) in
        rw (consume, good)
          (
            reliable.set_handled db' consumer_id at ∙ reliable.handler_done db e good,
            reliable.set_done db' consumer_id at saved,
          )
  ]

  -- A run over events that ends without an error has handed each of them to the handler, once and in
  -- order, and has saved the position of the last, which it returns.
  pub consume_all_exact :
      (es : List (EventEnvelope c.Document)) (db : c.Db) (consumer_id : String) (last last' : ℤ)
      → (consume_all c db consumer_id es last).1 ≡ ok last'
      → let db' = (consume_all c db consumer_id es last).0 in
        (c.handled db' ≡ c.handled db ++ es)
        × (last' ≡ last_position c last es)
        × (c.position db' consumer_id ≡ position_after c (c.position db consumer_id) es)
  unfolding consume_all
  consume_all_exact [] db consumer_id last last' ended =
      let same : last ≡ last' = cc ended in (sym (append-nil (c.handled db)), sym same, refl)
  consume_all_exact (e ∷ es) db consumer_id last last' ended =
      let at = pos e.global_position in
      elim (unit_cases (consume c db consumer_id e at).1) [
        | inr (f, bad) ↦ absurd (cc (rw (consume_all, bad) at ended))
        | inl good ↦
            let db1 = (consume c db consumer_id e at).0 in
            let (handled, saved) = consume_done db consumer_id e at good in
            let (all, end, after) =
              consume_all_exact es db1 consumer_id at last' (rw (consume_all, good) at ended) in
            rw (consume_all, good)
              (
                all ∙ ap (λ l. l ++ es) handled ∙ append_assoc (c.handled db) (e ∷ []) es,
                end,
                after ∙ ap (λ o. position_after c o es) saved,
              )
      ]

  -- A run over events that stops with an error has consumed those before some event, each once and in
  -- order, with the checkpoint at the last of them; and consuming that event failed with the run's
  -- error and left the run's database.
  pub consume_all_stopped :
      (es : List (EventEnvelope c.Document)) (db : c.Db) (consumer_id : String) (last : ℤ)
      (chain : List String)
      → (consume_all c db consumer_id es last).1 ≡ err chain
      → (seen : List (EventEnvelope c.Document)) × (e : EventEnvelope c.Document) × (rest : List
          (EventEnvelope c.Document))
        × (es ≡ seen ++ e ∷ rest)
        × (db1 : c.Db) × (c.handled db1 ≡ c.handled db ++ seen)
        × (c.position db1 consumer_id ≡ position_after c (c.position db consumer_id) seen)
        × ((consume c db1 consumer_id e (pos e.global_position)).1 ≡ err chain)
        × ((consume_all c db consumer_id es last).0
            ≡ (consume c db1 consumer_id e (pos e.global_position)).0)
  unfolding consume_all
  consume_all_stopped [] db consumer_id last chain ended = absurd (cc ended)
  consume_all_stopped (e ∷ es) db consumer_id last chain ended =
      let at = pos e.global_position in
      elim (unit_cases (consume c db consumer_id e at).1) [
        | inr (f, bad) ↦
            let same : ◌≡◌ {A = Result ℤ} (err f) (err chain) = rw (consume_all, bad) at ended in
            let same' : ◌≡◌ {A = Result (Unit {0})} (err f) (err chain) =
              ap (λ (r : Result ℤ). widen r) same in
            (
              [],
              e,
              es,
              refl,
              db,
              sym (append-nil (c.handled db)),
              refl,
              bad ∙ same',
              rw (consume_all, bad) refl,
            )
        | inl good ↦
            let db1 = (consume c db consumer_id e at).0 in
            let (handled, saved) = consume_done db consumer_id e at good in
            let (seen, f, rest, split, db2, h2, p2, stop, end) =
              consume_all_stopped es db1 consumer_id at chain (rw (consume_all, good) at ended) in
            (
              e ∷ seen,
              f,
              rest,
              ap (λ l. e ∷ l) split,
              db2,
              h2 ∙ ap (λ l. l ++ seen) handled ∙ append_assoc (c.handled db) (e ∷ []) seen,
              p2 ∙ ap (λ o. position_after c o seen) saved,
              stop,
              rw (consume_all, good) end,
            )
      ]
    where
      widen : Result ℤ → Result (Unit {0})
      widen (ok a) = ok tt
      widen (err f) = err f
