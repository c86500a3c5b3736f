-- ===== src/Mongo/Checkpoints.antt =====
-- `save_checkpoint` and `load_checkpoint` of rust-app/src/mongodb/event_store.rs on the documents of
-- `_checkpoints`: the consumers of Store.Checkpoints over a collection. The `mongodb` crate is the
-- parameter `Collections`; what `Utc::now()` reads is another.
use event_sourcing_testbed.Common.{
  ◌≡◌, ◌≢◌, sym, ap, ◌∙◌, inl, inr, String, eq_iff, List, [], ◌∷◌, ◌++◌, Option, none, some, Bool,
  true,
}
use event_sourcing_testbed.Common.Int.{ℤ}
use event_sourcing_testbed.Common.Result.{Result, ok}
use event_sourcing_testbed.Kurrent.Driver.{Reply, done, refused}
use event_sourcing_testbed.Store.{EventEnvelope}
use event_sourcing_testbed.Store.Checkpoints.{
  Consumer, IsReliable, save_checkpoint, load_checkpoint, reply_cases, with_context_ok,
}

pub data Bson : Type 0 where
  text : String → Bson
  long : ℤ → Bson

pub record Collections : Type 1 where
  pub Db : Type 0
  pub Document : Type 0
  -- `update_one(doc! { "_id": id }, doc! { "$set": fields }).upsert(upsert)`
  pub update_one : Db → String → String → List (String × Bson) → Bool → Db × Reply (Unit {0})
  -- `find_one(doc! { "_id": id })`
  pub find_one : Db → String → String → Reply (Option Document)
  pub get_i64 : Document → String → Option ℤ
  -- what is stored under a collection and an `_id`, and a document with a field set
  pub stored : Db → String → String → Option Document
  pub set : Document → String → Bson → Document

-- `$set`, field by field
abbrev pub set_all : (c : Collections) → c.Document → List (String × Bson) → c.Document
set_all c doc [] = doc
set_all c doc ((key, v) ∷ fields) = set_all c (c.set doc key v) fields

-- What the documentation of MongoDB promises of them.
pub record Laws (c : Collections) : Type 0 where
  pub updated :
      (db : c.Db) (collection id : String) (fields : List (String × Bson))
      → (c.update_one db collection id fields true).1 ≡ done tt
      → (old : c.Document) × (c.stored (c.update_one db collection id fields true).0 collection id
          ≡ some (set_all c old fields))
  pub update_others :
      (db : c.Db) (collection id other : String) (fields : List (String × Bson)) (upsert : Bool)
      → other ≢ id
      → c.stored (c.update_one db collection id fields upsert).0 collection other
        ≡ c.stored db collection other
  pub found :
      (db : c.Db) (collection id : String) (o : Option c.Document)
      → c.find_one db collection id ≡ done o
      → o ≡ c.stored db collection id
  pub get_set :
      (doc : c.Document) (key : String) (n : ℤ) → c.get_i64 (c.set doc key (long n)) key ≡ some n
  pub get_set_ne :
      (doc : c.Document) (key other : String) (v : Bson)
      → other ≢ key
      → c.get_i64 (c.set doc key v) other ≡ c.get_i64 doc other

module _ (c : Collections) (now : c.Db → String) where
  open c use {Db, update_one, find_one, get_i64, stored}

  unfoldable pub set_position : Db → String → ℤ → Db × Reply (Unit {0})
  set_position db consumer_id global_position =
      update_one db "_checkpoints" consumer_id
        (("global_position", long global_position) ∷ ("updated_at", text (now db)) ∷ []) true

  -- `doc.and_then(|d| d.get_i64("global_position").ok())`
  abbrev pub position_in : Option c.Document → Option ℤ
  position_in none = none
  position_in (some d) = get_i64 d "global_position"

  abbrev pub position_of : Reply (Option c.Document) → Reply (Option ℤ)
  position_of (refused e) = refused e
  position_of (done doc) = done (position_in doc)

  unfoldable pub find_position : Db → String → Reply (Option ℤ)
  find_position db consumer_id = position_of (find_one db "_checkpoints" consumer_id)

  abbrev pub position : Db → String → Option ℤ
  position db consumer_id = position_in (stored db "_checkpoints" consumer_id)

  module _ (handler : Db → EventEnvelope c.Document → Db × Result (Unit {0}))
      (handled : Db → List (EventEnvelope c.Document)) where
    -- the consumer of the event store
    abbrev pub consumer : Consumer
    consumer = record {
      Db = Db;
      Document = c.Document;
      set_position = set_position;
      find_position = find_position;
      handler = handler;
      position = position;
      handled = handled;
    }

    module _ (laws : Laws c) where
      names_differ : ◌≢◌ {A = String} "global_position" "updated_at"
      names_differ h = absurd (cc ((eq_iff "global_position" "updated_at").1 h))

      set_position_done :
          (db : Db) (consumer_id : String) (at : ℤ)
          → (set_position db consumer_id at).1 ≡ done tt
          → position (set_position db consumer_id at).0 consumer_id ≡ some at
      unfolding set_position
      set_position_done db consumer_id at h =
          let (old, kept) = laws.updated db "_checkpoints" consumer_id _ h in
          let doc = c.set old "global_position" (long at) in
          ap position_in kept
          ∙ laws.get_set_ne doc "updated_at" "global_position" (text (now db)) names_differ
          ∙ laws.get_set old "global_position" at

      find_position_done :
          (db : Db) (consumer_id : String) (found : Option ℤ)
          → find_position db consumer_id ≡ done found
          → found ≡ position db consumer_id
      unfolding find_position
      find_position_done db consumer_id found h =
          elim (reply_cases (find_one db "_checkpoints" consumer_id)) [
            | inr (e, bad) ↦ absurd (cc (rw bad at h))
            | inl (o, good) ↦
                let same : position_in o ≡ found = cc (rw good at h) in
                sym same ∙ ap position_in (laws.found db "_checkpoints" consumer_id o good)
          ]

      -- The checkpoints implement what the subscriptions rely on, where the handler says what it has
      -- accepted and saving a checkpoint changes nothing of that.
      pub consumer-IsReliable :
          ((db : Db) (consumer_id : String) (at : ℤ)
            → handled (set_position db consumer_id at).0 ≡ handled db)
          → ((db : Db) (e : EventEnvelope c.Document)
              → (handler db e).1 ≡ ok tt
              → handled (handler db e).0 ≡ handled db ++ e ∷ [])
          → IsReliable consumer
      consumer-IsReliable apart accepts = record {
        set_done = set_position_done;
        set_handled = apart;
        find_done = find_position_done;
        handler_done = accepts;
      }

      -- A checkpoint that was saved without an error is the one that is then loaded for its consumer,
      -- and any other consumer's is the one that it had, where the loads succeed.
      pub load_checkpoint-save_checkpoint :
          (db : Db) (consumer_id other : String) (at : ℤ) (found found' : Option ℤ)
          → other ≢ consumer_id
          → (save_checkpoint consumer db consumer_id at).1 ≡ ok tt
          → let db' = (save_checkpoint consumer db consumer_id at).0 in
            load_checkpoint consumer db' consumer_id ≡ ok found
            → load_checkpoint consumer db' other ≡ ok found'
            → (found ≡ some at) × (found' ≡ position db other)
      unfolding save_checkpoint load_checkpoint set_position
      load_checkpoint-save_checkpoint db consumer_id other at found found' differ saved own others =
          let db' = (set_position db consumer_id at).0 in
          (
            find_position_done db' consumer_id found (with_context_ok _ _ _ own)
                ∙ set_position_done db consumer_id at (with_context_ok _ _ _ saved),
            find_position_done db' other found' (with_context_ok _ _ _ others)
                ∙ ap position_in
                    (laws.update_others db "_checkpoints" consumer_id other _ true differ),
          )
