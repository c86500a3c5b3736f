-- ===== src/Mongo/Outbox/Workers.antt =====
-- Several workers in `relay_next_integration_event` of rust-app/src/mongodb/event_store.rs at once. MongoDB
-- locks nothing here: a worker finds an entry, publishes it and marks it in three calls, and between
-- them other workers make theirs and appends add entries.
use event_sourcing_testbed.Common.{◌≡◌, String, List, [], ◌∷◌, ◌++◌, Option, none, some, false}
use event_sourcing_testbed.Common.Result.{Result, ok, err}
use event_sourcing_testbed.Kurrent.Driver.{Reply, done, refused}
use event_sourcing_testbed.Mongo.Outbox.{Publisher}

-- where a worker is: outside, with the entry that it has found, or with the one that it has published
pub data Worker (p : Publisher) : Type 0 where
  idle : Worker p
  holding : p.Document → Worker p
  published : String → Worker p

module _ (p : Publisher) where
  open p use {World, Document, find_pending, get_id, publish, set_dispatched}

  abbrev pub found_by : Reply (Option Document) → Worker p
  found_by (refused e) = idle
  found_by (done none) = idle
  found_by (done (some doc)) = holding doc

  abbrev pub sent_by : String → Result (Unit {0}) → Worker p
  sent_by id (ok u) = published id
  sent_by id (err e) = idle

  abbrev pub give : World → Document → Option String → World × Worker p
  give w doc none = (w, idle)
  give w doc (some id) = let (w', r) = publish w doc in (w', sent_by id r)

  -- the next call of a worker
  unfoldable pub advance : World → Worker p → World × Worker p
  advance w idle = (w, found_by (find_pending w))
  advance w (holding doc) = give w doc (get_id doc)
  advance w (published id) = ((set_dispatched w id).0, idle)

  unfoldable pub advance_twice : World → Worker p → World × Worker p
  advance_twice w x = let (w', x') = advance w x in advance w' x'

  -- The whole system: any worker makes its next call, or an append adds an entry.
  pub data Step : World × List (Worker p) → World × List (Worker p) → Type 0 where
    works :
        (w : World) (before after : List (Worker p)) (x : Worker p)
        → Step (w, before ++ x ∷ after) ((advance w x).0, before ++ (advance w x).1 ∷ after)
    appends :
        (w w' : World) (workers : List (Worker p)) (id : String)
        → p.outbox w' ≡ record (p.outbox w) { entries = (p.outbox w).entries ++ (id, false) ∷ [] }
        → Step (w, workers) (w', workers)

  pub data Reach (c : World × List (Worker p)) : World × List (Worker p) → Type 0 where
    here : Reach c c
    next : {d e : World × List (Worker p)} → Reach c d → Step d e → Reach c e
