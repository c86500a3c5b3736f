-- ===== src/Mongo/Outbox.antt =====
-- `relay_next_integration_event` of rust-app/src/mongodb/event_store.rs. The driver, the publisher
-- and the broker behind it are the parameter `Publisher`.
pub mod Workers
pub mod Safety
use event_sourcing_testbed.Common.{
  ◌≡◌, refl, ap, ◌∙◌, ◌⊎◌, inl, inr, String, List, [], ◌∷◌, Option, none, some, Bool, true, false,
}
use event_sourcing_testbed.Common.Result.{Result, ok, err}
use event_sourcing_testbed.Kurrent.Driver.{Reply, done, refused}
use event_sourcing_testbed.Store.Relay.{Outbox, mark, pending, IsIn, sent, Relayed}
use event_sourcing_testbed.Store.Relay.Loop.{IsRelay}

pub record Publisher : Type 1 where
  pub World : Type 0
  pub Document : Type 0
  -- `find_one(doc! { "dispatched": false })`
  pub find_pending : World → Reply (Option Document)
  -- `doc.get_str("_id")`
  pub get_id : Document → Option String
  pub publish : World → Document → World × Result (Unit {0})
  -- `update_one` that sets `dispatched`
  pub set_dispatched : World → String → World × Reply (Unit {0})
  pub outbox : World → Outbox

-- What is promised of them. A call that fails may have taken place.
pub record IsReliable (p : Publisher) : Type 0 where
  pub found_none : (w : p.World) → p.find_pending w ≡ done none → pending (p.outbox w).entries ≡ []
  pub found :
      (w : p.World) (d : p.Document) (id : String)
      → p.find_pending w ≡ done (some d)
      → p.get_id d ≡ some id
      → IsIn id (pending (p.outbox w).entries)
  pub published :
      (w : p.World) (d : p.Document) (id : String)
      → p.get_id d ≡ some id
      → (p.publish w d).1 ≡ ok tt
      → p.outbox (p.publish w d).0 ≡ sent (p.outbox w) id
  pub not_published :
      (w : p.World) (d : p.Document) (id : String) (e : List String)
      → p.get_id d ≡ some id
      → (p.publish w d).1 ≡ err e
      → (p.outbox (p.publish w d).0 ≡ p.outbox w)
        ⊎ (p.outbox (p.publish w d).0 ≡ sent (p.outbox w) id)
  pub marked :
      (w : p.World) (id : String)
      → (p.set_dispatched w id).1 ≡ done tt
      → p.outbox (p.set_dispatched w id).0
        ≡ record (p.outbox w) { entries = mark id (p.outbox w).entries }
  pub not_marked :
      (w : p.World) (id message : String)
      → (p.set_dispatched w id).1 ≡ refused message
      → (p.outbox (p.set_dispatched w id).0 ≡ p.outbox w)
        ⊎ (p.outbox (p.set_dispatched w id).0
            ≡ record (p.outbox w) { entries = mark id (p.outbox w).entries })

module _ (p : Publisher) where
  open p use {World, Document, find_pending, get_id, publish, set_dispatched}

  -- behind a publish that succeeded
  abbrev pub finish : World × Reply (Unit {0}) → World × Result Bool
  finish (w, done u) = (w, ok true)
  finish (w, refused e) = (w, err ("failed to mark integration event dispatched" ∷ e ∷ []))

  abbrev pub published_then : String → World × Result (Unit {0}) → World × Result Bool
  published_then id (w, err e) = (w, err e)
  published_then id (w, ok u) = finish (set_dispatched w id)

  abbrev pub with_id : World → Document → Option String → World × Result Bool
  with_id w doc none = (w, err ("outbox entry missing _id" ∷ []))
  with_id w doc (some id) = published_then id (publish w doc)

  abbrev pub with_entry : World → Reply (Option Document) → World × Result Bool
  with_entry w (refused e) = (w, err ("failed to query integration outbox" ∷ e ∷ []))
  with_entry w (done none) = (w, ok false)
  with_entry w (done (some doc)) = with_id w doc (get_id doc)

  unfoldable pub relay_next_integration_event : World → World × Result Bool
  relay_next_integration_event w = with_entry w (find_pending w)

  module _ (reliable : IsReliable p) where
    abbrev After : World → World × Result Bool → Type 0
    After w result = Relayed (p.outbox w) (p.outbox result.0) result.1

    finished :
        (w v : World) (id : String)
        → IsIn id (pending (p.outbox w).entries)
        → p.outbox v ≡ sent (p.outbox w) id
        → (r : Reply (Unit {0})) → (set_dispatched v id).1 ≡ r
        → After w (finish ((set_dispatched v id).0, r))
    finished w v id m e (done u) q = (
      id,
      m,
      reliable.marked v id q ∙ ap (λ (s : Outbox). record s { entries = mark id s.entries }) e,
    )
    finished w v id m e (refused f) q = elim (reliable.not_marked v id f q) [
      | inl lost ↦ inr (inl (id, m, lost ∙ e))
      | inr stored ↦
          inr
            (inr (id, m, stored ∙ ap (λ (s : Outbox). record s { entries = mark id s.entries }) e))
    ]

    published_then_lem :
        (w : World) (doc : Document) (id : String)
        → IsIn id (pending (p.outbox w).entries)
        → get_id doc ≡ some id
        → (r : Result (Unit {0})) → (publish w doc).1 ≡ r
        → After w (published_then id ((publish w doc).0, r))
    published_then_lem w doc id m g (ok u) q =
        finished w (publish w doc).0 id m (reliable.published w doc id g q)
          (set_dispatched (publish w doc).0 id).1 refl
    published_then_lem w doc id m g (err f) q = elim (reliable.not_published w doc id f g q) [
      | inl lost ↦ inl lost
      | inr given ↦ inr (inl (id, m, given))
    ]

    with_id_lem :
        (w : World) (doc : Document)
        → find_pending w ≡ done (some doc)
        → (o : Option String) → get_id doc ≡ o
        → After w (with_id w doc o)
    with_id_lem w doc f none g = inl refl
    with_id_lem w doc f (some id) g =
        published_then_lem w doc id (reliable.found w doc id f g) g (publish w doc).1 refl

    with_entry_lem :
        (w : World) (r : Reply (Option Document)) → find_pending w ≡ r → After w (with_entry w r)
    with_entry_lem w (refused e) f = inl refl
    with_entry_lem w (done none) f = (reliable.found_none w f, refl)
    with_entry_lem w (done (some doc)) f = with_id_lem w doc f (get_id doc) refl

    -- The relay does what the specification of the outbox allows, on every path: it answers `true`
    -- when it has published a pending entry and marked it, `false` when nothing is pending; and after
    -- an error nothing has happened, or an entry was published, and is marked or still pending.
    pub relay_next_integration_event-IsRelay : IsRelay relay_next_integration_event p.outbox
    unfolding relay_next_integration_event
    relay_next_integration_event-IsRelay = record {
      relayed = λ w. with_entry_lem w (find_pending w) refl;
    }
