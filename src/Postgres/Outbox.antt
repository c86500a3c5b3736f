-- ===== src/Postgres/Outbox.antt =====
-- `relay_next_integration_event` of rust-app/src/postgres/event_store.rs: an entry is published and
-- marked inside a transaction. The server, the publisher and the broker behind it are the parameter
-- `Publisher`. Other workers may hold locks on entries; what they commit while a relay runs is not
-- part of its transaction, and is left out.
use event_sourcing_testbed.Common.{
  ◌≡◌, refl, ap, subst, ◌∙◌, ◌⊎◌, inl, inr, String, List, [], ◌∷◌, Option, none, some, Bool, true,
  false, All,
}
use event_sourcing_testbed.Common.Result.{Result, ok, err}
use event_sourcing_testbed.Kurrent.Driver.{Reply, done, refused}
use event_sourcing_testbed.Store.Atomic.{IsTransactional}
use event_sourcing_testbed.Store.Relay.{Outbox, mark, pending, IsIn, sent, dispatched, Relayed}
use event_sourcing_testbed.Store.Relay.Loop.{IsRelay}
use event_sourcing_testbed.Postgres.Rows.{Columns}

pub record Publisher : Type 1 where
  pub World : Type 0
  pub Tx : Type 0
  pub Row : Type 0
  pub Json : Type 0
  pub columns : Columns Row Json
  pub begin : World → Reply Tx
  -- `SELECT … WHERE dispatched = FALSE ORDER BY global_position LIMIT 1 FOR UPDATE SKIP LOCKED`
  pub find_pending : Tx → Reply (Option Row)
  -- the closure `publish`; the broker is not part of the transaction
  pub publish : Tx → Json → String → Tx × Result (Unit {0})
  -- `UPDATE integration_outbox SET dispatched = TRUE … WHERE event_id = $1`
  pub set_dispatched : Tx → String → Tx × Reply (Unit {0})
  pub commit : Tx → World × Reply (Unit {0})
  pub rollback : Tx → World × Reply (Unit {0})
  -- a transaction that is dropped
  pub abort : Tx → World
  -- the outbox: outside a transaction, as an abort would leave it, and as the transaction sees it
  pub outbox : World → Outbox
  -- the entries whose rows the open transactions of other workers have locked
  pub locked : World → List String
  pub base : Tx → Outbox
  pub seen : Tx → Outbox

-- `publish(payload, event_type)`, with the columns of the row
abbrev pub publish_row : (p : Publisher) → p.Tx → p.Row → p.Tx × Result (Unit {0})
publish_row p tx row =
    p.publish tx (p.columns.get_json row "payload") (p.columns.get_string row "event_type")

-- What is promised of them. A call that fails may have taken place.
pub record IsReliable (p : Publisher) : Type 0 where
  pub begun :
      (w : p.World) (tx : p.Tx)
      → p.begin w ≡ done tx
      → (p.base tx ≡ p.outbox w) × (p.seen tx ≡ p.outbox w)
  -- `SKIP LOCKED`: no row is found when each that is left is locked by another worker
  pub found_none :
      (w : p.World) (tx : p.Tx)
      → p.begin w ≡ done tx
      → p.find_pending tx ≡ done none
      → All (λ id. IsIn id (p.locked w)) (pending (p.seen tx).entries)
  pub found :
      (tx : p.Tx) (row : p.Row)
      → p.find_pending tx ≡ done (some row)
      → IsIn (p.columns.get_string row "event_id") (pending (p.seen tx).entries)
  pub published :
      (tx : p.Tx) (row : p.Row)
      → p.find_pending tx ≡ done (some row)
      → (publish_row p tx row).1 ≡ ok tt
      → let tx' = (publish_row p tx row).0 in
        let id = p.columns.get_string row "event_id" in
        (p.base tx' ≡ sent (p.base tx) id) × (p.seen tx' ≡ sent (p.seen tx) id)
  pub not_published :
      (tx : p.Tx) (row : p.Row) (e : List String)
      → p.find_pending tx ≡ done (some row)
      → (publish_row p tx row).1 ≡ err e
      → let tx' = (publish_row p tx row).0 in
        (p.base tx' ≡ p.base tx)
        ⊎ (p.base tx' ≡ sent (p.base tx) (p.columns.get_string row "event_id"))
  pub set_base : (tx : p.Tx) (id : String) → p.base (p.set_dispatched tx id).0 ≡ p.base tx
  pub set_done :
      (tx : p.Tx) (id : String)
      → (p.set_dispatched tx id).1 ≡ done tt
      → p.seen (p.set_dispatched tx id).0
        ≡ record (p.seen tx) { entries = mark id (p.seen tx).entries }
  pub rolled_back : (tx : p.Tx) → p.outbox (p.rollback tx).0 ≡ p.base tx
  pub transactional : IsTransactional p.abort p.commit p.outbox p.base p.seen

-- What a relay may do, where other workers have locked the entries `others`: what the outbox allows,
-- but `false` says only that no other entry than those is pending.
abbrev pub RelayedPast : List String → Outbox → Outbox → Result Bool → Type 0
RelayedPast others s s' (ok true) = Relayed s s' (ok true)
RelayedPast others s s' (ok false) = All (λ id. IsIn id others) (pending s.entries) × (s' ≡ s)
RelayedPast others s s' (err e) = Relayed s s' (err e)

none_locked : (ids : List String) → All (λ id. IsIn id []) ids → ids ≡ []
none_locked [] h = refl
none_locked (id ∷ ids) h = absurd h.0

RelayedPast-Relayed : (s s' : Outbox) (r : Result Bool) → RelayedPast [] s s' r → Relayed s s' r
RelayedPast-Relayed s s' (ok true) h = h
RelayedPast-Relayed s s' (ok false) (few, same) = (none_locked _ few, same)
RelayedPast-Relayed s s' (err e) h = h

module _ (p : Publisher) where
  open p use {World, Tx, Row, columns, begin, find_pending, set_dispatched, commit, rollback, abort}

  abbrev pub commit_relay : World × Reply (Unit {0}) → World × Result Bool
  commit_relay (w, done u) = (w, ok true)
  commit_relay (w, refused e) = (w, err ("failed to commit relay transaction" ∷ e ∷ []))

  -- behind a publish that succeeded
  abbrev pub with_mark : Tx × Reply (Unit {0}) → World × Result Bool
  with_mark (tx, done u) = commit_relay (commit tx)
  with_mark (tx, refused e) =
      (abort tx, err ("failed to mark integration event dispatched" ∷ e ∷ []))

  abbrev pub published_then : String → Tx × Result (Unit {0}) → World × Result Bool
  published_then id (tx, err e) = (abort tx, err e)
  published_then id (tx, ok u) = with_mark (set_dispatched tx id)

  abbrev pub with_row : Tx → Reply (Option Row) → World × Result Bool
  with_row tx (refused e) = (abort tx, err ("failed to query integration outbox" ∷ e ∷ []))
  with_row tx (done none) = ((rollback tx).0, ok false)
  with_row tx (done (some row)) =
      let event_id = columns.get_string row "event_id" in
      published_then event_id (publish_row p tx row)

  abbrev pub with_tx : World → Reply Tx → World × Result Bool
  with_tx w (refused e) = (w, err ("failed to begin relay transaction" ∷ e ∷ []))
  with_tx w (done tx) = with_row tx (find_pending tx)

  unfoldable pub relay_next_integration_event : World → World × Result Bool
  relay_next_integration_event w = with_tx w (begin w)

  module _ (reliable : IsReliable p) where
    -- what has come of the outbox `s`
    abbrev From : List String → Outbox → World × Result Bool → Type 0
    From others s result = RelayedPast others s (p.outbox result.0) result.1

    commit_lem :
        (others : List String) (s : Outbox) (tx : Tx) (id : String)
        → IsIn id (pending s.entries)
        → p.base tx ≡ sent s id
        → p.seen tx ≡ dispatched s id
        → (r : Reply (Unit {0})) → (commit tx).1 ≡ r
        → From others s (commit_relay ((commit tx).0, r))
    commit_lem others s tx id m b v (done u) q =
        (id, m, reliable.transactional.commit_done tx q ∙ v)
    commit_lem others s tx id m b v (refused e) q =
        elim (reliable.transactional.commit_refused tx e q) [
          | inl lost ↦ inr (inl (id, m, lost ∙ b))
          | inr stored ↦ inr (inr (id, m, stored ∙ v))
        ]

    with_mark_lem :
        (others : List String) (s : Outbox) (tx : Tx) (id : String)
        → IsIn id (pending s.entries)
        → p.base tx ≡ sent s id
        → p.seen tx ≡ sent s id
        → (r : Reply (Unit {0})) → (set_dispatched tx id).1 ≡ r
        → From others s (with_mark ((set_dispatched tx id).0, r))
    with_mark_lem others s tx id m b v (refused e) q = inr (
        inl (
          id,
          m,
          reliable.transactional.aborted (set_dispatched tx id).0 ∙ reliable.set_base tx id ∙ b,
        ))
    with_mark_lem others s tx id m b v (done u) q =
        commit_lem others s (set_dispatched tx id).0 id m (reliable.set_base tx id ∙ b)
          (reliable.set_done tx id q
            ∙ ap (λ (o : Outbox). record o { entries = mark id o.entries }) v)
          (commit (set_dispatched tx id).0).1 refl

    published_then_lem :
        (others : List String) (s : Outbox) (tx : Tx) (row : Row)
        → find_pending tx ≡ done (some row)
        → IsIn (columns.get_string row "event_id") (pending s.entries)
        → p.base tx ≡ s
        → p.seen tx ≡ s
        → (r : Result (Unit {0})) → (publish_row p tx row).1 ≡ r
        → From others s
            (published_then (columns.get_string row "event_id") ((publish_row p tx row).0, r))
    published_then_lem others s tx row f m b v (ok u) q =
        let id = columns.get_string row "event_id" in
        let (b', v') = reliable.published tx row f q in
        let tx' = (publish_row p tx row).0 in
        with_mark_lem others s tx' id m (b' ∙ ap (λ (o : Outbox). sent o id) b)
          (v' ∙ ap (λ (o : Outbox). sent o id) v) (set_dispatched tx' id).1 refl
    published_then_lem others s tx row f m b v (err e) q =
        let id = columns.get_string row "event_id" in
        let dropped = reliable.transactional.aborted (publish_row p tx row).0 in
        elim (reliable.not_published tx row e f q) [
          | inl lost ↦ inl (dropped ∙ lost ∙ b)
          | inr given ↦ inr (inl (id, m, dropped ∙ given ∙ ap (λ (o : Outbox). sent o id) b))
        ]

    with_row_lem :
        (w : World) (s : Outbox) (tx : Tx)
        → begin w ≡ done tx
        → p.base tx ≡ s
        → p.seen tx ≡ s
        → (r : Reply (Option Row)) → find_pending tx ≡ r
        → From (p.locked w) s (with_row tx r)
    with_row_lem w s tx g b v (refused e) q = inl (reliable.transactional.aborted tx ∙ b)
    with_row_lem w s tx g b v (done none) q = (
      subst (λ (o : Outbox). All (λ id. IsIn id (p.locked w)) (pending o.entries)) v
          (reliable.found_none w tx g q),
      reliable.rolled_back tx ∙ b,
    )
    with_row_lem w s tx g b v (done (some row)) q =
        published_then_lem (p.locked w) s tx row q
          (subst (λ (o : Outbox). IsIn (columns.get_string row "event_id") (pending o.entries)) v
            (reliable.found tx row q))
          b v (publish_row p tx row).1 refl

    with_tx_lem :
        (w : World) (r : Reply Tx) → begin w ≡ r → From (p.locked w) (p.outbox w) (with_tx w r)
    with_tx_lem w (refused e) q = inl refl
    with_tx_lem w (done tx) q =
        let (b, v) = reliable.begun w tx q in
        with_row_lem w (p.outbox w) tx q b v (find_pending tx) refl

    -- The relay does what the specification of the outbox allows, on every path, also while other
    -- workers hold locks on entries: it answers `true` when it has published a pending entry and marked
    -- it, `false` when no entry is pending that they have not locked; and after an error nothing has
    -- happened, or a pending entry was published, and is marked or still pending.
    pub relay_next_integration_event_lem :
        (w : World)
        → let after = relay_next_integration_event w in
          RelayedPast (p.locked w) (p.outbox w) (p.outbox after.0) after.1
    unfolding relay_next_integration_event
    relay_next_integration_event_lem w = with_tx_lem w (begin w) refl

    -- A single worker's relay is one of the specification.
    pub refines : ((w : World) → p.locked w ≡ []) → IsRelay relay_next_integration_event p.outbox
    refines alone = record {
      relayed = λ w.
          let after = relay_next_integration_event w in
          RelayedPast-Relayed (p.outbox w) (p.outbox after.0) after.1 (
            subst (λ others. RelayedPast others (p.outbox w) (p.outbox after.0) after.1) (alone w)
              (relay_next_integration_event_lem w));
    }
