-- ===== src/Mongo/Outbox/Safety.antt =====
-- Workers of rust-app/src/mongodb/event_store.rs that relay side by side mark no entry that the broker
-- was not given.
use event_sourcing_testbed.Common.{
  ◌≡◌, refl, sym, subst, inl, inr, String, str_eq, eq_iff, List, [], ◌∷◌, ◌++◌, Option, none, some,
  Bool, Bool-cases, All,
}
use event_sourcing_testbed.Kurrent.Driver.{Reply, done, refused}
use event_sourcing_testbed.Store.Checkpoints.{reply_cases, unit_cases}
use event_sourcing_testbed.Store.Relay.{Outbox, mark, IsIn, sent, IsDelivered}
use event_sourcing_testbed.Store.Relay.Delivery.{
  Delivered, Delivered-sent, Delivered-append, IsIn-append, IsIn-last,
}
use event_sourcing_testbed.Mongo.Outbox.{Publisher, IsReliable}
use event_sourcing_testbed.Mongo.Outbox.Workers.{
  Worker, idle, holding, published, found_by, give, advance, Step, works, appends, Reach, here,
  next,
}

module _ (p : Publisher) where
  open p use {World, Document, find_pending, get_id, publish, set_dispatched}

  -- a worker that is about to mark an entry has published it
  abbrev pub Sound : List String → Worker p → Type 0
  Sound ks idle = Unit
  Sound ks (holding doc) = Unit
  Sound ks (published id) = IsIn id ks

  Sound-sent :
      (ks : List String) (id : String) (x : Worker p) → Sound ks x → Sound (ks ++ id ∷ []) x
  Sound-sent ks id idle h = tt
  Sound-sent ks id (holding doc) h = tt
  Sound-sent ks id (published k) h = IsIn-append k ks (id ∷ []) h

  All-Sound-sent :
      (ks : List String) (id : String) (xs : List (Worker p))
      → All (Sound ks) xs
      → All (Sound (ks ++ id ∷ [])) xs
  All-Sound-sent ks id [] h = tt
  All-Sound-sent ks id (x ∷ xs) h = (Sound-sent ks id x h.0, All-Sound-sent ks id xs h.1)

  -- an entry that the broker has is marked
  Delivered-mark_known :
      (ks : List String) (id : String) (es : List (String × Bool))
      → IsIn id ks
      → Delivered ks es
      → Delivered ks (mark id es)
  Delivered-mark_known ks id [] m h = tt
  Delivered-mark_known ks id ((k, d) ∷ es) m h = (
    elim (Bool-cases (str_eq k id)) [
      | inl same ↦ inr (subst (λ j. IsIn j ks) (sym ((eq_iff k id).0 same)) m)
      | inr differ ↦ rw differ h.0
    ],
    Delivered-mark_known ks id es m h.1,
  )

  -- What a call keeps: dispatched entries were published, and the other workers stay sound.
  Keeps : World → World → Type 0
  Keeps w w' =
      IsDelivered (p.outbox w')
      × ((x : Worker p) → Sound (p.outbox w).published x → Sound (p.outbox w').published x)

  same-Keeps : (w w' : World) → p.outbox w' ≡ p.outbox w → IsDelivered (p.outbox w) → Keeps w w'
  unfolding Keeps
  same-Keeps w w' e h =
      (subst IsDelivered (sym e) h, λ x s. subst (λ (o : Outbox). Sound o.published x) (sym e) s)

  sent-Keeps :
      (w w' : World) (id : String)
      → p.outbox w' ≡ sent (p.outbox w) id
      → IsDelivered (p.outbox w)
      → Keeps w w'
  unfolding Keeps
  sent-Keeps w w' id e h = (
    subst IsDelivered (sym e) (Delivered-sent (p.outbox w).published id (p.outbox w).entries h),
    λ x s.
        subst (λ (o : Outbox). Sound o.published x) (sym e)
          (Sound-sent (p.outbox w).published id x s),
  )

  marked-Keeps :
      (w w' : World) (id : String)
      → p.outbox w' ≡ record (p.outbox w) { entries = mark id (p.outbox w).entries }
      → IsIn id (p.outbox w).published
      → IsDelivered (p.outbox w)
      → Keeps w w'
  unfolding Keeps
  marked-Keeps w w' id e m h = (
    subst IsDelivered (sym e)
        (Delivered-mark_known (p.outbox w).published id (p.outbox w).entries m h),
    λ x s. subst (λ (o : Outbox). Sound o.published x) (sym e) s,
  )

  -- the worker after its call, and what the call keeps
  Advances : World → World × Worker p → Type 0
  Advances w (w', x) = Sound (p.outbox w').published x × Keeps w w'

  module _ (reliable : IsReliable p) where
    give_lem :
        (w : World) (doc : Document)
        → IsDelivered (p.outbox w)
        → (o : Option String) → get_id doc ≡ o
        → Advances w (give p w doc o)
    unfolding Advances
    give_lem w doc h none named = (tt, same-Keeps w w refl h)
    give_lem w doc h (some id) named = elim (unit_cases (publish w doc).1) [
      | inl good ↦
          let given = reliable.published w doc id named good in
          rw good (
            subst (λ (s : Outbox). IsIn id s.published) (sym given)
                (IsIn-last id (p.outbox w).published),
            sent-Keeps w (publish w doc).0 id given h,
          )
      | inr (e, bad) ↦ rw bad (
        tt,
        elim (reliable.not_published w doc id e named bad) [
          | inl lost ↦ same-Keeps w (publish w doc).0 lost h
          | inr given ↦ sent-Keeps w (publish w doc).0 id given h
        ],
      )
    ]

    advance_lem :
        (w : World) (x : Worker p)
        → IsDelivered (p.outbox w)
        → Sound (p.outbox w).published x
        → Advances w (advance p w x)
    unfolding advance Advances
    advance_lem w idle h s = (found_lem (find_pending w), same-Keeps w w refl h)
      where
        found_lem : (r : Reply (Option Document)) → Sound (p.outbox w).published (found_by p r)
        found_lem (refused e) = tt
        found_lem (done none) = tt
        found_lem (done (some doc)) = tt
    advance_lem w (holding doc) h s = give_lem w doc h (get_id doc) refl
    advance_lem w (published id) h s =
        let w' = (set_dispatched w id).0 in
        (
          tt,
          elim (reply_cases (set_dispatched w id).1) [
            | inl (u, good) ↦ marked-Keeps w w' id (reliable.marked w id good) s h
            | inr (e, bad) ↦ elim (reliable.not_marked w id e bad) [
              | inl lost ↦ same-Keeps w w' lost h
              | inr stored ↦ marked-Keeps w w' id stored s h
            ]
          ],
        )

    abbrev pub IsSafe : World × List (Worker p) → Type 0
    IsSafe (w, workers) = IsDelivered (p.outbox w) × All (Sound (p.outbox w).published) workers

    All-Sound :
        (w w' : World) (xs : List (Worker p))
        → Keeps w w'
        → All (Sound (p.outbox w).published) xs
        → All (Sound (p.outbox w').published) xs
    unfolding Keeps
    All-Sound w w' [] keeps h = tt
    All-Sound w w' (x ∷ xs) keeps h = (keeps.1 x h.0, All-Sound w w' xs keeps h.1)

    -- one worker is replaced
    All-Sound-replaced :
        (w w' : World) (before after : List (Worker p)) (x y : Worker p)
        → Keeps w w'
        → All (Sound (p.outbox w).published) (before ++ x ∷ after)
        → (Sound (p.outbox w).published x → Sound (p.outbox w').published y)
        → All (Sound (p.outbox w').published) (before ++ y ∷ after)
    unfolding Keeps
    All-Sound-replaced w w' [] after x y keeps h own = (own h.0, All-Sound w w' after keeps h.1)
    All-Sound-replaced w w' (z ∷ before) after x y keeps h own =
        (keeps.1 z h.0, All-Sound-replaced w w' before after x y keeps h.1 own)

    picked :
        (ks : List String) (before after : List (Worker p)) (x : Worker p)
        → All (Sound ks) (before ++ x ∷ after)
        → Sound ks x
    picked ks [] after x h = h.0
    picked ks (z ∷ before) after x h = picked ks before after x h.1

    Step-IsSafe : {c d : World × List (Worker p)} → Step p c d → IsSafe c → IsSafe d
    unfolding Advances Keeps
    Step-IsSafe (works w before after x) (h, all) =
        let own = picked (p.outbox w).published before after x all in
        let (sound, keeps) = advance_lem w x h own in
        (
          keeps.0,
          All-Sound-replaced w (advance p w x).0 before after x (advance p w x).1 keeps all
              (λ s. sound),
        )
    Step-IsSafe (appends w w' workers id e) (h, all) = (
      subst IsDelivered (sym e) (Delivered-append (p.outbox w).published id (p.outbox w).entries h),
      subst (λ (o : Outbox). All (Sound o.published) workers) (sym e) all,
    )

    -- From an outbox whose dispatched entries have been published, and workers of which none is about to
    -- mark an entry that was not: in every interleaving of the workers' calls and of appends, with
    -- whatever errors, an entry is marked as dispatched only after the broker was given it.
    pub Reach-IsDelivered :
        {c d : World × List (Worker p)} → IsSafe c → Reach p c d → IsDelivered (p.outbox d.0)
    Reach-IsDelivered safe r = (Reach-IsSafe safe r).0
      where
        Reach-IsSafe : {c d : World × List (Worker p)} → IsSafe c → Reach p c d → IsSafe d
        Reach-IsSafe safe here = safe
        Reach-IsSafe safe (next r step) = Step-IsSafe step (Reach-IsSafe safe r)
