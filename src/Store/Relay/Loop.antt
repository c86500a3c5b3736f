-- ===== src/Store/Relay/Loop.antt =====
-- The relay loop of the two event stores, for any relay that does what the specification allows.
use event_sourcing_testbed.Common.{
  ℕ, zero, suc, ◌-◌, ◌<◌, ◌≤◌, ◌≡◌, refl, ap, subst, ◌∙◌, inl, inr, String, eq_refl, List, [], ◌∷◌,
  Bool, true, false, arith, length, All,
}
use event_sourcing_testbed.Common.Result.{Result, ok, err}
use event_sourcing_testbed.Store.Relay.{Outbox, mark, pending, IsIn, Relayed, IsDelivered}
use event_sourcing_testbed.Store.Relay.Delivery.{Delivered, Relayed-IsDelivered}

length-pending-mark :
    (id : String) (es : List (String × Bool)) → length (pending (mark id es)) ≤ length (pending es)
length-pending-mark id [] = omega arith
length-pending-mark id ((k, d) ∷ es) = ground (arith, length-pending-mark id es)

length-pending-mark_lt :
    (id : String) (es : List (String × Bool))
    → IsIn id (pending es)
    → length (pending (mark id es)) < length (pending es)
length-pending-mark_lt id [] h = absurd h
length-pending-mark_lt id ((k, true) ∷ es) h = ground (arith, length-pending-mark_lt id es h)
length-pending-mark_lt id ((k, false) ∷ es) (inl e) =
    rw (e, eq_refl id) (omega (arith, length-pending-mark id es))
length-pending-mark_lt id ((k, false) ∷ es) (inr h) = ground (arith, length-pending-mark_lt id es h)

abbrev pub ids : List (String × Bool) → List String
ids [] = []
ids ((k, d) ∷ es) = k ∷ ids es

ids-mark : (id : String) (es : List (String × Bool)) → ids (mark id es) ≡ ids es
ids-mark id [] = refl
ids-mark id ((k, d) ∷ es) = ap (λ ks. k ∷ ks) (ids-mark id es)

-- an outbox with nothing pending has been published
none_pending :
    (ks : List String) (es : List (String × Bool))
    → pending es ≡ []
    → Delivered ks es
    → All (λ id. IsIn id ks) (ids es)
none_pending ks [] none_left h = tt
none_pending ks ((k, true) ∷ es) none_left (inl e, h) = absurd (cc e)
none_pending ks ((k, true) ∷ es) none_left (inr m, h) = (m, none_pending ks es none_left h)
none_pending ks ((k, false) ∷ es) none_left h = absurd (cc none_left)

module _ {World : Type 0} (relay : World → World × Result Bool) where
  -- the loop, with the number of its whole turns before the shutdown, which may drop a relay between
  -- two of its calls; errors and the empty outbox only make it wait
  unfoldable pub run_relay_loop : ℕ → World → World
  run_relay_loop zero w = w
  run_relay_loop (suc turns) w = run_relay_loop turns (relay w).0

  -- `relay` does what the specification allows.
  pub record IsRelay (view : World → Outbox) : Type 0 where
    pub relayed : (w : World) → Relayed (view w) (view (relay w).0) (relay w).1

  module _ (view : World → Outbox) (is_relay : IsRelay view) where
    -- From an outbox whose dispatched entries were published, the loop, whatever fails, comes to
    -- another such outbox.
    pub run_relay_loop-IsDelivered :
        (turns : ℕ) (w : World) → IsDelivered (view w) → IsDelivered (view (run_relay_loop turns w))
    unfolding run_relay_loop
    run_relay_loop-IsDelivered zero w h = h
    run_relay_loop-IsDelivered (suc turns) w h =
        run_relay_loop-IsDelivered turns (relay w).0
          (Relayed-IsDelivered (view w) (view (relay w).0) (relay w).1 (is_relay.relayed w) h)

    -- one turn without an error: one entry less is pending, or none is
    Progresses : World → World → Type 0
    Progresses w w' =
        (length (pending (view w').entries) ≤ length (pending (view w).entries) - 1)
        × (ids (view w').entries ≡ ids (view w).entries)

    relay-Progresses :
        (w : World) (r : Result Bool)
        → Relayed (view w) (view (relay w).0) r
        → ((b : Bool) × (r ≡ ok b))
        → Progresses w (relay w).0
    unfolding Progresses
    relay-Progresses w (ok true) (id, m, e) works = (
      omega (
        arith,
        length-pending-mark_lt id (view w).entries m,
        ap (λ (s : Outbox). length (pending s.entries)) e,
      ),
      ap (λ (s : Outbox). ids s.entries) e ∙ ids-mark id (view w).entries,
    )
    relay-Progresses w (ok false) (none_left, e) works = (
      omega (arith, ap length none_left, ap (λ (s : Outbox). length (pending s.entries)) e),
      ap (λ (s : Outbox). ids s.entries) e,
    )
    relay-Progresses w (err f) step (b, bad) = absurd (cc bad)

    drained :
        (turns : ℕ) (w : World)
        → ((v : World) → (b : Bool) × ((relay v).1 ≡ ok b))
        → length (pending (view w).entries) ≤ turns
        → (pending (view (run_relay_loop turns w)).entries ≡ [])
          × (ids (view (run_relay_loop turns w)).entries ≡ ids (view w).entries)
    unfolding run_relay_loop Progresses
    drained zero w works few = (empty _ few, refl)
      where
        empty : (ks : List String) → length ks ≤ 0 → ks ≡ []
        empty [] h = refl
        empty (k ∷ ks) h = absurd (omega arith)
    drained (suc turns) w works few =
        let (less, same) = relay-Progresses w (relay w).1 (is_relay.relayed w) (works w) in
        let (none_left, same') = drained turns (relay w).0 works (omega (arith, less)) in
        (none_left, same' ∙ same)

    -- Where no call fails, a loop of as many turns as there are pending entries leaves none, and every
    -- entry that the outbox had has been given to the broker.
    pub run_relay_loop_drains :
        (turns : ℕ) (w : World)
        → ((v : World) → (b : Bool) × ((relay v).1 ≡ ok b))
        → IsDelivered (view w)
        → length (pending (view w).entries) ≤ turns
        → let w' = run_relay_loop turns w in
          (pending (view w').entries ≡ [])
          × All (λ id. IsIn id (view w').published) (ids (view w).entries)
    run_relay_loop_drains turns w works h few =
        let (none_left, same) = drained turns w works few in
        let w' = run_relay_loop turns w in
        (
          none_left,
          subst (All (λ id. IsIn id (view w').published)) same (
              none_pending (view w').published (view w').entries none_left
                (run_relay_loop-IsDelivered turns w h)),
        )
