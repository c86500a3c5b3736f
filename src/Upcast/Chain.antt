-- ===== src/Upcast/Chain.antt =====
-- What the upcaster chain computes: the registered functions, in order, up to the target version
-- or the first gap.
use event_sourcing_testbed.Common.{
  ℕ, zero, suc, ◌+◌, ◌-◌, ◌≤◌, ◌<◌, ◌≡◌, ◌≢◌, ◌⊎◌, inl, inr, Option, none, some, String, ltb, leb,
  Bool-cases, ltb→lt, Option-cases, arith,
}
use mathlib.Core.Option
use event_sourcing_testbed.Events.{UpcastResult, migrated, unrecognised}
use event_sourcing_testbed.Upcast.{UpcastRegistry, climb, target_of, upcast}

module _ {J : Type 0} where
  -- `n` steps from version `v`, each by the function of its version.
  abbrev pub compose : (ℕ → J → J) → ℕ → ℕ → J → J
  compose g v zero p = p
  compose g v (suc n) p = compose g (v + 1) n (g v p)

  abbrev pub event_of : UpcastResult J → J
  event_of (UpcastResult.current p) = p
  event_of (migrated from p) = p
  event_of (unrecognised p) = p

  climb-compose :
      (fns : ℕ → Option (J → J)) (g : ℕ → J → J) (fuel target ver n end : ℕ) (p : J)
      → n < fuel
      → ver + n ≡ end
      → end ≤ target
      → ((i : ℕ) → ver ≤ i → i < end → fns i ≡ some (g i))
      → (end ≡ target) ⊎ (fns end ≡ none)
      → climb fuel fns target ver p ≡ some (end, compose g ver n p)
  unfolding climb
  climb-compose fns g zero target ver n end p lt e le all stop = absurd (omega arith)
  climb-compose fns g (suc fuel) target ver zero end p lt e le all stop =
      let here : ver ≡ end = omega arith in ground (arith, here)
  climb-compose fns g (suc fuel) target ver (suc n) end p lt e le all stop =
      let f = all ver (omega arith) (omega arith) in
      let rest =
        climb-compose fns g fuel target (ver + 1) n end (g ver p) (omega arith) (omega arith) le
          (λ i lo hi. all i (omega arith) hi) stop in
      ground (arith, f, rest)

  climb_total :
      (fns : ℕ → Option (J → J)) (fuel target ver : ℕ) (p : J)
      → target - ver < fuel
      → (r : ℕ × J) × (climb fuel fns target ver p ≡ some r)
  unfolding climb
  climb_total fns zero target ver p lt = absurd (omega arith)
  climb_total fns (suc fuel) target ver p lt = elim (Bool-cases (ltb ver target)) [
    | inr stop ↦ ((ver, p), rw (stop, climb))
    | inl more ↦ elim (Option-cases (fns ver)) [
      | inl gap ↦ ((ver, p), rw (more, gap, climb))
      | inr (f, e) ↦
          rw (more, e, climb)
            (climb_total fns fuel target (ver + 1) (f p) (omega (arith, ltb→lt ver target more)))
    ]
  ]

  -- Enough fuel is given: `upcast` returns for every registry, event type, version and payload, and
  -- its verdict is never `unrecognised`.
  pub upcast_total :
      (reg : UpcastRegistry J) (t : String) (stored : ℕ) (p : J)
      → (r : UpcastResult J) × (upcast reg t stored p ≡ some r) × ((q : J) → r ≢ unrecognised q)
  unfolding upcast
  upcast_total reg t stored p = elim (Bool-cases (leb (target_of (reg.current t) stored) stored)) [
    | inl done ↦ (UpcastResult.current p, rw done, λ q e. cc)
    | inr more ↦
        let ((ver, v), e) =
          climb_total (reg.fns t) (suc (target_of (reg.current t) stored - stored))
            (target_of (reg.current t) stored) stored p (omega arith) in
        (migrated (record { version = stored }) v, rw (more, e), λ q e. cc)
  ]

  -- Where the functions of the versions from `stored` up to `end` are registered, and `end` is the
  -- target or has no function, the payload passes through exactly those functions in version
  -- order, and the verdict names the stored version.
  pub upcast-compose :
      (reg : UpcastRegistry J) (t : String) (g : ℕ → J → J) (stored n end target : ℕ) (p : J)
      → reg.current t ≡ some target
      → stored < target
      → stored + n ≡ end
      → end ≤ target
      → ((i : ℕ) → stored ≤ i → i < end → reg.fns t i ≡ some (g i))
      → (end ≡ target) ⊎ (reg.fns t end ≡ none)
      → upcast reg t stored p ≡ some (migrated (record { version = stored }) (compose g stored n p))
  unfolding upcast
  upcast-compose reg t g stored n end target p cur lt e le all stop =
      let loop =
        climb-compose (reg.fns t) g (suc (target - stored)) target stored n end p (omega arith) e le
          all stop in
      ground (arith, cur, loop)

  -- A payload at or above the target version, or of a type with no upcaster, is returned unchanged
  -- as `current`.
  pub upcast_current :
      (reg : UpcastRegistry J) (t : String) (stored : ℕ) (p : J)
      → target_of (reg.current t) stored ≤ stored
      → upcast reg t stored p ≡ some (UpcastResult.current p)
  unfolding upcast
  upcast_current reg t stored p h = ground arith

  climb_step :
      (fns : ℕ → Option (J → J)) (f : J → J) (fuel target ver : ℕ) (p : J)
      → ver < target
      → fns ver ≡ some f
      → climb (suc fuel) fns target ver p ≡ climb fuel fns target (ver + 1) (f p)
  unfolding climb
  climb_step fns f fuel target ver p lt e = ground arith

  climb_stop :
      (fns : ℕ → Option (J → J)) (fuel target ver : ℕ) (p : J)
      → target ≤ ver
      → climb (suc fuel) fns target ver p ≡ some (ver, p)
  unfolding climb
  climb_stop fns fuel target ver p le = ground arith

  -- One step by hand and the rest by the registry gives the payload that the registry gives alone.
  pub upcast-step :
      (reg : UpcastRegistry J) (t : String) (f : J → J) (stored target : ℕ) (p : J)
      → reg.current t ≡ some target
      → stored < target
      → reg.fns t stored ≡ some f
      → Option.map event_of (upcast reg t stored p)
        ≡ Option.map event_of (upcast reg t (stored + 1) (f p))
  unfolding upcast
  upcast-step reg t f stored target p cur lt e =
      let fuel : target - stored ≡ suc (target - (stored + 1)) = omega arith in
      let first = climb_step (reg.fns t) f (target - stored) target stored p lt e in
      let last = climb_stop (reg.fns t) (target - (stored + 1)) target (stored + 1) (f p) in
      ground (arith, cur, fuel, first, last)
