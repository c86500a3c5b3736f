-- ===== src/Store/Atomic.antt =====
-- A transaction takes place as a whole or not at all.
use event_sourcing_testbed.Common.{
  ◌≡◌, refl, sym, subst, ◌∙◌, ◌⊎◌, inl, inr, String, Option, none, some,
}
use event_sourcing_testbed.Kurrent.Driver.{Reply, done, refused}
use event_sourcing_testbed.Store.{
  Fallible, success, failure, bind, or_io, option_io, committed, unless_refused,
}

-- The database after a call that answers `r`, from `c` to `c'`: with no error it has done what `Done`
-- says, and with an error nothing, or all of it by a commit whose answer was lost.
abbrev pub IsAtomic : {C E : Type 0} → (E → C → Type 0) → C → C → Fallible E → Type 0
IsAtomic Done c c' (success e) = Done e c'
IsAtomic {E = E} Done c c' (failure f) = (c' ≡ c) ⊎ ((e : E) × Done e c')

module _ {Session : Type 0} where
  pub bind_ok :
      {A B : Type 0} (t : Session) (r : Fallible A) (k : Session → A → Session × Fallible B) (b : B)
      → (bind (t, r) k).1 ≡ success b
      → (a : A) × (r ≡ success a) × ((k t a).1 ≡ success b) × ((bind (t, r) k).0 ≡ (k t a).0)
  unfolding bind
  bind_ok t (success a) k b h = (a, refl, h, refl)
  bind_ok t (failure e) k b h = absurd (cc h)

  -- a property of the session that each part keeps
  pub bind_base :
      {C A B : Type 0} (base : Session → C) (t u : Session) (r : Fallible A)
      (k : Session → A → Session × Fallible B)
      → base t ≡ base u
      → ((a : A) → base (k t a).0 ≡ base t)
      → base (bind (t, r) k).0 ≡ base u
  unfolding bind
  bind_base base t u (success a) k e h = h a ∙ e
  bind_base base t u (failure f) k e h = e

module _ {A : Type 0} (message : String) where
  pub or_io_ok : (r : Reply A) (a : A) → or_io message r ≡ success a → r ≡ done a
  or_io_ok (done b) a h = cc h
  or_io_ok (refused e) a h = absurd (cc h)

  pub option_io_ok : (r : Option A) (a : A) → option_io message r ≡ success a → r ≡ some a
  option_io_ok none a h = absurd (cc h)
  option_io_ok (some b) a h = cc h

  pub unless_refused_ok :
      (r : Reply (Unit {0})) (a b : A)
      → unless_refused message a r ≡ success b
      → (r ≡ done tt) × (a ≡ b)
  unless_refused_ok (done u) a b h = (refl, cc h)
  unless_refused_ok (refused e) a b h = absurd (cc h)

-- A database whose commits are atomic: `base` is what it held when the transaction began, `seen` what
-- the transaction sees.
pub record IsTransactional {Db Session C : Type 0} (abort : Session → Db)
    (commit : Session → Db × Reply (Unit {0})) (contents : Db → C) (base seen : Session → C)
    : Type 0 where
  pub aborted : (t : Session) → contents (abort t) ≡ base t
  pub commit_done : (t : Session) → (commit t).1 ≡ done tt → contents (commit t).0 ≡ seen t
  -- a commit whose answer is lost may have taken place
  pub commit_refused :
      (t : Session) (message : String)
      → (commit t).1 ≡ refused message
      → (contents (commit t).0 ≡ base t) ⊎ (contents (commit t).0 ≡ seen t)

module _ {Db Session C E : Type 0} (abort : Session → Db) (commit : Session → Db × Reply (Unit {0}))
    (contents : Db → C) (base seen : Session → C)
    (transactional : IsTransactional abort commit contents base seen) (message : String) where
  pub committed-IsAtomic :
      (Done : E → C → Type 0) (c : C) (result : Session × Fallible E)
      → base result.0 ≡ c
      → ((e : E) → result.1 ≡ success e → Done e (seen result.0))
      → let after = committed abort commit message result in
        IsAtomic Done c (contents after.0) after.1
  committed-IsAtomic Done c (t, failure f) kept does = inl (transactional.aborted t ∙ kept)
  committed-IsAtomic Done c (t, success e) kept does = answered (commit t).1 refl
    where
      answered :
          (r : Reply (Unit {0}))
          → (commit t).1 ≡ r
          → IsAtomic Done c (contents (commit t).0) (unless_refused message e r)
      answered (done u) q = subst (Done e) (sym (transactional.commit_done t q)) (does e refl)
      answered (refused m) q = elim (transactional.commit_refused t m q) [
        | inl lost ↦ inl (lost ∙ kept)
        | inr stored ↦ inr (e, subst (Done e) (sym stored) (does e refl))
      ]

-- What the success of a transaction keeps, the transaction keeps.
pub IsAtomic_keeps :
    {C E : Type 0} (Done : E → C → Type 0) (P : C → Type 0) (c c' : C) (r : Fallible E)
    → P c
    → ((e : E) (d : C) → Done e d → P d)
    → IsAtomic Done c c' r
    → P c'
IsAtomic_keeps Done P c c' (success e) h keeps d = keeps e c' d
IsAtomic_keeps Done P c c' (failure f) h keeps (inl same) = subst P (sym same) h
IsAtomic_keeps Done P c c' (failure f) h keeps (inr (e, d)) = keeps e c' d
