-- ===== src/Upcast/Registration.antt =====
-- What `register` promises `upcast`: every registered function lies below the version that its
-- event type is brought to.
use event_sourcing_testbed.Common.{
  ℕ, ◌+◌, ◌^◌, ◌≤◌, ◌<◌, ◌≡◌, ◌≢◌, refl, Option, some, String, arith, eq_iff, eq_refl, suc, ◌∙◌, ap,
  subst, str_eq, ◌%◌, true, inl, inr, Bool-cases, ◌==◌,
}
use mathlib.Core.Path.{fun_ext}
use native.Mathlib.Decide.{ℕ_discrete}
use event_sourcing_testbed.Events.{migrated}
use event_sourcing_testbed.Upcast.{UpcastRegistry, new, register, upcast, raise}
use event_sourcing_testbed.Upcast.Chain.{compose, upcast-compose}

raise_small :
    (o : Option ℕ) (from : ℕ)
    → from + 1 < 2 ^ 32
    → raise o ((from + 1) % 2 ^ 32) ≡ raise o (from + 1)
raise_small o from small =
    let same : (from + 1) % 2 ^ 32 ≡ from + 1 = omega (arith, small) in ap (raise o) same

module _ {J : Type 0} where
  pub record IsCovered (reg : UpcastRegistry J) : Type 0 where
    pub below :
        (t : String) (v : ℕ) (f : J → J)
        → reg.fns t v ≡ some f
        → (target : ℕ) × (reg.current t ≡ some target) × (v < target)

  pub new-IsCovered : IsCovered new
  new-IsCovered = record { below = λ t v f e. cc }

  raised :
      (reg : UpcastRegistry J) (t s : String) (from v : ℕ) (f g : J → J)
      → from + 1 < 2 ^ 32
      → IsCovered reg
      → t ≡ s
      → str_eq t s ≡ true
      → (register t from f reg).fns s v ≡ some g
      → v < raise (reg.current t) ((from + 1) % 2 ^ 32)
  unfolding register
  raised reg t s from v f g small c same test e = elim (Bool-cases (from == v)) [
    | inl hit ↦ ground arith
    | inr miss ↦
        let e' : reg.fns s v ≡ some g = ground (arith, e) in
        let (target, cur, lt) = c.below s v g e' in
        let cur' : reg.current t ≡ some target = rw same cur in ground (arith, cur', lt)
  ]

  -- Registering an upcaster for any version below the last `u32` keeps every registered version
  -- below its event type's current version.
  pub register-IsCovered :
      (reg : UpcastRegistry J) (t : String) (from : ℕ) (f : J → J)
      → from + 1 < 2 ^ 32
      → IsCovered reg
      → IsCovered (register t from f reg)
  unfolding register
  register-IsCovered reg t from f small c = record {
    below = λ s v g e. elim (Bool-cases (str_eq t s)) [
      | inr other ↦
          let e' : reg.fns s v ≡ some g = ground (arith, e, other) in
          let (target, cur, lt) = c.below s v g e' in (target, rw other cur, lt)
      | inl same ↦ (
        raise (reg.current t) ((from + 1) % 2 ^ 32),
        rw same,
        raised reg t s from v f g small c ((eq_iff t s).0 same) same e,
      )
    ];
  }

  fns_self :
      (reg : UpcastRegistry J) (t : String) (from : ℕ) (f : J → J)
      → (register t from f reg).fns t from ≡ some f
  unfolding register
  fns_self reg t from f = ground (arith, eq_refl t)

  fns_ne :
      (reg : UpcastRegistry J) (t : String) (from v : ℕ) (f : J → J)
      → from ≢ v
      → (register t from f reg).fns t v ≡ reg.fns t v
  unfolding register
  fns_ne reg t from v f h = ground arith

  current_self :
      (reg : UpcastRegistry J) (t : String) (from : ℕ) (f : J → J)
      → (register t from f reg).current t ≡ some (raise (reg.current t) ((from + 1) % 2 ^ 32))
  unfolding register
  current_self reg t from f = rw (eq_refl t)

  -- An upcaster may be registered in any order. Let `from` be below the last `u32`, and `target` the
  -- greater one of `from + 1` and the version to which the registry brings the event type. Where the
  -- registry has the functions `g i` of all versions `i` from `stored` up to `target`, other than
  -- `from`, registering `g from` at `from` makes a payload stored at `stored`, below `target`, pass
  -- through all of them in the order of the versions, and the verdict names the stored version.
  pub upcast-register :
      (reg : UpcastRegistry J) (t : String) (g : ℕ → J → J) (from stored n : ℕ) (p : J)
      → from + 1 < 2 ^ 32
      → stored + suc n ≡ raise (reg.current t) (from + 1)
      → ((i : ℕ)
          → stored ≤ i
          → i < raise (reg.current t) (from + 1)
          → from ≢ i
          → reg.fns t i ≡ some (g i))
      → upcast (register t from (g from) reg) t stored p
        ≡ some (migrated (record { version = stored }) (compose g stored (suc n) p))
  upcast-register reg t g from stored n p small e all =
      let target = raise (reg.current t) (from + 1) in
      upcast-compose (register t from (g from) reg) t g stored (suc n) target target p
        (current_self reg t from (g from) ∙ ap some (raise_small (reg.current t) from small))
        (omega (arith, e)) e (omega arith) registered (inl refl)
    where
      registered :
          (i : ℕ)
          → stored ≤ i
          → i < raise (reg.current t) (from + 1)
          → (register t from (g from) reg).fns t i ≡ some (g i)
      registered i lo hi = elim (ℕ_discrete from i) [
        | yes hit ↦
            subst (λ k. (register t from (g from) reg).fns t k ≡ some (g k)) hit
              (fns_self reg t from (g from))
        | no miss ↦ fns_ne reg t from i (g from) miss ∙ all i lo hi miss
      ]

  upcast_congr :
      (a b : UpcastRegistry J) (t : String) (stored : ℕ) (p : J)
      → a.fns t ≡ b.fns t
      → a.current t ≡ b.current t
      → upcast a t stored p ≡ upcast b t stored p
  unfolding upcast
  upcast_congr a b t stored p e h = rw (e, h)

  -- Registering an upcaster for one event type changes no verdict of another.
  pub upcast-register_ne :
      (reg : UpcastRegistry J) (t s : String) (from stored : ℕ) (f : J → J) (p : J)
      → t ≢ s
      → upcast (register t from f reg) s stored p ≡ upcast reg s stored p
  unfolding register
  upcast-register_ne reg t s from stored f p ne = elim (Bool-cases (str_eq t s)) [
    | inl same ↦ absurd (ne ((eq_iff t s).0 same))
    | inr other ↦
        upcast_congr (register t from f reg) reg s stored p (fun_ext λ v. rw other) (rw other)
  ]
