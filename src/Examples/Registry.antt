-- ===== src/Examples/Registry.antt =====
-- A registry of two upcasters.
use event_sourcing_testbed.Common.{ℕ, ◌+◌, ◌≡◌, ◌≢◌, ◌≤◌, ◌<◌, refl, inl, some, arith}
use native.Mathlib.Decide.{ℕ_discrete}
use event_sourcing_testbed.Events.{UpcastResult, migrated, unrecognised}
use event_sourcing_testbed.Upcast.{UpcastRegistry, new, register, upcast}
use event_sourcing_testbed.Upcast.Chain.{compose, upcast_total, upcast-compose}
use event_sourcing_testbed.Upcast.Registration.{
  IsCovered, new-IsCovered, register-IsCovered, upcast-register,
}

-- the upcaster from version `v` adds `v`
abbrev add : ℕ → ℕ → ℕ
add v n = n + v

abbrev registry : UpcastRegistry ℕ
registry = register "OrderPlaced" 1 (add 1) new

registry_fns : (i : ℕ) → 1 ≤ i → i < 2 → registry.fns "OrderPlaced" i ≡ some (add i)
unfolding register
registry_fns i lo hi = let one : i ≡ 1 = omega (arith, lo, hi) in rw one refl

upcast_total_example :
    (r : UpcastResult ℕ) × (upcast registry "OrderPlaced" 1 5 ≡ some r)
    × ((q : ℕ) → r ≢ unrecognised q)
upcast_total_example = upcast_total registry "OrderPlaced" 1 5

upcast-compose_example :
    upcast registry "OrderPlaced" 1 5 ≡ some (migrated (record { version = 1 }) (compose add 1 1 5))
unfolding register
upcast-compose_example =
    upcast-compose registry "OrderPlaced" add 1 1 2 2 5 refl (omega arith) (omega arith)
      (omega arith) registry_fns (inl refl)

-- The upcaster of version 2 is there first; that of version 1 then closes the gap.
abbrev late : UpcastRegistry ℕ
late = register "OrderPlaced" 2 (add 2) new

late_fns : (i : ℕ) → 1 ≤ i → i < 3 → 1 ≢ i → late.fns "OrderPlaced" i ≡ some (add i)
unfolding register
late_fns i lo hi differ = elim (ℕ_discrete 1 i) [
  | yes one ↦ absurd (differ one)
  | no other ↦ let two : i ≡ 2 = ground (arith, lo, hi, other) in rw two refl
]

upcast-register_example :
    upcast (register "OrderPlaced" 1 (add 1) late) "OrderPlaced" 1 5
    ≡ some (migrated (record { version = 1 }) (compose add 1 2 5))
unfolding register
upcast-register_example = upcast-register late "OrderPlaced" add 1 1 1 5 (omega arith) refl late_fns

register-IsCovered_example : IsCovered (register "OrderPlaced" 1 (add 1) new)
register-IsCovered_example =
    register-IsCovered new "OrderPlaced" 1 (add 1) (omega arith) new-IsCovered
