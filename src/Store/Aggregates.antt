-- ===== src/Store/Aggregates.antt =====
-- The part of `rehydrate` that rust-app/src/mongodb/event_store.rs and
-- rust-app/src/postgres/event_store.rs share: an event goes through the upcasters and then into the
-- aggregate.
use event_sourcing_testbed.Common.{
  ℕ, ◌≡◌, refl, String, Option, none, some, List, [], ◌∷◌, Option-cases, inl, inr,
}
use mathlib.Core.List.{filter_map}
use event_sourcing_testbed.Events.{UpcastResult, migrated, unrecognised}
use event_sourcing_testbed.Upcast.{UpcastRegistry, upcast}
use event_sourcing_testbed.Upcast.Chain.{event_of, upcast_total}

-- the trait `Aggregate`; `from_value` is that of its event type
pub record Aggregate (Json : Type 0) : Type 1 where
  pub State : Type 0
  pub Event : Type 0
  pub default : State
  pub apply : State → Event → State
  pub from_value : Json → Option Event

-- `tag` sets the field `event_type` if it is not there.
module _ {Json : Type 0} (aggregate : Aggregate Json) (reg : UpcastRegistry Json)
    (tag : String → Json → Json) where
  open aggregate use {State, Event, apply, from_value}

  -- an event that the aggregate does not know is skipped
  abbrev pub absorbed : State → Option Event → State
  absorbed state none = state
  absorbed state (some ev) = apply state ev

  abbrev pub absorb : State → String → Option (UpcastResult Json) → Option State
  absorb state event_type none = none
  absorb state event_type (some (UpcastResult.current v)) =
      some (absorbed state (from_value (tag event_type v)))
  absorb state event_type (some (migrated from v)) =
      some (absorbed state (from_value (tag event_type v)))
  absorb state event_type (some (unrecognised v)) = some state

  -- what is done with an event; `none`, for a chain of upcasters out of fuel, does not occur
  unfoldable pub apply_event : State → String → ℕ → Json → Option State
  apply_event state event_type schema_version payload =
      absorb state event_type (upcast reg event_type schema_version payload)

  abbrev pub event_of_result : String → Option (UpcastResult Json) → Option Event
  event_of_result event_type none = none
  event_of_result event_type (some r) = from_value (tag event_type (event_of r))

  -- the event that a stored payload stands for, at the version that its upcasters reach
  unfoldable pub event_at : String → ℕ → Json → Option Event
  event_at event_type schema_version payload =
      event_of_result event_type (upcast reg event_type schema_version payload)

  abbrev pub fold : State → List Event → State
  fold state [] = state
  fold state (e ∷ es) = fold (apply state e) es

  absorb_total :
      (state : State) (t : String) (r : UpcastResult Json)
      → ((q : Json) → r ≡ unrecognised q → ⊥)
      → absorb state t (some r) ≡ some (absorbed state (from_value (tag t (event_of r))))
  absorb_total state t (UpcastResult.current v) known = refl
  absorb_total state t (migrated from v) known = refl
  absorb_total state t (unrecognised v) known = absurd (known v refl)

  absorb_lem :
      (state : State) (t : String) (o : Option (UpcastResult Json)) (r : UpcastResult Json)
      → o ≡ some r
      → ((q : Json) → r ≡ unrecognised q → ⊥)
      → absorb state t o ≡ some (absorbed state (event_of_result t o))
  absorb_lem state t o r up known = rw up (absorb_total state t r known)

  pub apply_event_lem :
      (state : State) (t : String) (v : ℕ) (p : Json)
      → apply_event state t v p ≡ some (absorbed state (event_at t v p))
  unfolding apply_event event_at
  apply_event_lem state t v p =
      let (r, up, known) = upcast_total reg t v p in absorb_lem state t _ r up known

  -- one event more at the front of those to fold
  pub fold-absorbed :
      {A : Type 0} (f : A → Option Event) (a : A) (rest : List A) (state : State)
      → fold (absorbed state (f a)) (filter_map f rest) ≡ fold state (filter_map f (a ∷ rest))
  unfolding filter_map
  fold-absorbed f a rest state = elim (Option-cases (f a)) [
    | inl skip ↦ rw skip refl
    | inr (ev, hit) ↦ rw hit refl
  ]
