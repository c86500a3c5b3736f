-- ===== src/Inventory/Replay.antt =====
-- What replaying the events of rust-app/src/kurrentdb/snapshot_demo.rs computes.
use event_sourcing_testbed.Common.{
  ℕ, suc, ◌+◌, ◌^◌, ◌<◌, ◌≡◌, refl, String, List, [], ◌∷◌, ◌++◌, Option, arith, str_eq, add64,
  if◌then◌else◌, Bool, Bool-cases, inl, inr, subst, sym, eq_iff, true,
}
use event_sourcing_testbed.Inventory.{InventoryState, counted, apply, apply_all, stock_of, state_eq}

pub state_eq_refl : (a : InventoryState) → state_eq a a ≡ true
unfolding state_eq
state_eq_refl a = ground arith

-- The comparison of two states by `==` answers true exactly when they are equal.
pub state_eq_sound : (a b : InventoryState) → state_eq a b ≡ true → a ≡ b
unfolding state_eq
state_eq_sound a b h = ground arith

module _ {Value : Type 0} (quantity : Value → Option ℕ) where
  -- Replaying two runs of events one after the other is replaying their concatenation.
  pub apply_all-append :
      (s : InventoryState) (xs ys : List (String × ℕ × Value))
      → apply_all quantity s (xs ++ ys) ≡ apply_all quantity (apply_all quantity s xs) ys
  unfolding apply_all
  apply_all-append s [] ys = refl
  apply_all-append s ((t, r, v) ∷ xs) ys = apply_all-append (apply quantity s t v r) xs ys

  -- What a list of events adds to a count: how many have the type `t`.
  pub count_type : String → List (String × ℕ × Value) → ℕ
  count_type t [] = 0
  count_type t ((event_type, revision, payload) ∷ events) =
      if str_eq event_type t then suc (count_type t events) else count_type t events

  -- The units that the events of type `t` carry.
  pub units : String → List (String × ℕ × Value) → ℕ
  units t [] = 0
  units t ((event_type, revision, payload) ∷ events) =
      if str_eq event_type t then stock_of (quantity payload) + units t events else units t events

  -- `at_revision` is the revision of the last event.
  abbrev pub last_revision : ℕ → List (String × ℕ × Value) → ℕ
  last_revision r [] = r
  last_revision r ((event_type, revision, payload) ∷ events) = last_revision revision events

  abbrev when : Bool → ℕ → ℕ
  when b n = if b then n else 0

  -- one event, of type `t`
  abbrev Counted : InventoryState → String → Value → Type 0
  Counted s t v =
      let s' = counted quantity s t v in
      (add64 s'.total_stock (when (str_eq t "ItemRemoved") (stock_of (quantity v)))
        ≡ add64 s.total_stock (when (str_eq t "ItemAdded") (stock_of (quantity v))))
      × (s'.total_added ≡ add64 s.total_added (when (str_eq t "ItemAdded") 1))
      × (s'.total_price_updates
          ≡ add64 s.total_price_updates (when (str_eq t "ItemPriceUpdated") 1))
      × (s'.total_removals ≡ add64 s.total_removals (when (str_eq t "ItemRemoved") 1))

  -- the fields are `u64` and `i64`
  pub record IsWord (s : InventoryState) : Type 0 where
    pub stock : s.total_stock < 2 ^ 64
    pub added : s.total_added < 2 ^ 64
    pub price_updates : s.total_price_updates < 2 ^ 64
    pub removals : s.total_removals < 2 ^ 64

  counted_lem : (s : InventoryState) (t : String) (v : Value) → IsWord s → Counted s t v
  unfolding counted
  counted_lem s t v w = elim (Bool-cases (str_eq t "ItemAdded")) [
    | inl e ↦ subst (λ t. Counted s t v) (sym ((eq_iff t _).0 e)) (ground arith)
    | inr n1 ↦ elim (Bool-cases (str_eq t "ItemPriceUpdated")) [
      | inl e ↦ subst (λ t. Counted s t v) (sym ((eq_iff t _).0 e)) (ground arith)
      | inr n2 ↦ elim (Bool-cases (str_eq t "ItemRemoved")) [
        | inl e ↦ subst (λ t. Counted s t v) (sym ((eq_iff t _).0 e)) (ground arith)
        | inr n3 ↦ rw (n1, n2, n3) (ground arith)
      ]
    ]
  ]

  counted-IsWord :
      (s : InventoryState) (t : String) (v : Value) → IsWord s → IsWord (counted quantity s t v)
  unfolding counted
  counted-IsWord s t v w = ground arith

  apply-IsWord :
      (s : InventoryState) (t : String) (v : Value) (r : ℕ)
      → IsWord s
      → IsWord (apply quantity s t v r)
  unfolding apply
  apply-IsWord s t v r w =
      let c = counted-IsWord s t v w in
      record {
        stock = c.stock;
        added = c.added;
        price_updates = c.price_updates;
        removals = c.removals;
      }

  -- After a replay each counter has grown by the number of its events, the stock is the units added
  -- less the units removed (all modulo 2 ^ 64), and `at_revision` is the last event's revision.
  pub apply_all_counts :
      (s : InventoryState) (events : List (String × ℕ × Value))
      → IsWord s
      → let s' = apply_all quantity s events in
        (add64 s'.total_stock (units "ItemRemoved" events)
          ≡ add64 s.total_stock (units "ItemAdded" events))
        × (s'.total_added ≡ add64 s.total_added (count_type "ItemAdded" events))
        × (s'.total_price_updates
            ≡ add64 s.total_price_updates (count_type "ItemPriceUpdated" events))
        × (s'.total_removals ≡ add64 s.total_removals (count_type "ItemRemoved" events))
        × (s'.at_revision ≡ last_revision s.at_revision events)
  unfolding apply_all units count_type apply
  apply_all_counts s [] w = (ground arith, ground arith, ground arith, ground arith, refl)
  apply_all_counts s ((t, r, v) ∷ events) w =
      let s' = apply quantity s t v r in
      let one = counted_lem s t v w in
      let rest = apply_all_counts s' events (apply-IsWord s t v r w) in
      (
        ground (arith, one, rest),
        ground (arith, one, rest),
        ground (arith, one, rest),
        ground (arith, one, rest),
        rest.4,
      )
