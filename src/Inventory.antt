-- ===== src/Inventory.antt =====
-- The aggregate of rust-app/src/kurrentdb/snapshot_demo.rs: the three domain events, and
-- `InventoryState` with its `apply`. `total_stock` is an `i64`, kept as its bit pattern, so that the
-- casts and the wrap-around of a release build are those of the program. Prices (`f64`) are a
-- parameter.
pub mod Replay
use event_sourcing_testbed.Common.{
  ℕ, ◌-◌, ◌^◌, ◌%◌, ◌==◌, ◌&&◌, String, List, [], ◌∷◌, Option, none, some, Bool, add64, sub64,
  str_eq, if◌then◌else◌,
}

pub record ItemAdded (Price : Type 0) : Type 0 where
  pub item_id : String
  pub sku : String
  pub quantity : ℕ
  pub unit_price_usd : Price
  pub added_at : ℕ

pub record ItemPriceUpdated (Price : Type 0) : Type 0 where
  pub item_id : String
  pub old_price_usd : Price
  pub new_price_usd : Price
  pub updated_at : ℕ

pub record ItemRemoved : Type 0 where
  pub item_id : String
  pub quantity : ℕ
  pub reason : String
  pub removed_at : ℕ

pub record InventoryState : Type 0 where
  pub total_stock : ℕ
  pub total_added : ℕ
  pub total_price_updates : ℕ
  pub total_removals : ℕ
  pub at_revision : ℕ

-- `InventoryState { at_revision: u64::MAX, ..Default::default() }`
abbrev pub initial : InventoryState
initial = record {
  total_stock = 0;
  total_added = 0;
  total_price_updates = 0;
  total_removals = 0;
  at_revision = 2 ^ 64 - 1;
}

-- `payload["quantity"].as_u64().unwrap_or(0) as i64`
abbrev pub stock_of : Option ℕ → ℕ
stock_of none = 0
stock_of (some q) = q % 2 ^ 64

-- `PartialEq`
unfoldable pub state_eq : InventoryState → InventoryState → Bool
state_eq a b =
    (a.total_stock == b.total_stock)
    && (a.total_added == b.total_added)
    && (a.total_price_updates == b.total_price_updates)
    && (a.total_removals == b.total_removals)
    && (a.at_revision == b.at_revision)

pub record SnapshotEnvelope : Type 0 where
  pub state : InventoryState
  pub at_stream_revision : ℕ
  pub taken_at : ℕ

module _ {Value : Type 0} (quantity : Value → Option ℕ) where
  -- the `match` of `apply`; an unknown event type is skipped
  unfoldable pub counted : InventoryState → String → Value → InventoryState
  counted s event_type payload =
      if str_eq event_type "ItemAdded"
      then record s {
        total_stock = add64 s.total_stock (stock_of (quantity payload));
        total_added = add64 s.total_added 1;
      }
      else if str_eq event_type "ItemPriceUpdated"
      then record s { total_price_updates = add64 s.total_price_updates 1 }
      else if str_eq event_type "ItemRemoved"
      then record s {
        total_stock = sub64 s.total_stock (stock_of (quantity payload));
        total_removals = add64 s.total_removals 1;
      }
      else s

  unfoldable pub apply : InventoryState → String → Value → ℕ → InventoryState
  apply s event_type payload revision = record (counted s event_type payload) {
    at_revision = revision;
  }

  -- `for (event_type, revision, payload) in &events { state.apply(...) }`
  unfoldable pub apply_all : InventoryState → List (String × ℕ × Value) → InventoryState
  apply_all s [] = s
  apply_all s ((event_type, revision, payload) ∷ events) =
      apply_all (apply s event_type payload revision) events
