-- ===== src/Snapshot/Codec.antt =====
-- What `run` of rust-app/src/kurrentdb/snapshot_demo.rs takes from outside: the random quantities,
-- the identifiers, the clock, the prices, and the JSON encodings of `serde`.
use event_sourcing_testbed.Common.{ℕ, ◌≡◌, String, Option, some}
use event_sourcing_testbed.Kurrent.Driver.{Api, Reply, done}
use event_sourcing_testbed.Inventory.{ItemAdded, ItemPriceUpdated, ItemRemoved, SnapshotEnvelope}

pub record Inputs (api : Api) : Type 1 where
  pub Price : Type 0
  -- `payload["quantity"].as_u64()`
  pub quantity : api.Value → Option ℕ
  -- `json!({"quantity": qty})` and `json!({})`
  pub json_quantity : ℕ → api.Value
  pub json_empty : api.Value
  -- `EventData::json`
  pub added : ItemAdded Price → Reply api.Data
  pub price_updated : ItemPriceUpdated Price → Reply api.Data
  pub removed : ItemRemoved → Reply api.Data
  pub encode_snapshot : SnapshotEnvelope → Option api.Data
  pub decode_snapshot : api.Value → Option SnapshotEnvelope
  pub draw : ℕ → ℕ
  pub item_id : ℕ → String
  pub sku : ℕ → String
  pub price : ℕ → Price
  pub raised_price : Price → Price
  pub clock : ℕ → ℕ

-- What `serde_json` promises of these encodings.
pub record IsFaithful {api : Api} (inputs : Inputs api) : Type 0 where
  pub json_quantity : (q : ℕ) → inputs.quantity (inputs.json_quantity q) ≡ some q
  pub added :
      (e : ItemAdded inputs.Price) (d : api.Data)
      → inputs.added e ≡ done d
      → (v : api.Value) × (api.from_slice d ≡ some v) × (inputs.quantity v ≡ some e.quantity)
  pub price_updated :
      (e : ItemPriceUpdated inputs.Price) (d : api.Data)
      → inputs.price_updated e ≡ done d
      → (v : api.Value) × (api.from_slice d ≡ some v)
  pub removed :
      (e : ItemRemoved) (d : api.Data)
      → inputs.removed e ≡ done d
      → (v : api.Value) × (api.from_slice d ≡ some v) × (inputs.quantity v ≡ some e.quantity)
  pub snapshot :
      (e : SnapshotEnvelope) (d : api.Data)
      → inputs.encode_snapshot e ≡ some d
      → (v : api.Value) × (api.from_slice d ≡ some v) × (inputs.decode_snapshot v ≡ some e)
