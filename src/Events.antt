-- ===== src/Events.antt =====
-- rust-app/src/events.rs: schema versions, the upcaster's verdicts, the domain events and the
-- benchmark payload. Times (`chrono`) and identifiers (`uuid`) are texts or numbers of the caller.
use event_sourcing_testbed.Common.{ℕ, zero, suc, max, String, List, [], ◌∷◌}

pub record SchemaVersion : Type 0 where
  pub version : ℕ

abbrev pub default_schema_version : SchemaVersion
default_schema_version = record { version = 1 }

-- The program uses it at `T` = `serde_json::Value`, the type that `Unrecognised` carries.
pub data UpcastResult {ℓ} (T : Type ℓ) : Type ℓ where
  current : T → UpcastResult T
  migrated : SchemaVersion → T → UpcastResult T
  unrecognised : T → UpcastResult T

-- `price_usd` is an `f64`: its type is a parameter.
pub record OrderPlaced (Price : Type 0) : Type 0 where
  pub order_id : String
  pub product_id : String
  pub quantity : ℕ
  pub price_usd : Price
  pub placed_at : ℕ
  pub schema_version : SchemaVersion

pub record OrderCancelled : Type 0 where
  pub order_id : String
  pub reason : String
  pub cancelled_at : ℕ
  pub schema_version : SchemaVersion

pub data DomainEvent (Price : Type 0) : Type 0 where
  order_placed : OrderPlaced Price → DomainEvent Price
  order_cancelled : OrderCancelled → DomainEvent Price

pub record BenchmarkEvent : Type 0 where
  pub seq : ℕ
  pub task_id : ℕ
  pub payload : List ℕ
  pub created_at : ℕ

abbrev replicate {ℓ} : {A : Type ℓ} → ℕ → A → List A
replicate zero a = []
replicate (suc n) a = a ∷ replicate n a

-- `now` is what `Utc::now()` reads.
unfoldable pub new_with_payload : ℕ → ℕ → ℕ → ℕ → BenchmarkEvent
new_with_payload now seq task_id payload_bytes = record {
  seq = seq;
  task_id = task_id;
  payload = replicate (max payload_bytes 1) 0xAB;
  created_at = now;
}

unfoldable pub new : ℕ → ℕ → ℕ → BenchmarkEvent
unfolding new_with_payload
new now seq task_id = new_with_payload now seq task_id 256
