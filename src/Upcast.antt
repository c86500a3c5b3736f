-- ===== src/Upcast.antt =====
-- `UpcastRegistry` of rust-app/src/mongodb/event_store.rs (rust-app/src/postgres/event_store.rs
-- has the same text). The payload type is a parameter: `serde_json::Value` is not the program's.
-- The two hash maps are functions. Versions are `u32`; a release build wraps `from_version + 1`.
pub mod Chain
pub mod Registration
use event_sourcing_testbed.Common.{
  ℕ, zero, suc, ◌+◌, ◌-◌, ◌%◌, ◌^◌, max, String, ◌==◌, str_eq, ◌&&◌, Option, none, some, ltb, leb,
  if◌then◌else◌, put, Dict, empty_dict,
}
use event_sourcing_testbed.Events.{SchemaVersion, UpcastResult, current, migrated}

pub record UpcastRegistry (J : Type 0) : Type 0 where
  pub fns : String → ℕ → Option (J → J)
  pub current : Dict ℕ

-- `entry(t).and_modify(|v| *v = (*v).max(new_ver)).or_insert(new_ver)`
abbrev pub raise : Option ℕ → ℕ → ℕ
raise none new_ver = new_ver
raise (some v) new_ver = max v new_ver

-- `*self.current.get(event_type).unwrap_or(&stored_version)`
abbrev pub target_of : Option ℕ → ℕ → ℕ
target_of none stored_version = stored_version
target_of (some t) stored_version = t

module _ {J : Type 0} where
  abbrev pub new : UpcastRegistry J
  new = record { fns = λ t v. none; current = empty_dict }

  unfoldable pub register : String → ℕ → (J → J) → UpcastRegistry J → UpcastRegistry J
  register event_type from_version f reg =
      let new_ver = (from_version + 1) % 2 ^ 32 in
      record {
        fns = λ t v. if str_eq event_type t && (from_version == v) then some f else reg.fns t v;
        current = put reg.current event_type (raise (reg.current event_type) new_ver);
      }

  -- `while ver < target`, with fuel: `none` means that the fuel ran out.
  pub climb : ℕ → (ℕ → Option (J → J)) → ℕ → ℕ → J → Option (ℕ × J)
  climb zero fns target ver v = none
  climb (suc fuel) fns target ver v =
      if ltb ver target
      then elim (fns ver) [ none ↦ some (ver, v) | some f ↦ climb fuel fns target (ver + 1) (f v) ]
      else some (ver, v)

  pub upcast : UpcastRegistry J → String → ℕ → J → Option (UpcastResult J)
  upcast reg event_type stored_version payload =
      let target = target_of (reg.current event_type) stored_version in
      if leb target stored_version
      then some (UpcastResult.current payload)
      else elim (climb (suc (target - stored_version)) (reg.fns event_type) target stored_version
          payload) [
            | none ↦ none
            | some (ver, v) ↦ some (migrated (record { version = stored_version }) v)
          ]
