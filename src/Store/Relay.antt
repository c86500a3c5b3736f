-- ===== src/Store/Relay.antt =====
-- The integration outbox as a specification, and the relay loop that
-- rust-app/src/mongodb/event_store.rs and rust-app/src/postgres/event_store.rs share. What a relay
-- is, each file says for itself.
pub mod Delivery
pub mod Loop
use event_sourcing_testbed.Common.{
  ℕ, zero, suc, ◌+◌, ◌-◌, ◌<◌, ◌≤◌, ◌≡◌, refl, sym, ap, subst, ◌∙◌, ◌⊎◌, inl, inr, String, str_eq,
  eq_iff, eq_refl, List, [], ◌∷◌, ◌++◌, Bool, true, false, Bool-cases, if◌then◌else◌, arith, length,
  All,
}
use event_sourcing_testbed.Common.Result.{Result, ok, err}

-- The outbox, oldest entry first, each with whether it is marked as dispatched; and what the broker
-- has been given.
pub record Outbox : Type 0 where
  pub entries : List (String × Bool)
  pub published : List String

-- `SET dispatched = TRUE WHERE event_id = id`
abbrev pub mark : String → List (String × Bool) → List (String × Bool)
mark id [] = []
mark id ((k, d) ∷ es) = let rest = mark id es in (k, if str_eq k id then true else d) ∷ rest

-- the entries that are not dispatched
abbrev pub pending : List (String × Bool) → List String
pending [] = []
pending ((k, d) ∷ es) = let rest = pending es in if d then rest else k ∷ rest

abbrev pub IsIn : String → List String → Type 0
IsIn id [] = ⊥
IsIn id (k ∷ ks) = (k ≡ id) ⊎ IsIn id ks

abbrev pub sent : Outbox → String → Outbox
sent s id = record s { published = s.published ++ id ∷ [] }

abbrev pub dispatched : Outbox → String → Outbox
dispatched s id = record s { entries = mark id s.entries; published = s.published ++ id ∷ [] }

-- What a relay may do, by its answer: publish a pending entry and mark it; find none; or, on an
-- error, nothing, or publish a pending entry that it leaves pending, or do it all by a mark whose
-- answer was lost.
abbrev pub Relayed : Outbox → Outbox → Result Bool → Type 0
Relayed s s' (ok true) = (id : String) × IsIn id (pending s.entries) × (s' ≡ dispatched s id)
Relayed s s' (ok false) = (pending s.entries ≡ []) × (s' ≡ s)
Relayed s s' (err e) =
    (s' ≡ s)
    ⊎ ((id : String) × IsIn id (pending s.entries) × (s' ≡ sent s id))
    ⊎ ((id : String) × IsIn id (pending s.entries) × (s' ≡ dispatched s id))

-- Every dispatched entry has been given to the broker.
abbrev pub IsDelivered : Outbox → Type 0
IsDelivered s = All (λ (e : String × Bool). (e.1 ≡ false) ⊎ IsIn e.0 s.published) s.entries
