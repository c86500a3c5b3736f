-- ===== src/Snapshot/Windows.antt =====
-- One window of rust-app/src/kurrentdb/snapshot_demo.rs: what the program folds from its log is what
-- the server stores.
use event_sourcing_testbed.Common.{
  ℕ, zero, suc, ◌+◌, ◌%◌, ◌^◌, ◌<◌, ◌≡◌, ◌==◌, refl, sym, ap, subst, ◌∙◌, inl, inr, Bool-cases,
  String, List, [], ◌∷◌, map, some, arith, length, add64, All,
}
use event_sourcing_testbed.Common.Result.{Result, ok, >>=-eq-ok}
use event_sourcing_testbed.Kurrent.Driver.{Api, Reply, done, refused, number}
use event_sourcing_testbed.Kurrent.{triple}
use event_sourcing_testbed.Inventory.{
  ItemAdded, ItemPriceUpdated, ItemRemoved, InventoryState, counted, apply, apply_all,
}
use event_sourcing_testbed.Snapshot.Codec.{Inputs, IsFaithful}
use event_sourcing_testbed.Snapshot.{Pending, pending, event_at, window, batch, fold}

ok_injective : {A : Type 0} {a b : A} → ◌≡◌ {A = Result A} (ok a) (ok b) → a ≡ b
ok_injective h = cc h

module _ (api : Api) (inputs : Inputs api) (stream_name snapshot_stream : String) where
  -- the logged payload has the effect of the stored one
  abbrev pub Agrees : Pending api inputs stream_name snapshot_stream → Type 0
  Agrees p =
      (p.log_type ≡ p.sent.event_type)
      × (v : api.Value) × (api.from_slice p.sent.data' ≡ some v)
      × ((s : InventoryState) (r : ℕ)
          → apply inputs.quantity s p.log_type p.log_payload r
            ≡ apply inputs.quantity s p.log_type v r)

  same_quantity :
      (s : InventoryState) (t : String) (v v' : api.Value) (r : ℕ)
      → inputs.quantity v ≡ inputs.quantity v'
      → apply inputs.quantity s t v r ≡ apply inputs.quantity s t v' r
  unfolding apply counted
  same_quantity s t v v' r h = rw h

  module _ (faithful : IsFaithful inputs) where
    added-Agrees :
        (e : ItemAdded inputs.Price) (r : Reply api.Data)
        (p : Pending api inputs stream_name snapshot_stream)
        → inputs.added e ≡ r
        → pending api inputs stream_name snapshot_stream "ItemAdded" r
            (inputs.json_quantity e.quantity)
          ≡ ok p
        → Agrees p
    unfolding pending
    added-Agrees e (refused f) p encoded h = absurd (cc h)
    added-Agrees e (done d) p encoded h =
        let (v, stored, q) = faithful.added e d encoded in
        let same = ok_injective h in
        subst Agrees same (
          refl,
          v,
          stored,
          λ s r. same_quantity s _ _ _ r (faithful.json_quantity e.quantity ∙ sym q),
        )

    removed-Agrees :
        (e : ItemRemoved) (r : Reply api.Data) (p : Pending api inputs stream_name snapshot_stream)
        → inputs.removed e ≡ r
        → pending api inputs stream_name snapshot_stream "ItemRemoved" r
            (inputs.json_quantity e.quantity)
          ≡ ok p
        → Agrees p
    unfolding pending
    removed-Agrees e (refused f) p encoded h = absurd (cc h)
    removed-Agrees e (done d) p encoded h =
        let (v, stored, q) = faithful.removed e d encoded in
        let same = ok_injective h in
        subst Agrees same (
          refl,
          v,
          stored,
          λ s r. same_quantity s _ _ _ r (faithful.json_quantity e.quantity ∙ sym q),
        )

    price_updated-Agrees :
        (e : ItemPriceUpdated inputs.Price) (r : Reply api.Data)
        (p : Pending api inputs stream_name snapshot_stream)
        → inputs.price_updated e ≡ r
        → pending api inputs stream_name snapshot_stream "ItemPriceUpdated" r inputs.json_empty
          ≡ ok p
        → Agrees p
    unfolding pending apply counted
    price_updated-Agrees e (refused f) p encoded h = absurd (cc h)
    price_updated-Agrees e (done d) p encoded h =
        let (v, stored) = faithful.price_updated e d encoded in
        let same = ok_injective h in subst Agrees same (refl, v, stored, λ s r. refl)

    event_at-Agrees :
        (i : ℕ) (p : Pending api inputs stream_name snapshot_stream)
        → event_at api inputs stream_name snapshot_stream i ≡ ok p
        → Agrees p
    unfolding event_at
    event_at-Agrees i p h = elim (Bool-cases (i % 3 == 0)) [
      | inl e ↦ added-Agrees _ _ p refl (rw e at h)
      | inr n ↦ elim (Bool-cases (i % 3 == 1)) [
        | inl e ↦ price_updated-Agrees _ _ p refl (rw (n, e) at h)
        | inr m ↦ removed-Agrees _ _ p refl (rw (n, m) at h)
      ]
    ]

    -- the events of a window, if each is encoded
    pub window-Agrees :
        (seq n : ℕ) (ps : List (Pending api inputs stream_name snapshot_stream))
        → window api inputs stream_name snapshot_stream seq n ≡ ok ps
        → (length ps ≡ n) × All Agrees ps
    unfolding window
    window-Agrees seq zero [] h = (refl, tt)
    window-Agrees seq zero (p ∷ ps) h = absurd (cc h)
    window-Agrees seq (suc n) ps h =
        let (p, first, h') = >>=-eq-ok (event_at api inputs stream_name snapshot_stream seq) _ h in
        let (rest, others, made) =
          >>=-eq-ok (window api inputs stream_name snapshot_stream (seq + 1) n) _ h' in
        let (size, agree) = window-Agrees (seq + 1) n rest others in
        subst (λ l. (length l ≡ suc n) × All Agrees l) (ok_injective made)
          (ap suc size, (event_at-Agrees seq p first, agree))

  -- folding the log is replaying the stored events
  pub fold-replay :
      (s : InventoryState) (k : ℕ) (ps : List (Pending api inputs stream_name snapshot_stream))
      → k + length ps < 2 ^ 64
      → All Agrees ps
      → fold api inputs stream_name snapshot_stream s k ps
        ≡ apply_all inputs.quantity s
            (map (triple api) (number k (batch api inputs stream_name snapshot_stream ps)))
  unfolding fold apply_all
  fold-replay s k [] lt agree = refl
  fold-replay s k (p ∷ ps) lt ((t, v, stored, same), rest) =
      let next : add64 k 1 ≡ suc k = omega arith in
      rw (next, stored, ← t, same s k)
        (fold-replay (apply inputs.quantity s p.log_type v k) (suc k) ps (omega arith) rest)
