-- ===== src/Store/Relay/Delivery.antt =====
-- No entry of the outbox is marked before the broker has it.
use event_sourcing_testbed.Common.{
  ◌≡◌, refl, sym, subst, ◌⊎◌, inl, inr, String, str_eq, eq_iff, List, [], ◌∷◌, ◌++◌, Bool, true,
  false, Bool-cases, All,
}
use event_sourcing_testbed.Common.Result.{Result, ok, err}
use event_sourcing_testbed.Store.Relay.{Outbox, mark, IsIn, dispatched, Relayed, IsDelivered}

pub IsIn-append : (id : String) (ks js : List String) → IsIn id ks → IsIn id (ks ++ js)
IsIn-append id [] js h = absurd h
IsIn-append id (k ∷ ks) js (inl e) = inl e
IsIn-append id (k ∷ ks) js (inr h) = inr (IsIn-append id ks js h)

pub IsIn-last : (id : String) (ks : List String) → IsIn id (ks ++ id ∷ [])
IsIn-last id [] = inl refl
IsIn-last id (k ∷ ks) = inr (IsIn-last id ks)

abbrev pub Delivered : List String → List (String × Bool) → Type 0
Delivered ks es = All (λ (e : String × Bool). (e.1 ≡ false) ⊎ IsIn e.0 ks) es

pub Delivered-sent :
    (ks : List String) (id : String) (es : List (String × Bool))
    → Delivered ks es
    → Delivered (ks ++ id ∷ []) es
Delivered-sent ks id [] h = tt
Delivered-sent ks id ((k, d) ∷ es) (inl e, h) = (inl e, Delivered-sent ks id es h)
Delivered-sent ks id ((k, d) ∷ es) (inr m, h) =
    (inr (IsIn-append k ks (id ∷ []) m), Delivered-sent ks id es h)

Delivered-mark :
    (ks : List String) (id : String) (es : List (String × Bool))
    → Delivered ks es
    → Delivered (ks ++ id ∷ []) (mark id es)
Delivered-mark ks id [] h = tt
Delivered-mark ks id ((k, d) ∷ es) h = (
  elim (Bool-cases (str_eq k id)) [
    | inl same ↦
        inr (subst (λ j. IsIn j (ks ++ id ∷ [])) (sym ((eq_iff k id).0 same)) (IsIn-last id ks))
    | inr differ ↦ rw differ (Delivered-sent ks id ((k, d) ∷ []) (h.0, tt)).0
  ],
  Delivered-mark ks id es h.1,
)

pub Delivered-append :
    (ks : List String) (id : String) (es : List (String × Bool))
    → Delivered ks es
    → Delivered ks (es ++ (id, false) ∷ [])
Delivered-append ks id [] h = (inl refl, tt)
Delivered-append ks id (e ∷ es) h = (h.0, Delivered-append ks id es h.1)

dispatched-IsDelivered :
    (s s' : Outbox) (id : String) → s' ≡ dispatched s id → IsDelivered s → IsDelivered s'
dispatched-IsDelivered s s' id e h =
    subst IsDelivered (sym e) (Delivered-mark s.published id s.entries h)

pub Relayed-IsDelivered :
    (s s' : Outbox) (r : Result Bool) → Relayed s s' r → IsDelivered s → IsDelivered s'
Relayed-IsDelivered s s' (ok true) (id, _, e) h = dispatched-IsDelivered s s' id e h
Relayed-IsDelivered s s' (ok false) (_, e) h = subst IsDelivered (sym e) h
Relayed-IsDelivered s s' (err f) (inl e) h = subst IsDelivered (sym e) h
Relayed-IsDelivered s s' (err f) (inr (inl (id, _, e))) h =
    subst IsDelivered (sym e) (Delivered-sent s.published id s.entries h)
Relayed-IsDelivered s s' (err f) (inr (inr (id, _, e))) h = dispatched-IsDelivered s s' id e h
