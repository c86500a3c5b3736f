-- ===== src/Examples/Counts.antt =====
-- The ring buffer, the contention counters and the inventory on small inputs.
use event_sourcing_testbed.Common.{
  ℕ, ◌-◌, ◌^◌, ◌≡◌, ◌≤◌, ◌<◌, refl, String, List, [], ◌∷◌, Option, some, arith, length, drop, add64,
  ◌==◌, if◌then◌else◌,
}
use event_sourcing_testbed.Common.Result.{Result, ok, err}
use event_sourcing_testbed.Events.{BenchmarkEvent}
use event_sourcing_testbed.HotCache.{new, push_all, snapshot, len}
use event_sourcing_testbed.HotCache.Ring.{push_all_newest, push_all_unbounded}
use event_sourcing_testbed.Contention.{mongodb, write_hot}
use event_sourcing_testbed.Contention.Tally.{IsConflict, Outcome, write_hot_tally}
use event_sourcing_testbed.Inventory.{initial, apply_all, state_eq}
use event_sourcing_testbed.Inventory.Replay.{
  state_eq_sound, apply_all_counts, units, count_type, last_revision,
}

abbrev numbered : ℕ → BenchmarkEvent
numbered n = record { seq = n; task_id = 0; payload = 171 ∷ []; created_at = 0 }

abbrev three : List BenchmarkEvent
three = numbered 1 ∷ numbered 2 ∷ numbered 3 ∷ []

push_all_newest_example :
    (snapshot (push_all (new 2) three) ≡ drop (length three - 2) three)
    × (len (push_all (new 2) three) ≤ 2)
push_all_newest_example = push_all_newest 2 three (omega arith)

push_all_unbounded_example : snapshot (push_all (new 0) three) ≡ three
push_all_unbounded_example = push_all_unbounded three

abbrev shown : List String → String
shown [] = ""
shown (m ∷ ms) = m

-- one conflict, then a success
abbrev answers : ℕ → Result ℕ
answers i = if i == 0 then err ("e11000" ∷ []) else ok 0

write_hot_tally_example :
    let c = write_hot mongodb shown (λ i. i) answers (λ i. ok (some 3)) 5 in
    (k : ℕ) × ((i : ℕ) → i < k → IsConflict mongodb shown (λ i. i) answers (λ i. ok (some 3)) i)
    × (c.conflicts ≡ k)
    × (c.hot_events ≡ 1)
    × Outcome mongodb shown (λ i. i) answers (λ i. ok (some 3)) 5 k c
write_hot_tally_example = write_hot_tally mongodb shown (λ i. i) answers (λ i. ok (some 3)) 5

state_eq_sound_example : initial ≡ initial
unfolding state_eq
state_eq_sound_example = state_eq_sound initial initial refl

abbrev quantity : ℕ → Option ℕ
quantity n = some n

abbrev three_events : List (String × ℕ × ℕ)
three_events = ("ItemAdded", 0, 5) ∷ ("ItemPriceUpdated", 1, 0) ∷ ("ItemRemoved", 2, 7) ∷ []

apply_all_counts_example :
    let s' = apply_all quantity initial three_events in
    (add64 s'.total_stock (units quantity "ItemRemoved" three_events)
      ≡ add64 0 (units quantity "ItemAdded" three_events))
    × (s'.total_added ≡ add64 0 (count_type quantity "ItemAdded" three_events))
    × (s'.total_price_updates ≡ add64 0 (count_type quantity "ItemPriceUpdated" three_events))
    × (s'.total_removals ≡ add64 0 (count_type quantity "ItemRemoved" three_events))
    × (s'.at_revision ≡ last_revision quantity (2 ^ 64 - 1) three_events)
apply_all_counts_example = apply_all_counts quantity initial three_events (record {
  stock = omega arith;
  added = omega arith;
  price_updates = omega arith;
  removals = omega arith;
})
