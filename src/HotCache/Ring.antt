-- ===== src/HotCache/Ring.antt =====
-- The ring buffer of rust-app/src/hot_cache_bench.rs holds the newest events.
use event_sourcing_testbed.Common.{
  ℕ, ◌-◌, ◌<◌, ◌≤◌, ◌≡◌, refl, sym, ap, ◌∙◌, List, [], ◌∷◌, arith, length, length-drop, drop,
  drop_all,
}
use event_sourcing_testbed.Events.{BenchmarkEvent}
use event_sourcing_testbed.Tail.{pushed, pushed_all}
use event_sourcing_testbed.Tail.Newest.{pushed_all-IsTail, pushed_unbounded}
use event_sourcing_testbed.HotCache.{RecentEventsCache, new, push, push_all, snapshot, len}

pub push_all_lem :
    (events : List BenchmarkEvent) (cache : RecentEventsCache)
    → push_all cache events ≡ record cache { inner = pushed_all cache.capacity cache.inner events }
unfolding push_all push pushed_all
push_all_lem [] cache = refl
push_all_lem (e ∷ es) cache = push_all_lem es (push cache e)

-- A buffer of at least one place holds, after any pushes, the newest of the pushed events in their
-- order, as many as it has places; and no more than that.
pub push_all_newest :
    (capacity : ℕ) (events : List BenchmarkEvent)
    → 0 < capacity
    → (snapshot (push_all (new capacity) events) ≡ drop (length events - capacity) events)
      × (len (push_all (new capacity) events) ≤ capacity)
push_all_newest capacity events pos =
    let all : snapshot (push_all (new capacity) events) ≡ pushed_all capacity [] events =
      ap snapshot (push_all_lem events (new capacity)) in
    let newest =
      pushed_all-IsTail capacity events [] [] pos
        (sym (drop_all (0 - capacity) [] (omega arith))) in
    let t = all ∙ newest in
    (t, omega (arith, ap length t, length-drop (length events - capacity) events))

-- A buffer of no places never evicts: it holds every event that was ever pushed.
pub push_all_unbounded :
    (events : List BenchmarkEvent) → snapshot (push_all (new 0) events) ≡ events
unfolding pushed_all pushed
push_all_unbounded [] = ap snapshot (push_all_lem [] (new 0))
push_all_unbounded (e ∷ es) =
    ap snapshot (push_all_lem (e ∷ es) (new 0)) ∙ pushed_unbounded es (e ∷ []) (omega arith)
