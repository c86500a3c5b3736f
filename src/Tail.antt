-- ===== src/Tail.antt =====
-- What rust-app/src/hot_cache_bench.rs, rust-app/src/memcache_bench.rs and
-- rust-app/src/projection_bench.rs share: a bounded queue of the newest elements, and the seeding of a
-- stream of events. Each runner has its own copy of the text, one for each database; what a database
-- does is the interface Tail.Log.Log.
pub mod Newest
pub mod Log
pub mod Seeding
use event_sourcing_testbed.Common.{ℕ, List, [], ◌∷◌, ◌++◌, ◌==◌, if◌then◌else◌, length}

module _ {A : Type 0} where
  abbrev pub pop_front : List A → List A
  pop_front [] = []
  pop_front (e ∷ es) = es

  -- `if tail.len() == capacity { tail.pop_front(); } tail.push_back(event)`
  unfoldable pub pushed : ℕ → List A → A → List A
  pushed capacity tail event =
      (if length tail == capacity then pop_front tail else tail) ++ event ∷ []

  unfoldable pub pushed_all : ℕ → List A → List A → List A
  pushed_all capacity tail [] = tail
  pushed_all capacity tail (e ∷ es) = pushed_all capacity (pushed capacity tail e) es
