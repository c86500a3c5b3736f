-- ===== src/Contention.antt =====
-- The hot writes of rust-app/src/{kurrentdb,mongodb,postgres}/hot_stream_contention_bench.rs: one
-- spawned task, its retry loop, what it adds to the shared counters and what it does to the shared
-- revision. Other tasks run in between, so what each attempt loads, is answered and reads is a
-- parameter by the attempt's number. Pacing, histograms and the baseline phase are left out.
pub mod Tally
use event_sourcing_testbed.Common.{
  ℕ, zero, suc, ◌+◌, ltb, String, List, [], ◌∷◌, ◌++◌, Option, none, some, Bool, true, false, ◌||◌,
  if◌then◌else◌, add64,
}
use event_sourcing_testbed.Common.Result.{Result, ok, err}
use event_sourcing_testbed.Kurrent.{contains}

-- `compare_exchange(expected, new)` and `store(new)` on `hot_rev`
pub data RevisionOp : Type 0 where
  compare_exchange : ℕ → ℕ → RevisionOp
  store : ℕ → RevisionOp

-- what a task adds to the counters, and does to the revision
pub record Counters : Type 0 where
  pub total_events : ℕ
  pub hot_events : ℕ
  pub conflicts : ℕ
  pub retries : ℕ
  pub retry_successes : ℕ
  pub retry_exhausted : ℕ
  pub failed_writes : ℕ
  pub revisions : List RevisionOp

abbrev pub nothing : Counters
nothing = record {
  total_events = 0;
  hot_events = 0;
  conflicts = 0;
  retries = 0;
  retry_successes = 0;
  retry_exhausted = 0;
  failed_writes = 0;
  revisions = [];
}

-- What the three benchmarks do differently.
pub record Backend : Type 0 where
  -- the test on the error's message in lower case
  pub is_conflict : String → Bool
  -- what a write expects next: of the expected revision and the answer
  pub next_revision : ℕ → ℕ → ℕ
  -- what is stored after a conflict, of the read of the stream's end
  pub refreshed : Result (Option ℕ) → List RevisionOp

abbrev pub kurrentdb : Backend
kurrentdb = record {
  is_conflict = λ msg.
      contains msg "wrongexpectedversion"
      || contains msg "wrong expected version"
      || contains msg "wrong expected"
      || contains msg "expected revision"
      || contains msg "expected version";
  next_revision = λ expected next_rev. next_rev;
  refreshed = λ read. elim read [
    | err e ↦ store 0 ∷ []
    | ok current ↦ elim current [ none ↦ store 0 ∷ [] | some r ↦ store r ∷ [] ]
  ];
}

abbrev refresh_next : Result (Option ℕ) → List RevisionOp
refresh_next (err e) = []
refresh_next (ok none) = []
refresh_next (ok (some current)) = store (add64 current 1) ∷ []

abbrev pub mongodb : Backend
mongodb = record {
  is_conflict = λ msg.
      contains msg "wrong expected version"
      || contains msg "duplicate key"
      || contains msg "e11000";
  next_revision = λ expected unit. add64 expected 1;
  refreshed = refresh_next;
}

abbrev pub postgres : Backend
postgres = record {
  is_conflict = λ msg.
      contains msg "wrong expected version" || contains msg "duplicate key" || contains msg "23505";
  next_revision = λ expected unit. add64 expected 1;
  refreshed = refresh_next;
}

-- By the attempt's number: what `hot_rev.load` gives, what the append answers, and what the read
-- after a conflict answers. `shown` is `format!("{:#}", err).to_lowercase()`.
module _ (backend : Backend) (shown : List String → String) (loads : ℕ → ℕ) (answers : ℕ → Result ℕ)
    (reads : ℕ → Result (Option ℕ)) where
  -- the branch of a write that is acknowledged
  unfoldable pub succeeded : ℕ → ℕ → Counters → Counters
  succeeded attempt answer c = record c {
    revisions =
        c.revisions
        ++ compare_exchange (loads attempt) (backend.next_revision (loads attempt) answer) ∷ [];
    retries = if ltb 0 attempt then c.retries + attempt else c.retries;
    retry_successes = if ltb 0 attempt then c.retry_successes + 1 else c.retry_successes;
    total_events = c.total_events + 1;
  }

  -- the branch of a conflict
  unfoldable pub conflicted : ℕ → Counters → Counters
  conflicted attempt c = record c {
    conflicts = c.conflicts + 1;
    retries = c.retries + 1;
    revisions = c.revisions ++ backend.refreshed (reads attempt);
  }

  -- `for attempt in 0..=max_retries`, with `left` attempts to go; also `wrote`
  pub attempts : ℕ → ℕ → Counters → Counters × Bool
  unfolding succeeded conflicted
  attempts zero attempt c = (c, false)
  attempts (suc left) attempt c = elim (answers attempt) [
    | ok answer ↦ (succeeded attempt answer c, true)
    | err e ↦ elim (backend.is_conflict (shown e)) [
      | true ↦ attempts left (attempt + 1) (conflicted attempt c)
      | false ↦ (record c { failed_writes = c.failed_writes + 1 }, false)
    ]
  ]

  abbrev pub unless_wrote : Counters × Bool → Counters
  unless_wrote (c, true) = c
  unless_wrote (c, false) = record c {
    retry_exhausted = c.retry_exhausted + 1;
    failed_writes = c.failed_writes + 1;
  }

  -- what one hot task adds
  unfoldable pub write_hot : ℕ → Counters
  unfolding attempts
  write_hot max_retries =
      unless_wrote (attempts (suc max_retries) 0 (record nothing { hot_events = 1 }))

-- what one cold task adds: `cold_events`, `total_events` and `failed_writes`, by the answer to its
-- append
pub write_cold : Result ℕ → ℕ × ℕ × ℕ
write_cold (ok answer) = (1, 1, 0)
write_cold (err e) = (1, 0, 1)
