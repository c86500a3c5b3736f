-- ===== src/Contention/Tally.antt =====
-- What a hot write of the contention benchmarks adds to the counters.
use event_sourcing_testbed.Common.{
  ℕ, zero, suc, ◌+◌, ◌*◌, ◌≤◌, ◌<◌, ◌≡◌, refl, ap, subst, ◌∙◌, ◌⊎◌, inl, inr, String, List, Option,
  Bool, true, false, Bool-cases, arith, min,
}
use event_sourcing_testbed.Common.Result.{Result, ok, err}
use event_sourcing_testbed.Contention.{
  Backend, Counters, nothing, attempts, succeeded, conflicted, unless_wrote, write_hot,
}

module _ (backend : Backend) (shown : List String → String) (loads : ℕ → ℕ) (answers : ℕ → Result ℕ)
    (reads : ℕ → Result (Option ℕ)) where
  -- an attempt met a conflict
  abbrev pub IsConflict : ℕ → Type 0
  IsConflict i = (e : List String) × (answers i ≡ err e) × (backend.is_conflict (shown e) ≡ true)

  abbrev pub IsRefusal : ℕ → Type 0
  IsRefusal i = (e : List String) × (answers i ≡ err e) × (backend.is_conflict (shown e) ≡ false)

  -- How the loop ends from `attempt` on, with `left` attempts: after `k` conflicts.
  abbrev Ends : ℕ → ℕ → Counters → Counters × Bool → ℕ → Type 0
  Ends left attempt c result k =
      ((i : ℕ) → i < k → IsConflict (attempt + i))
      × (result.0.conflicts ≡ c.conflicts + k)
      × (result.0.retry_exhausted ≡ c.retry_exhausted)
      × (result.0.hot_events ≡ c.hot_events)
      × (((k < left)
            × (answer : ℕ) × (answers (attempt + k) ≡ ok answer)
            × (result.1 ≡ true)
            × (result.0.total_events ≡ c.total_events + 1)
            × (result.0.retries ≡ c.retries + k + (attempt + k))
            × (result.0.retry_successes ≡ c.retry_successes + min (attempt + k) 1)
            × (result.0.failed_writes ≡ c.failed_writes))
          ⊎ ((k < left)
              × IsRefusal (attempt + k)
              × (result.1 ≡ false)
              × (result.0.total_events ≡ c.total_events)
              × (result.0.retries ≡ c.retries + k)
              × (result.0.retry_successes ≡ c.retry_successes)
              × (result.0.failed_writes ≡ c.failed_writes + 1))
          ⊎ ((k ≡ left)
              × (result.1 ≡ false)
              × (result.0.total_events ≡ c.total_events)
              × (result.0.retries ≡ c.retries + k)
              × (result.0.retry_successes ≡ c.retry_successes)
              × (result.0.failed_writes ≡ c.failed_writes)))

  answer_cases : (r : Result ℕ) → ((n : ℕ) × (r ≡ ok n)) ⊎ ((e : List String) × (r ≡ err e))
  answer_cases (ok n) = inl (n, refl)
  answer_cases (err e) = inr (e, refl)

  earlier :
      (attempt k : ℕ)
      → IsConflict attempt
      → ((i : ℕ) → i < k → IsConflict (attempt + 1 + i))
      → (i : ℕ) → i < suc k
      → IsConflict (attempt + i)
  earlier attempt k first rest zero h =
      let same : attempt ≡ attempt + 0 = omega arith in subst IsConflict same first
  earlier attempt k first rest (suc i) h =
      let same : attempt + 1 + i ≡ attempt + suc i = omega arith in
      subst IsConflict same (rest i (omega (arith, h)))

  later :
      (left attempt k : ℕ) (c : Counters) (result : Counters × Bool)
      → IsConflict attempt
      → Ends left (attempt + 1) (conflicted backend shown loads answers reads attempt c) result k
      → Ends (suc left) attempt c result (suc k)
  unfolding conflicted
  later left attempt k c result first (rest, n, x, hot, ends) =
      let same : attempt + 1 + k ≡ attempt + suc k = omega arith in
      (
        earlier attempt k first rest,
        omega (arith, n),
        x,
        hot,
        elim ends [
          | inl (lt, answer, a, w, t, r, s, f) ↦ inl (
            omega (arith, lt),
            answer,
            subst (λ i. answers i ≡ ok answer) same a,
            w,
            t,
            omega (arith, r),
            s ∙ ap (λ i. c.retry_successes + min i 1) same,
            f,
          )
          | inr (inl (lt, refusal, w, t, r, s, f)) ↦
              inr (
                inl (omega (arith, lt), subst IsRefusal same refusal, w, t, omega (arith, r), s, f))
          | inr (inr (all, w, t, r, s, f)) ↦
              inr (inr (omega (arith, all), w, t, omega (arith, r), s, f))
        ],
      )

  attempts-Ends :
      (left attempt : ℕ) (c : Counters)
      → (k : ℕ) × Ends left attempt c (attempts backend shown loads answers reads left attempt c) k
  unfolding attempts succeeded
  attempts-Ends zero attempt c = (
    0,
    (
      λ i h. absurd (omega (arith, h)),
      omega arith,
      refl,
      refl,
      inr (inr (refl, refl, refl, omega arith, refl, refl)),
    ),
  )
  attempts-Ends (suc left) attempt c = elim (answer_cases (answers attempt)) [
    | inl (n, good) ↦
        let same : attempt + 0 ≡ attempt = omega arith in
        rw (attempts, good)
          (
            0,
            (
              λ i h. absurd (omega (arith, h)),
              omega arith,
              refl,
              refl,
              inl (
                omega arith,
                n,
                ap answers same ∙ good,
                refl,
                refl,
                ground arith,
                ground arith,
                refl,
              ),
            ),
          )
    | inr (e, bad) ↦ elim (Bool-cases (backend.is_conflict (shown e))) [
      | inr refusal ↦
          let same : attempt ≡ attempt + 0 = omega arith in
          rw (attempts, bad, refusal)
            (
              0,
              (
                λ i h. absurd (omega (arith, h)),
                omega arith,
                refl,
                refl,
                inr (
                    inl (
                      omega arith,
                      subst IsRefusal same (e, bad, refusal),
                      refl,
                      refl,
                      omega arith,
                      refl,
                      refl,
                    )),
              ),
            )
      | inl conflict ↦
          let (k, ends) =
            attempts-Ends left (attempt + 1)
              (conflicted backend shown loads answers reads attempt c) in
          rw (attempts, bad, conflict)
            (
              suc k,
              later left attempt k c
                  (attempts backend shown loads answers reads left (attempt + 1)
                    (conflicted backend shown loads answers reads attempt c))
                  (e, bad, conflict) ends,
            )
    ]
  ]

  -- How a hot write ends after `k` conflicts: with a success, with another error, or with no attempt
  -- left; and what the counters show then.
  abbrev pub Outcome : ℕ → ℕ → Counters → Type 0
  Outcome max_retries k c =
      ((k ≤ max_retries)
        × (answer : ℕ) × (answers k ≡ ok answer)
        × (c.total_events ≡ 1)
        × (c.retries ≡ 2 * k)
        × (c.retry_successes ≡ min k 1)
        × (c.retry_exhausted ≡ 0)
        × (c.failed_writes ≡ 0))
      ⊎ ((k ≤ max_retries)
          × IsRefusal k
          × (c.total_events ≡ 0)
          × (c.retries ≡ k)
          × (c.retry_successes ≡ 0)
          × (c.retry_exhausted ≡ 1)
          × (c.failed_writes ≡ 2))
      ⊎ ((k ≡ max_retries + 1)
          × (c.total_events ≡ 0)
          × (c.retries ≡ k)
          × (c.retry_successes ≡ 0)
          × (c.retry_exhausted ≡ 1)
          × (c.failed_writes ≡ 1))

  -- A hot write ends in one of three ways, after its first `k` attempts met conflicts, which are
  -- counted as such: a success, whose `retries` are twice the conflicts; an error that is no
  -- conflict, which counts as two failed writes and as exhausted retries; or a conflict at every
  -- attempt, which counts as one failed write.
  pub write_hot_tally :
      (max_retries : ℕ)
      → let c = write_hot backend shown loads answers reads max_retries in
        (k : ℕ) × ((i : ℕ) → i < k → IsConflict i)
        × (c.conflicts ≡ k)
        × (c.hot_events ≡ 1)
        × Outcome max_retries k c
  unfolding write_hot
  write_hot_tally max_retries =
      let (k, ends) = attempts-Ends (suc max_retries) 0 (record nothing { hot_events = 1 }) in
      counted max_retries k _ ends
    where
      counted :
          (max_retries k : ℕ) (result : Counters × Bool)
          → Ends (suc max_retries) 0 (record nothing { hot_events = 1 }) result k
          → let c = unless_wrote backend shown loads answers reads result in
            (k : ℕ) × ((i : ℕ) → i < k → IsConflict i)
            × (c.conflicts ≡ k)
            × (c.hot_events ≡ 1)
            × Outcome max_retries k c
      counted max_retries k (c, true) (all, n, x, hot, ends) =
          let same : 0 + k ≡ k = omega arith in
          (
            k,
            λ i h. subst IsConflict (omega arith) (all i h),
            omega (arith, n),
            hot,
            elim ends [
              | inl (lt, answer, a, w, t, r, s, f) ↦ inl (
                omega (arith, lt),
                answer,
                subst (λ i. answers i ≡ ok answer) same a,
                t,
                omega (arith, r),
                omega (arith, s),
                x,
                f,
              )
              | inr (inl (lt, refusal, w, t, r, s, f)) ↦ absurd (cc w)
              | inr (inr (end, w, t, r, s, f)) ↦ absurd (cc w)
            ],
          )
      counted max_retries k (c, false) (all, n, x, hot, ends) =
          let same : 0 + k ≡ k = omega arith in
          (
            k,
            λ i h. subst IsConflict (omega arith) (all i h),
            omega (arith, n),
            hot,
            elim ends [
              | inl (lt, answer, a, w, t, r, s, f) ↦ absurd (cc w)
              | inr (inl (lt, refusal, w, t, r, s, f)) ↦ inr (
                  inl (
                    omega (arith, lt),
                    subst IsRefusal same refusal,
                    t,
                    omega (arith, r),
                    s,
                    omega (arith, x),
                    omega (arith, f),
                  ))
              | inr (inr (end, w, t, r, s, f)) ↦ inr (
                  inr (
                    omega (arith, end),
                    t,
                    omega (arith, r),
                    s,
                    omega (arith, x),
                    omega (arith, f),
                  ))
            ],
          )
