-- ===== src/Tail/Seeding.antt =====
-- The seed phase of the runners: full batches, then the remainder.
use event_sourcing_testbed.Common.{
  ℕ, zero, suc, ◌+◌, ◌*◌, ◌/◌, ◌%◌, ◌<◌, ◌≡◌, refl, ap, subst, ◌∙◌, inl, inr, List, [], ◌∷◌, ◌++◌,
  map, ltb, ltb→lt, Bool-cases, if◌then◌else◌, false, arith,
}
use mathlib.Core.List.{append_assoc, append-nil, map-append}
use native.Mathlib.Nat.{suc-mul, div-add-mod'}
use event_sourcing_testbed.Common.Result.{Result, ok, err}
use event_sourcing_testbed.Events.{BenchmarkEvent, new as new_event}
use event_sourcing_testbed.Store.Checkpoints.{unit_cases}
use event_sourcing_testbed.Tail.Log.{Log, IsLog, events}

module _ (log : Log) (clock : ℕ → ℕ) (size : ℕ) where
  -- `for b in 0..batches`, from `b` on
  unfoldable pub seed_batches : ℕ → ℕ → log.Server → log.Server × Result (Unit {0})
  seed_batches zero b s = (s, ok tt)
  seed_batches (suc left) b s =
      let (s', sent) = log.append_batch s (events clock 0 (b * size) size) (b * size) 0 in
      elim sent [ ok u ↦ seed_batches left (b + 1) s' | err e ↦ (s', err e) ]

  -- phase 1: the batches, then the remainder
  unfoldable pub seed : ℕ → log.Server → log.Server × Result (Unit {0})
  unfolding seed_batches
  seed seed_events s =
      let batches = seed_events / size in
      let remainder = seed_events % size in
      let (s', seeded) = seed_batches batches 0 s in
      elim seeded [
        | err e ↦ (s', err e)
        | ok u ↦
            if ltb 0 remainder
            then log.append_batch s' (events clock 0 (batches * size) remainder) (batches * size) 0
            else (s', ok tt)
      ]

  pub events-append :
      (task_id a n m : ℕ)
      → events clock task_id a n ++ events clock task_id (a + n) m ≡ events clock task_id a (n + m)
  unfolding events
  events-append task_id a zero m =
      let left : a + 0 ≡ a = omega arith in
      let right : 0 + m ≡ m = omega arith in rw (left, right) refl
  events-append task_id a (suc n) m =
      let left : a + suc n ≡ a + 1 + n = omega arith in
      let right : suc n + m ≡ suc (n + m) = omega arith in
      rw (left, right)
        (ap (◌∷◌ (new_event (clock a) a task_id)) (events-append task_id (a + 1) n m))

  module _ {K : Type 0} (key : BenchmarkEvent → K) (Holds : log.Server → List K → Type 0)
      (is_log : IsLog log clock key Holds) where
    abbrev made : ℕ → ℕ → List K
    made base n = map key (events clock 0 base n)

    made-append : (a n m : ℕ) → made a n ++ made (a + n) m ≡ made a (n + m)
    made-append a n m =
        rw (← map-append key (events clock 0 a n) (events clock 0 (a + n) m))
          (ap (map key) (events-append 0 a n m))

    seed_batches_lem :
        (left b : ℕ) (s : log.Server) (ks : List K)
        → 0 < size
        → Holds s ks
        → (seed_batches left b s).1 ≡ ok tt
        → Holds (seed_batches left b s).0 (ks ++ made (b * size) (left * size))
    unfolding seed_batches events
    seed_batches_lem zero b s ks pos h sent =
        let nothing : 0 * size ≡ 0 = omega arith in rw (nothing, append-nil) h
    seed_batches_lem (suc left) b s ks pos h sent =
        let batch = log.append_batch s (events clock 0 (b * size) size) (b * size) 0 in
        elim (unit_cases batch.1) [
          | inr (e, bad) ↦ absurd (cc (rw (seed_batches, bad) at sent))
          | inl good ↦
              let h' = is_log.batch_held s ks (b * size) size pos h good in
              let rest =
                seed_batches_lem left (b + 1) batch.0 _ pos h' (rw (seed_batches, good) at sent) in
              let one_more : b + 1 ≡ suc b = omega arith in
              let next : (b + 1) * size ≡ b * size + size =
                ap (λ k. k * size) one_more ∙ suc-mul b size in
              let total : suc left * size ≡ size + left * size = omega (arith, suc-mul left size) in
              let joined : (ks ++ made (b * size) size) ++ made ((b + 1) * size) (left * size)
                  ≡ ks ++ made (b * size) (suc left * size) =
                append_assoc ks (made (b * size) size) _
                ∙ ap (λ l. ks ++ l)
                    (rw (next, total) (made-append (b * size) size (left * size))) in
              rw (seed_batches, good, ← joined) rest
        ]

    -- A seeding of an empty stream that meets no error puts the events into it, in order.
    pub seed_lem :
        (seed_events : ℕ) (s : log.Server)
        → 0 < size
        → Holds s []
        → (seed seed_events s).1 ≡ ok tt
        → Holds (seed seed_events s).0 (made 0 seed_events)
    unfolding seed
    seed_lem seed_events s pos h sent =
        let batches = seed_events / size in
        let remainder = seed_events % size in
        let split : batches * size + remainder ≡ seed_events = div-add-mod' seed_events size in
        elim (unit_cases (seed_batches batches 0 s).1) [
          | inr (e, bad) ↦ absurd (cc (rw (seed, bad) at sent))
          | inl good ↦
              let s' = (seed_batches batches 0 s).0 in
              let zero_base : 0 * size ≡ 0 = omega arith in
              let h' : Holds s' (made 0 (batches * size)) =
                subst (λ k. Holds s' (made k (batches * size))) zero_base
                  (seed_batches_lem batches 0 s [] pos h good) in
              elim (Bool-cases (ltb 0 remainder)) [
                | inl more ↦
                    let joined : made 0 (batches * size) ++ made (batches * size) remainder
                        ≡ made 0 seed_events =
                      ap (λ k. made 0 (batches * size) ++ made k remainder) (omega arith)
                      ∙ made-append 0 (batches * size) remainder
                      ∙ ap (made 0) split in
                    rw (seed, good, more, ← joined)
                      (is_log.batch_held s' _ (batches * size) remainder (ltb→lt 0 remainder more)
                        h' (rw (seed, good, more) at sent))
                | inr exact' ↦
                    let whole : batches * size ≡ seed_events = nothing_left _ _ _ split exact' in
                    rw (seed, good, exact') (subst (λ k. Holds s' (made 0 k)) whole h')
              ]
        ]
      where
        nothing_left : (a b c : ℕ) → a + b ≡ c → ltb 0 b ≡ false → a ≡ c
        nothing_left a b c e h = ground arith
