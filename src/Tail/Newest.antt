-- ===== src/Tail/Newest.antt =====
-- A bounded queue holds the newest elements.
use event_sourcing_testbed.Common.{
  ℕ, zero, suc, ◌-◌, ◌<◌, ◌≤◌, ◌≡◌, refl, sym, ap, subst, ◌∙◌, ◌⊎◌, inl, inr, List, [], ◌∷◌, ◌++◌,
  map, true, false, ◌==◌, Bool-cases, arith, length, length-append, length-drop, length-map, drop,
  drop_all, take, reverse,
}
use mathlib.Core.List.{append_assoc, append-nil, map-append, reverse-cons}
use event_sourcing_testbed.Tail.{pop_front, pushed, pushed_all}

equal : (a b : ℕ) → a == b ≡ true → a ≡ b
equal a b h = ground arith

unequal : (a b : ℕ) → a == b ≡ false → (a < b) ⊎ (b < a)
unequal a b h = ground arith

module _ {A : Type 0} where
  -- `tail` holds the newest of `history`, as many as fit.
  abbrev pub IsTail : ℕ → List A → List A → Type 0
  IsTail capacity tail history = tail ≡ drop (length history - capacity) history

  drop-snoc :
      (n : ℕ) (xs : List A) (e : A) → n ≤ length xs → drop n (xs ++ e ∷ []) ≡ drop n xs ++ e ∷ []
  drop-snoc zero xs e h = refl
  drop-snoc (suc n) [] e h = absurd (omega arith)
  drop-snoc (suc n) (x ∷ xs) e h = drop-snoc n xs e (omega arith)

  pop_front-drop : (n : ℕ) (xs : List A) → pop_front (drop n xs) ≡ drop (suc n) xs
  pop_front-drop zero [] = refl
  pop_front-drop zero (x ∷ xs) = refl
  pop_front-drop (suc n) [] = refl
  pop_front-drop (suc n) (x ∷ xs) = pop_front-drop n xs

  -- One push, for a queue of at least one place.
  pub pushed-IsTail :
      (capacity : ℕ) (tail history : List A) (e : A)
      → 0 < capacity
      → IsTail capacity tail history
      → IsTail capacity (pushed capacity tail e) (history ++ e ∷ [])
  unfolding pushed
  pushed-IsTail capacity tail history e pos newest =
      let n = length-append history (e ∷ []) in
      let d = length-drop (length history - capacity) history in
      let size = ap length newest in
      elim (Bool-cases (length tail == capacity)) [
        | inl full ↦
            let same = equal (length tail) capacity full in
            let next : length (history ++ e ∷ []) - capacity ≡ suc (length history - capacity) =
              omega (arith, n, d, size, same) in
            rw (full, next, newest, pop_front-drop (length history - capacity) history)
              (sym (
                drop-snoc (suc (length history - capacity)) history e
                  (omega (arith, d, size, same))))
        | inr room ↦
            let short = unequal (length tail) capacity room in
            let none_out : length history - capacity ≡ 0 = omega (arith, d, size, short) in
            let none_out' : length (history ++ e ∷ []) - capacity ≡ 0 =
              omega (arith, n, d, size, short) in
            let whole : tail ≡ history = newest ∙ ap (λ k. drop k history) none_out in
            rw (room, none_out', whole) refl
      ]

  pub pushed_all-IsTail :
      (capacity : ℕ) (events history tail : List A)
      → 0 < capacity
      → IsTail capacity tail history
      → IsTail capacity (pushed_all capacity tail events) (history ++ events)
  unfolding pushed_all
  pushed_all-IsTail capacity [] history tail pos newest = rw append-nil newest
  pushed_all-IsTail capacity (e ∷ es) history tail pos newest =
      subst (IsTail capacity (pushed_all capacity (pushed capacity tail e) es))
        (append_assoc history (e ∷ []) es)
        (pushed_all-IsTail capacity es (history ++ e ∷ []) (pushed capacity tail e) pos
          (pushed-IsTail capacity tail history e pos newest))

  -- an empty queue is filled with the end of a history
  pub pushed_all_loaded :
      (capacity : ℕ) (loaded history : List A)
      → 0 < capacity
      → IsTail capacity loaded history
      → pushed_all capacity [] loaded ≡ loaded
  pushed_all_loaded capacity loaded history pos newest =
      let tail =
        pushed_all-IsTail capacity loaded [] [] pos
          (sym (drop_all (0 - capacity) [] (omega arith))) in
      let few : length loaded - capacity ≡ 0 =
        omega (arith, ap length newest, length-drop (length history - capacity) history) in
      tail ∙ ap (λ k. drop k loaded) few

  pub pushed_unbounded :
      (events tail : List A) → 0 < length tail → pushed_all 0 tail events ≡ tail ++ events
  unfolding pushed_all pushed
  pushed_unbounded [] tail pos = sym (append-nil tail)
  pushed_unbounded (e ∷ es) tail pos =
      let more : length tail == 0 ≡ false = ground (arith, pos) in
      rw more (
        pushed_unbounded es (tail ++ e ∷ []) (omega (arith, length-append tail (e ∷ [])))
        ∙ append_assoc tail (e ∷ []) es)

module _ {A B : Type 0} (f : A → B) where
  pub map-drop : (n : ℕ) (xs : List A) → map f (drop n xs) ≡ drop n (map f xs)
  map-drop zero xs = refl
  map-drop (suc n) [] = refl
  map-drop (suc n) (x ∷ xs) = map-drop n xs

  pub map-take : (n : ℕ) (xs : List A) → map f (take n xs) ≡ take n (map f xs)
  map-take zero xs = refl
  map-take (suc n) [] = refl
  map-take (suc n) (x ∷ xs) = ap (λ l. f x ∷ l) (map-take n xs)

  pub map-reverse : (xs : List A) → map f (reverse xs) ≡ reverse (map f xs)
  map-reverse [] = refl
  map-reverse (x ∷ xs) =
      rw
        (
          reverse-cons x xs,
          reverse-cons (f x) (map f xs),
          map-append f (reverse xs) (x ∷ []),
          map-reverse xs,
        )
        refl

  map-pop_front : (xs : List A) → map f (pop_front xs) ≡ pop_front (map f xs)
  map-pop_front [] = refl
  map-pop_front (x ∷ xs) = refl

  -- what is shown of the elements is queued in the same way
  pub map-pushed :
      (capacity : ℕ) (tail : List A) (e : A)
      → map f (pushed capacity tail e) ≡ pushed capacity (map f tail) (f e)
  unfolding pushed
  map-pushed capacity tail e = elim (Bool-cases (length tail == capacity)) [
    | inl full ↦
        rw
          (
            full,
            length-map f tail,
            map-append f (pop_front tail) (e ∷ []),
            map-pop_front tail,
            full,
          )
          refl
    | inr room ↦ rw (room, length-map f tail, map-append f tail (e ∷ []), room) refl
  ]
