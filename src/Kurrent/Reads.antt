-- ===== src/Kurrent/Reads.antt =====
-- What the reads of rust-app/src/kurrentdb/client.rs return, given what the server holds.
use event_sourcing_testbed.Common.{
  ℕ, zero, suc, ◌-◌, ◌≡◌, refl, ap, ◌∙◌, sym, inl, inr, ◌⊎◌, String, List, [], ◌∷◌, ◌++◌, reverse,
  Option, none, true, map, Bool-cases, Option-cases, reverse-take-reverse, length, take, drop,
}
use mathlib.Core.List.{
  append-nil, append_assoc, filter_map, filter_map-append, filter_map-cons-none,
  filter_map-cons-some, head?, reverse-cons,
}
use mathlib.Core.Option
use event_sourcing_testbed.Common.Result.{Result, ok, err, ◌>>=◌}
use event_sourcing_testbed.Kurrent.Driver.{
  Api, Laws, Recorded, Reply, done, refused, ReadItem, event, broken, Selection, from_start,
  from_revision, last,
}
use event_sourcing_testbed.Kurrent.{
  is_missing, triple, Triple, collect, read_stream_events, read_stream_from_revision, collect_bench,
  read_last_n_bench_events, answer, push, first, read_last_event,
}

-- An answer that says "not found" is given for an empty stream only.
pub record IsHonest (api : Api) : Type 0 where
  pub laws : Laws api
  pub open laws use *
  pub missing :
      (s : api.Server) (name : String) (sel : Selection) (msg : String)
      → api.read_stream s name sel ≡ refused msg
      → is_missing msg ≡ true
      → api.stream s name ≡ []

module _ (api : Api) where
  collect-map :
      (failure : String) (es : List (Recorded api.Data)) (acc : List (Triple api))
      → collect api failure (map event es) acc ≡ ok (acc ++ map (triple api) es)
  unfolding collect
  collect-map failure [] acc = rw append-nil
  collect-map failure (e ∷ es) acc = collect-map failure es _ ∙ ap ok (append_assoc acc _ _)

  collect_broken :
      (failure msg : String) (es : List (Recorded api.Data)) (acc : List (Triple api))
      → (e : List String) × (collect api failure (map event es ++ broken msg ∷ []) acc ≡ err e)
  unfolding collect
  collect_broken failure msg [] acc = (_, refl)
  collect_broken failure msg (e ∷ es) acc = collect_broken failure msg es _

  drop-nil : (n : ℕ) → drop {A = Recorded api.Data} n [] ≡ []
  drop-nil zero = refl
  drop-nil (suc n) = refl

  collected :
      (failure : String) (items : List (ReadItem api.Data)) (es : List (Recorded api.Data))
      (ts : List (Triple api))
      → (items ≡ map event es)
        ⊎ ((n : ℕ) × (message : String) × (items ≡ map event (take n es) ++ broken message ∷ []))
      → collect api failure items [] ≡ ok ts
      → ts ≡ map (triple api) es
  collected failure items es ts (inl e) h = cc (collect-map failure es [], rw e at h)
  collected failure items es ts (inr (n, msg, e)) h =
      let (chain, b) = collect_broken failure msg (take n es) [] in cc (b, rw e at h)

  -- the two ways in which a read succeeds
  answer_ok :
      {A : Type 0} (absent : A) (failure : String) (k : List (ReadItem api.Data) → Result A)
      (r : Reply (List (ReadItem api.Data))) (a : A)
      → answer api absent failure k r ≡ ok a
      → ((items : List (ReadItem api.Data)) × (r ≡ done items) × (k items ≡ ok a))
        ⊎ ((msg : String) × (r ≡ refused msg) × (is_missing msg ≡ true) × (a ≡ absent))
  unfolding answer
  answer_ok absent failure k (done items) a h = inl (items, refl, h)
  answer_ok absent failure k (refused msg) a h = elim (Bool-cases (is_missing msg)) [
    | inl yes' ↦ inr (msg, refl, yes', cc (rw yes' at h))
    | inr no' ↦ absurd (cc (rw no' at h))
  ]

module _ (api : Api) (honest : IsHonest api) (s : api.Server) (name : String) where
  -- A successful `read_stream_events` returns the type, revision and payload of every event of the
  -- stream, oldest first.
  pub read_stream_events_exact :
      (ts : List (Triple api))
      → read_stream_events api s name ≡ ok ts
      → ts ≡ map (triple api) (api.stream s name)
  unfolding read_stream_events
  read_stream_events_exact ts h =
      elim (answer_ok api [] _ _ (api.read_stream s name from_start) ts h) [
        | inl (items, e, k) ↦
            collected api _ items _ ts (honest.read_done s name from_start items e) k
        | inr (msg, e, miss, empty) ↦
            empty ∙ ap (map (triple api)) (sym (honest.missing s name from_start msg e miss))
      ]

  -- A successful `read_stream_from_revision` returns the events from that revision on.
  pub read_stream_from_revision_exact :
      (r : ℕ) (ts : List (Triple api))
      → read_stream_from_revision api s name r ≡ ok ts
      → ts ≡ map (triple api) (drop r (api.stream s name))
  unfolding read_stream_from_revision
  read_stream_from_revision_exact r ts h =
      elim (answer_ok api [] _ _ (api.read_stream s name (from_revision r)) ts h) [
        | inl (items, e, k) ↦
            collected api _ items _ ts (honest.read_done s name (from_revision r) items e) k
        | inr (msg, e, miss, empty) ↦
            rw (honest.missing s name (from_revision r) msg e miss, drop-nil api r) empty
      ]

  first_exact :
      (failure : String) (items : List (ReadItem api.Data)) (es : List (Recorded api.Data))
      (o : Option (Triple api))
      → (items ≡ map event (take 1 es))
        ⊎ ((n : ℕ) × (message : String) × (items
              ≡ map event (take n (take 1 es)) ++ broken message ∷ []))
      → first api failure items ≡ ok o
      → o ≡ Option.map (triple api) (head? es)
  first_exact failure items [] o (inl e) h = cc (rw e at h)
  first_exact failure items (r ∷ es) o (inl e) h = cc (rw e at h)
  first_exact failure items es o (inr (zero, msg, e)) h = absurd (cc (rw e at h))
  first_exact failure items [] o (inr (suc n, msg, e)) h = absurd (cc (rw e at h))
  first_exact failure items (r ∷ es) o (inr (suc n, msg, e)) h = cc (rw e at h)

  -- A successful `read_last_event` returns the newest event of the stream, and nothing for a stream
  -- that has none.
  pub read_last_event_exact :
      (o : Option (Triple api))
      → read_last_event api s name ≡ ok o
      → o ≡ Option.map (triple api) (head? (reverse (api.stream s name)))
  unfolding read_last_event
  read_last_event_exact o h = elim (answer_ok api none _ _ (api.read_stream s name (last 1)) o h) [
    | inl (items, e, k) ↦
        first_exact _ items (reverse (api.stream s name)) o
          (honest.read_done s name (last 1) items e) k
    | inr (msg, e, miss, empty) ↦ rw (honest.missing s name (last 1) msg e miss) empty
  ]

module _ (api : Api) {B : Type 0} (decode : api.Data → Option B) where
  -- the payloads that decode
  abbrev pub decoded : List (Recorded api.Data) → List B
  decoded = filter_map (λ r. decode r.data')

  decoded-nil : decoded [] ≡ []
  unfolding filter_map
  decoded-nil = refl

  collect_bench-map :
      (failure : String) (es : List (Recorded api.Data)) (acc : List B)
      → collect_bench api decode failure (map event es) acc ≡ ok (acc ++ decoded es)
  unfolding collect_bench
  collect_bench-map failure [] acc =
      ap ok (sym (append-nil acc) ∙ ap (λ l. acc ++ l) (sym decoded-nil))
  collect_bench-map failure (e ∷ es) acc = elim (Option-cases (decode e.data')) [
    | inl skip ↦ rw (filter_map-cons-none (λ r. decode r.data') e es skip) (
        ap (λ o. collect_bench api decode failure (map event es) (push api decode acc o)) skip
        ∙ collect_bench-map failure es acc)
    | inr (b, hit) ↦ rw (filter_map-cons-some (λ r. decode r.data') e es hit) (
        ap (λ o. collect_bench api decode failure (map event es) (push api decode acc o)) hit
        ∙ collect_bench-map failure es (acc ++ b ∷ [])
        ∙ ap ok (append_assoc acc (b ∷ []) (decoded es)))
  ]

  collect_bench_broken :
      (failure msg : String) (es : List (Recorded api.Data)) (acc : List B)
      → (e : List String) × (collect_bench api decode failure (map event es ++ broken msg ∷ []) acc
          ≡ err e)
  unfolding collect_bench
  collect_bench_broken failure msg [] acc = (_, refl)
  collect_bench_broken failure msg (e ∷ es) acc = collect_bench_broken failure msg es _

  decoded-reverse : (es : List (Recorded api.Data)) → reverse (decoded es) ≡ decoded (reverse es)
  unfolding filter_map
  decoded-reverse [] = refl
  decoded-reverse (e ∷ es) = elim (Option-cases (decode e.data')) [
    | inl skip ↦
        rw
          (
            reverse-cons e es,
            filter_map-append (λ r. decode r.data') (reverse es) (e ∷ []),
            filter_map-cons-none (λ r. decode r.data') e [] skip,
            filter_map-cons-none (λ r. decode r.data') e es skip,
            append-nil,
          )
          (decoded-reverse es)
    | inr (b, hit) ↦
        rw
          (
            reverse-cons e es,
            filter_map-append (λ r. decode r.data') (reverse es) (e ∷ []),
            filter_map-cons-some (λ r. decode r.data') e [] hit,
            filter_map-cons-some (λ r. decode r.data') e es hit,
            reverse-cons b (decoded es),
          )
          (ap (λ l. l ++ b ∷ []) (decoded-reverse es))
  ]

  collected_bench :
      (failure : String) (items : List (ReadItem api.Data)) (es : List (Recorded api.Data))
      (bs : List B)
      → (items ≡ map event es)
        ⊎ ((n : ℕ) × (message : String) × (items ≡ map event (take n es) ++ broken message ∷ []))
      → (collect_bench api decode failure items [] >>= λ events. ok (reverse events)) ≡ ok bs
      → bs ≡ decoded (reverse es)
  collected_bench failure items es bs (inl e) h =
      let full = collect_bench-map failure es [] in cc (rw (e, full) at h, decoded-reverse es)
  collected_bench failure items es bs (inr (n, msg, e)) h =
      let (chain, b) = collect_bench_broken failure msg (take n es) [] in
      absurd (cc (rw (e, b) at h))

  -- A successful `read_last_n_bench_events` returns, oldest first, those of the last `n` events of
  -- the stream whose payload decodes.
  pub read_last_n_bench_events_exact :
      (honest : IsHonest api) (s : api.Server) (name : String) (n : ℕ) (bs : List B)
      → read_last_n_bench_events api decode s name n ≡ ok bs
      → bs ≡ decoded (drop (length (api.stream s name) - n) (api.stream s name))
  unfolding read_last_n_bench_events
  read_last_n_bench_events_exact honest s name n bs h =
      rw (← reverse-take-reverse n (api.stream s name))
        (elim (answer_ok api [] _ _ (api.read_stream s name (last n)) bs h) [
          | inl (items, e, k) ↦
              collected_bench _ items (take n (reverse (api.stream s name))) bs
                (honest.read_done s name (last n) items e) k
          | inr (msg, e, miss, empty) ↦
              rw (honest.missing s name (last n) msg e miss)
                (empty ∙ sym decoded-nil ∙ ap decoded (nil_tail n))
        ])
    where
      nil_tail : (n : ℕ) → [] ≡ reverse (take {A = Recorded api.Data} n (reverse []))
      nil_tail zero = refl
      nil_tail (suc n) = refl
