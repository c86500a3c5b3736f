-- ===== src/Kurrent/Appends.antt =====
-- What an acknowledged append of rust-app/src/kurrentdb/client.rs has stored.
use event_sourcing_testbed.Common.{
  ℕ, suc, ◌+◌, ◌≡◌, ◌≢◌, refl, ap, sym, subst, String, List, [], ◌∷◌, ◌++◌, Option, none, some,
  arith, length,
}
use event_sourcing_testbed.Common.Result.{Result, ok, err, ◌>>=◌}
use event_sourcing_testbed.Kurrent.Driver.{
  Api, Laws, EventData, StreamState, any, stream_revision, Reply, done, refused, number,
}
use event_sourcing_testbed.Kurrent.{
  append_with_stream_state, append, append_batch, append_batch_with_stream_revision, events_of,
  to_result, json, send,
}

module _ (api : Api) where
  acknowledged :
      (contexts : List String) (reply : Reply ℕ) (r : ℕ)
      → to_result api contexts reply ≡ ok r
      → reply ≡ done r
  acknowledged contexts (done q) r h = cc
  acknowledged contexts (refused msg) r h = absurd (cc h)

  send_ok :
      (s : api.Server) (name : String) (state : StreamState) (failure : String)
      (m : Result (List (EventData api.Data))) (r : ℕ)
      → (send api s name state failure m).1 ≡ ok r
      → (events : List (EventData api.Data)) × (m ≡ ok events)
        × ((api.append_to_stream s name state events).1 ≡ done r)
        × ((send api s name state failure m).0 ≡ (api.append_to_stream s name state events).0)
  send_ok s name state failure (err e) r h = absurd (cc h)
  send_ok s name state failure (ok events) r h =
      (events, refl, acknowledged (failure ∷ []) _ r h, refl)

  single_ok :
      (contexts : List String) (event_type : String) (o : Option api.Data)
      (events : List (EventData api.Data))
      → (json api contexts event_type o >>= λ e. ok (e ∷ [])) ≡ ok events
      → (d : api.Data) × (o ≡ some d)
        × (events ≡ (record { event_type = event_type; data' = d }) ∷ [])
  single_ok contexts event_type none events h = absurd (cc h)
  single_ok contexts event_type (some d) events h = (d, refl, cc h)

  batch_step :
      (contexts : List String) (event_type : String) (o : Option api.Data)
      (rest : Result (List (EventData api.Data))) (es : List (EventData api.Data))
      → (json api contexts event_type o >>= λ e. rest >>= λ es. ok (e ∷ es)) ≡ ok es
      → (d : api.Data) × (es0 : List (EventData api.Data)) × (o ≡ some d)
        × (rest ≡ ok es0)
        × (es ≡ (record { event_type = event_type; data' = d }) ∷ es0)
  batch_step contexts event_type none rest es h = absurd (cc h)
  batch_step contexts event_type (some d) (err e) es h = absurd (cc h)
  batch_step contexts event_type (some d) (ok es0) es h = (d, es0, refl, refl, cc h)

  -- the stream `name` has grown by one event, the others are as they were
  abbrev pub Grown : api.Server → api.Server → String → String → api.Data → ℕ → Type 0
  Grown s s' name event_type d r =
      let old = api.stream s name in
      (api.stream s' name
        ≡ old ++ (record { event_type = event_type; revision = length old; data' = d }) ∷ [])
      × (r ≡ length old)
      × ((other : String) → name ≢ other → api.stream s' other ≡ api.stream s other)

module _ (api : Api) (laws : Laws api) {T : Type 0} (serialise : T → Option api.Data) where
  sent_one :
      (s : api.Server) (name event_type failure : String) (state : StreamState)
      (contexts : List String) (o : Option api.Data) (r : ℕ)
      → (send api s name state failure (json api contexts event_type o >>= λ e. ok (e ∷ []))).1
        ≡ ok r
      → (d : api.Data) × (o ≡ some d)
        × Grown api s
            (send api s name state failure (json api contexts event_type o >>= λ e. ok (e ∷ []))).0
            name
            event_type
            d
            r
  sent_one s name event_type failure state contexts none r h = absurd (cc h)
  sent_one s name event_type failure state contexts (some d) r h =
      let reply = acknowledged api (failure ∷ []) _ r h in
      let (grown, last) = laws.append_done s name state _ [] r reply in
      (
        d,
        refl,
        (grown, omega (arith, last), λ other ne. laws.append_elsewhere s name other state _ ne),
      )

  -- An acknowledged `append_with_stream_state` has stored exactly the serialised payload, under the
  -- next revision, which it returns, and has left every other stream as it was.
  pub append_with_stream_state_exact :
      (s : api.Server) (name event_type : String) (payload : T) (state : StreamState) (r : ℕ)
      → (append_with_stream_state api serialise s name event_type payload state).1 ≡ ok r
      → (d : api.Data) × (serialise payload ≡ some d)
        × Grown api s
            (append_with_stream_state api serialise s name event_type payload state).0
            name
            event_type
            d
            r
  unfolding append_with_stream_state
  append_with_stream_state_exact s name event_type payload state r h =
      sent_one s name event_type _ state _ (serialise payload) r h

  -- An acknowledged `append` has done the same, whatever the stream held.
  pub append_exact :
      (s : api.Server) (name event_type : String) (payload : T) (r : ℕ)
      → (append api serialise s name event_type payload).1 ≡ ok r
      → (d : api.Data) × (serialise payload ≡ some d)
        × Grown api s (append api serialise s name event_type payload).0 name event_type d r
  unfolding append
  append_exact s name event_type payload r h =
      sent_one s name event_type _ any _ (serialise payload) r h

  -- the events of a batch: the payloads, serialised, in their order
  abbrev pub IsBatch : String → List T → List (EventData api.Data) → Type 0
  IsBatch event_type [] [] = Unit
  IsBatch event_type [] (e ∷ es) = ⊥
  IsBatch event_type (p ∷ ps) [] = ⊥
  IsBatch event_type (p ∷ ps) (e ∷ es) =
      (serialise p ≡ some e.data') × (e.event_type ≡ event_type) × IsBatch event_type ps es

  length-IsBatch :
      (event_type : String) (ps : List T) (es : List (EventData api.Data))
      → IsBatch event_type ps es
      → length es ≡ length ps
  length-IsBatch event_type [] [] b = refl
  length-IsBatch event_type [] (e ∷ es) b = absurd b
  length-IsBatch event_type (p ∷ ps) [] b = absurd b
  length-IsBatch event_type (p ∷ ps) (e ∷ es) b = ap suc (length-IsBatch event_type ps es b.2)

  events_of-IsBatch :
      (event_type : String) (ps : List T) (es : List (EventData api.Data))
      → events_of api serialise event_type ps ≡ ok es
      → IsBatch event_type ps es
  unfolding events_of
  events_of-IsBatch event_type [] [] h = tt
  events_of-IsBatch event_type [] (e ∷ es) h = absurd (cc h)
  events_of-IsBatch event_type (p ∷ ps) es h =
      let (d, es0, e1, e2, e3) =
        batch_step api ("serialise failed" ∷ []) event_type (serialise p)
          (events_of api serialise event_type ps) es h in
      subst (IsBatch event_type (p ∷ ps)) (sym e3)
        (e1, refl, events_of-IsBatch event_type ps es0 e2)

  -- the stream has grown by a batch
  abbrev pub GrownBatch : api.Server → api.Server → String → String → List T → ℕ → Type 0
  GrownBatch s s' name event_type payloads r =
      let old = api.stream s name in
      (es : List (EventData api.Data)) × IsBatch event_type payloads es
      × (api.stream s' name ≡ old ++ number (length old) es)
      × (r + 1 ≡ length old + length payloads)
      × ((other : String) → name ≢ other → api.stream s' other ≡ api.stream s other)

  sent_batch :
      (s : api.Server) (name event_type failure : String) (state : StreamState) (p : T)
      (ps : List T) (r : ℕ) (m : Result (List (EventData api.Data)))
      → m ≡ events_of api serialise event_type (p ∷ ps)
      → (send api s name state failure m).1 ≡ ok r
      → GrownBatch s (send api s name state failure m).0 name event_type (p ∷ ps) r
  sent_batch s name event_type failure state p ps r (err e) eq h = absurd (cc h)
  sent_batch s name event_type failure state p ps r (ok []) eq h =
      absurd (events_of-IsBatch event_type (p ∷ ps) [] (sym eq))
  sent_batch s name event_type failure state p ps r (ok (e ∷ es)) eq h =
      let batch = events_of-IsBatch event_type (p ∷ ps) (e ∷ es) (sym eq) in
      let reply = acknowledged api (failure ∷ []) _ r h in
      let (grown, last) = laws.append_done s name state e es r reply in
      (
        e ∷ es,
        batch,
        grown,
        omega (arith, last, length-IsBatch event_type ps es batch.2),
        λ other ne. laws.append_elsewhere s name other state _ ne,
      )

  -- An acknowledged `append_batch` of at least one payload has stored all of them, serialised, in
  -- their order and under the next revisions, returns the revision of the last, and has left every
  -- other stream as it was.
  pub append_batch_exact :
      (s : api.Server) (name event_type : String) (p : T) (ps : List T) (r : ℕ)
      → (append_batch api serialise s name event_type (p ∷ ps)).1 ≡ ok r
      → GrownBatch s
          (append_batch api serialise s name event_type (p ∷ ps)).0
          name
          event_type
          (p ∷ ps)
          r
  unfolding append_batch
  append_batch_exact s name event_type p ps r h = sent_batch s name event_type _ any p ps r _ refl h

  -- The same holds of an acknowledged `append_batch_with_stream_revision`.
  pub append_batch_with_stream_revision_exact :
      (s : api.Server) (name event_type : String) (p : T) (ps : List T) (expected r : ℕ)
      → (append_batch_with_stream_revision api serialise s name event_type (p ∷ ps) expected).1
        ≡ ok r
      → GrownBatch s
          (append_batch_with_stream_revision api serialise s name event_type (p ∷ ps) expected).0
          name
          event_type
          (p ∷ ps)
          r
  unfolding append_batch_with_stream_revision
  append_batch_with_stream_revision_exact s name event_type p ps expected r h =
      sent_batch s name event_type _ (stream_revision expected) p ps r _ refl h
