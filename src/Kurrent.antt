-- ===== src/Kurrent.antt =====
-- rust-app/src/kurrentdb/client.rs: the wrapper round the `kurrentdb` crate. The crate and the
-- server behind it are the parameter `Api`; `Laws` of Kurrent/Driver.antt states what the wrapper's callers rely on.
pub mod Driver
pub mod Reads
pub mod Appends
pub mod Streams
use event_sourcing_testbed.Common.{
  ℕ, zero, suc, String, List, [], ◌∷◌, ◌++◌, reverse, Option, none, some, Bool, true, false, ◌||◌,
  map, if◌then◌else◌,
}
use event_sourcing_testbed.Common.Result.{Result, ok, err, ◌>>=◌, context, format}
use text.Mathlib.Text.{find?}
use mathlib.Core.Option.{get_or}
use Driver.{
  Api, Recorded, EventData, StreamState, any, stream_revision, Reply, done, refused, ReadItem,
  event, broken, Selection, from_start, from_revision, last,
}

abbrev is_some {ℓ} : {A : Type ℓ} → Option A → Bool
is_some none = false
is_some (some a) = true

-- `msg.contains(part)`
abbrev pub contains : String → String → Bool
contains msg part = is_some (find? msg part)

-- the three reads' test for a stream that does not exist
unfoldable pub is_missing : String → Bool
is_missing msg =
    contains msg "StreamNotFound" || contains msg "stream not found" || contains msg "not found"

module _ (api : Api) where
  open api use {Server, Data, Value, null, from_slice, append_to_stream, read_stream}

  -- what the reads return of an event: its type, revision and payload
  abbrev pub Triple : Type 0
  Triple = String × ℕ × Value

  abbrev pub triple : Recorded Data → Triple
  triple recorded =
      (recorded.event_type, recorded.revision, get_or (from_slice recorded.data') null)

  abbrev pub to_result : List String → Reply ℕ → Result ℕ
  to_result contexts (done r) = ok r
  to_result contexts (refused msg) = err (contexts ++ msg ∷ [])

  -- `EventData::json(event_type, payload).with_context(...)`, without serde's own message
  abbrev pub json : List String → String → Option Data → Result (EventData Data)
  json contexts event_type none = err contexts
  json contexts event_type (some d) = ok (record { event_type = event_type; data' = d })

  -- an event that cannot be serialised is never sent
  abbrev pub send :
      Server → String → StreamState → String → Result (List (EventData Data)) → Server × Result ℕ
  send s stream_name state failure (err e) = (s, err e)
  send s stream_name state failure (ok events) =
      let (s', reply) = append_to_stream s stream_name state events in
      (s', to_result (failure ∷ []) reply)

  module _ {T : Type 0} (serialise : T → Option Data) where
    unfoldable pub append_with_stream_state :
        Server → String → String → T → StreamState → Server × Result ℕ
    append_with_stream_state s stream_name event_type payload stream_state =
        send s stream_name stream_state (format "append to stream '" stream_name "' failed") (
          json (format "failed to serialise event type '" event_type "'" ∷ []) event_type
            (serialise payload)
          >>= λ e. ok (e ∷ []))

    unfoldable pub append : Server → String → String → T → Server × Result ℕ
    unfolding append_with_stream_state
    append s stream_name event_type payload =
        send s stream_name any (format "append to stream '" stream_name "' failed") (
          json (format "failed to serialise event type '" event_type "'" ∷ []) event_type
            (serialise payload)
          >>= λ e. ok (e ∷ []))

    pub events_of : String → List T → Result (List (EventData Data))
    events_of event_type [] = ok []
    events_of event_type (p ∷ payloads) =
        let rest = events_of event_type payloads in
        json ("serialise failed" ∷ []) event_type (serialise p) >>= λ e. rest >>= λ es. ok (e ∷ es)

    unfoldable pub append_batch : Server → String → String → List T → Server × Result ℕ
    unfolding events_of
    append_batch s stream_name event_type payloads =
        send s stream_name any (format "batch append to '" stream_name "' failed")
          (events_of event_type payloads)

    unfoldable pub append_batch_with_stream_revision :
        Server → String → String → List T → ℕ → Server × Result ℕ
    unfolding events_of
    append_batch_with_stream_revision s stream_name event_type payloads expected_revision =
        send s stream_name (stream_revision expected_revision)
          (format "batch append with revision to '" stream_name "' failed")
          (events_of event_type payloads)

  -- `loop { match read_stream.next().await { ... } }`
  pub collect : String → List (ReadItem Data) → List Triple → Result (List Triple)
  collect failure [] events = ok events
  collect failure (event recorded ∷ items) events =
      collect failure items (events ++ triple recorded ∷ [])
  collect failure (broken e ∷ items) events = err (format failure ": " e ∷ [])

  -- `match self.inner.read_stream(...)`: an error that says "not found" stands for no events
  pub answer :
      {A : Type 0}
      → A
      → String
      → (List (ReadItem Data) → Result A)
      → Reply (List (ReadItem Data))
      → Result A
  unfolding is_missing
  answer absent failure k (done items) = k items
  answer absent failure k (refused msg) =
      if is_missing msg then ok absent else err (format failure ": " msg ∷ [])

  unfoldable pub read_stream_events : Server → String → Result (List Triple)
  unfolding answer collect
  read_stream_events s stream_name =
      answer [] (format "read_stream '" stream_name "' failed")
        (λ items. collect (format "error reading '" stream_name "'") items [])
        (read_stream s stream_name from_start)

  -- (its messages leave out the revision)
  unfoldable pub read_stream_from_revision : Server → String → ℕ → Result (List Triple)
  unfolding answer collect
  read_stream_from_revision s stream_name revision =
      answer [] (format "read_stream_from_revision '" stream_name "' failed")
        (λ items. collect (format "error reading '" stream_name "'") items [])
        (read_stream s stream_name (from_revision revision))

  -- one `next`: nothing, the event, or an error
  abbrev pub first : String → List (ReadItem Data) → Result (Option Triple)
  first failure [] = ok none
  first failure (event recorded ∷ items) = ok (some (triple recorded))
  first failure (broken e ∷ items) = err (format failure ": " e ∷ [])

  unfoldable pub read_last_event : Server → String → Result (Option Triple)
  unfolding answer
  read_last_event s stream_name =
      answer none (format "read_last_event '" stream_name "' failed")
        (first (format "error reading last event '" stream_name "'"))
        (read_stream s stream_name (last 1))

  -- events whose payload is no `BenchmarkEvent` are skipped
  module _ {B : Type 0} (decode : Data → Option B) where
    abbrev pub push : List B → Option B → List B
    push events none = events
    push events (some b) = events ++ b ∷ []

    pub collect_bench : String → List (ReadItem Data) → List B → Result (List B)
    collect_bench failure [] events = ok events
    collect_bench failure (event recorded ∷ items) events =
        collect_bench failure items (push events (decode recorded.data'))
    collect_bench failure (broken e ∷ items) events = err (format failure ": " e ∷ [])

    unfoldable pub read_last_n_bench_events : Server → String → ℕ → Result (List B)
    unfolding answer collect_bench
    read_last_n_bench_events s stream_name n =
        answer [] (format "read_last_n '" stream_name "' failed")
          (λ items. collect_bench (format "error reading '" stream_name "'") items [] >>= λ events.
            ok (reverse events))
          (read_stream s stream_name (last n))

  -- the server is up if it answers, if only to say that the stream is not there
  unfoldable pub ping : Server → Result (Unit {0})
  ping s = elim (read_stream s "$ping-probe" from_start) [
    | done items ↦ ok tt
    | refused msg ↦
        if contains msg "StreamNotFound"
          || contains msg "stream not found"
          || contains msg "AccessDenied"
          || contains msg "not found"
        then ok tt
        else err (format "KurrentDB not ready: " msg "" ∷ [])
  ]
