-- ===== src/Examples/Server.antt =====
-- A KurrentDB server in memory, with the payloads of the examples.
use event_sourcing_testbed.Common.{
  ℕ, ◌+◌, ◌≡◌, ◌≢◌, refl, inl, inr, String, List, [], ◌∷◌, ◌++◌, map, some, Bool-cases, str_eq,
  if◌then◌else◌, ◌==◌, length, eq_iff, eq_refl,
}
use event_sourcing_testbed.Events.{BenchmarkEvent}
use event_sourcing_testbed.Inventory.{SnapshotEnvelope}
use event_sourcing_testbed.Kurrent.Driver.{
  Api, Laws, EventData, Recorded, StreamState, any, stream_revision, Reply, done, refused, number,
  select, event,
}
use event_sourcing_testbed.Kurrent.Reads.{IsHonest}

pub data Payload : Type 0 where
  with_quantity : ℕ → Payload
  empty : Payload
  snapshot_of : SnapshotEnvelope → Payload
  bench : BenchmarkEvent → Payload

abbrev pub Streams : Type 0
Streams = String → List (Recorded Payload)

abbrev pub no_streams : Streams
no_streams name = []

abbrev pub stored : Streams → String → List (EventData Payload) → Streams
stored s name events other =
    if str_eq name other then s other ++ number (length (s other)) events else s other

abbrev last_of : ℕ → List (EventData Payload) → ℕ
last_of n [] = n
last_of n (e ∷ es) = n + length es

-- an append at a revision is refused if the stream ends elsewhere
abbrev pub put_events :
    Streams → String → StreamState → List (EventData Payload) → Streams × Reply ℕ
put_events s name any events = (stored s name events, done (last_of (length (s name)) events))
put_events s name (stream_revision r) events =
    if length (s name) == r + 1
    then (stored s name events, done (last_of (length (s name)) events))
    else (s, refused "WrongExpectedVersion")

abbrev pub memory : Api
memory = record {
  Server = Streams;
  Data = Payload;
  Value = Payload;
  null = empty;
  from_slice = λ d. some d;
  append_to_stream = put_events;
  read_stream = λ s name sel. done (map event (select sel (s name)));
  stream = λ s name. s name;
}

grown :
    (s : Streams) (name : String) (e : EventData Payload) (es : List (EventData Payload)) (r : ℕ)
    → ◌≡◌ {A = Reply ℕ} (done (length (s name) + length es)) (done r)
    → (stored s name (e ∷ es) name ≡ s name ++ number (length (s name)) (e ∷ es))
      × (r ≡ length (s name) + length es)
grown s name e es r h = (rw (eq_refl name) refl, cc h)

elsewhere :
    (s : Streams) (name other : String) (es : List (EventData Payload))
    → name ≢ other
    → stored s name es other ≡ s other
elsewhere s name other es ne = elim (Bool-cases (str_eq name other)) [
  | inl same ↦ absurd (ne ((eq_iff name other).0 same))
  | inr differ ↦ rw differ refl
]

memory_laws : Laws memory
memory_laws = record {
  append_done = done_lem;
  append_elsewhere = elsewhere_lem;
  read_done = λ s name sel items h. inl (cc h);
}
  where
    done_lem :
        (s : Streams) (name : String) (state : StreamState) (e : EventData Payload)
        (es : List (EventData Payload)) (r : ℕ)
        → (put_events s name state (e ∷ es)).1 ≡ done r
        → ((put_events s name state (e ∷ es)).0 name ≡ s name ++ number (length (s name)) (e ∷ es))
          × (r ≡ length (s name) + length es)
    done_lem s name any e es r h = grown s name e es r h
    done_lem s name (stream_revision q) e es r h = elim (Bool-cases (length (s name) == q + 1)) [
      | inl good ↦ rw good (grown s name e es r (rw good at h))
      | inr bad ↦ absurd (cc (rw bad at h))
    ]

    elsewhere_lem :
        (s : Streams) (name other : String) (state : StreamState) (es : List (EventData Payload))
        → name ≢ other
        → (put_events s name state es).0 other ≡ s other
    elsewhere_lem s name other any es ne = elsewhere s name other es ne
    elsewhere_lem s name other (stream_revision q) es ne =
        elim (Bool-cases (length (s name) == q + 1)) [
          | inl good ↦ rw good (elsewhere s name other es ne)
          | inr bad ↦ rw bad refl
        ]

pub memory_IsHonest : IsHonest memory
memory_IsHonest = record { laws = memory_laws; missing = λ s name sel msg h. absurd (cc h) }

pub main_ne_snapshots : ◌≢◌ {A = String} "snapshots" "main"
main_ne_snapshots h = absurd (cc h)
