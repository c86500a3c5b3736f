-- ===== src/Kurrent/Driver.antt =====
-- The interface of the `kurrentdb` crate and of `serde_json` as rust-app/src/kurrentdb calls them.
-- `Server` is the state behind the connection; reads leave it as it is.
use event_sourcing_testbed.Common.{
  ℕ, suc, ◌+◌, ◌≡◌, ◌≢◌, refl, ap, ◌⊎◌, String, List, [], ◌∷◌, ◌++◌, reverse, Option, map, length,
  take, drop,
}

-- `StreamState::{Any, StreamRevision}`
pub data StreamState : Type 0 where
  any : StreamState
  stream_revision : ℕ → StreamState

-- Which events a read asks for: `ReadStreamOptions`.
pub data Selection : Type 0 where
  from_start : Selection
  from_revision : ℕ → Selection
  last : ℕ → Selection

-- What a call answers: a value, or an error with its message.
pub data Reply {ℓ} (A : Type ℓ) : Type ℓ where
  done : A → Reply A
  refused : String → Reply A

module _ (Data : Type 0) where
  pub record EventData : Type 0 where
    pub event_type : String
    pub data' : Data

  pub record Recorded : Type 0 where
    pub event_type : String
    pub revision : ℕ
    pub data' : Data

  -- What `next` yields before the end of a read.
  pub data ReadItem : Type 0 where
    event : Recorded → ReadItem
    broken : String → ReadItem

pub record Api : Type 1 where
  pub Server : Type 0
  pub Data : Type 0
  pub Value : Type 0
  pub null : Value
  pub from_slice : Data → Option Value
  pub append_to_stream : Server → String → StreamState → List (EventData Data) → Server × Reply ℕ
  pub read_stream : Server → String → Selection → Reply (List (ReadItem Data))
  -- the events that the server holds for a stream, oldest first
  pub stream : Server → String → List (Recorded Data)

module _ {Data : Type 0} where
  abbrev pub number : ℕ → List (EventData Data) → List (Recorded Data)
  number n [] = []
  number n (e ∷ es) =
      record { event_type = e.event_type; revision = n; data' = e.data' } ∷ number (suc n) es

  pub length-number : (n : ℕ) (es : List (EventData Data)) → length (number n es) ≡ length es
  length-number n [] = refl
  length-number n (e ∷ es) = ap suc (length-number (suc n) es)

  abbrev pub select : Selection → List (Recorded Data) → List (Recorded Data)
  select from_start es = es
  select (from_revision r) es = drop r es
  select (last n) es = take n (reverse es)

-- What the documentation of KurrentDB promises of these calls.
pub record Laws (api : Api) : Type 0 where
  -- a batch is appended behind the stream's events, with the next revisions, and the answer is the
  -- revision of its last event
  pub append_done :
      (s : api.Server) (name : String) (state : StreamState) (e : EventData api.Data)
      (es : List (EventData api.Data)) (r : ℕ)
      → (api.append_to_stream s name state (e ∷ es)).1 ≡ done r
      → let s' = (api.append_to_stream s name state (e ∷ es)).0 in
        let old = api.stream s name in
        (api.stream s' name ≡ old ++ number (length old) (e ∷ es)) × (r ≡ length old + length es)
  -- an append touches no other stream
  pub append_elsewhere :
      (s : api.Server) (name other : String) (state : StreamState) (es : List (EventData api.Data))
      → name ≢ other
      → api.stream (api.append_to_stream s name state es).0 other ≡ api.stream s other
  -- a read yields the selected events, or breaks off with an error after some of them
  pub read_done :
      (s : api.Server) (name : String) (sel : Selection) (items : List (ReadItem api.Data))
      → api.read_stream s name sel ≡ done items
      → (items ≡ map event (select sel (api.stream s name)))
        ⊎ ((n : ℕ) × (message : String) × (items
              ≡ map event (take n (select sel (api.stream s name))) ++ broken message ∷ []))
