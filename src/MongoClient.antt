-- ===== src/MongoClient.antt =====
-- rust-app/src/mongodb/client.rs: the appends and reads of `MongoClient`. The `mongodb` and `bson`
-- crates and the server are the parameter `Server`; `uuid` and `serde` are parameters too. Versions
-- and positions are `i64`s that count up from 0, so they are natural numbers.
pub mod Streams
use event_sourcing_testbed.Common.{
  ℕ, zero, suc, ◌+◌, ◌≡◌, String, List, [], ◌∷◌, reverse, Option, none, some, length, if◌then◌else◌,
}
use mathlib.Core.Option.{get_or}
use event_sourcing_testbed.Common.Result.{Result, ok, err, format, or_err, ◌>>=◌}
use event_sourcing_testbed.Kurrent.Driver.{Reply, done, refused}
use event_sourcing_testbed.Store.Checkpoints.{with_context}
use event_sourcing_testbed.Mongo.Driver.{InsertReply, inserted, duplicate_key, insert_failed}

pub data Bson : Type 0 where
  text : String → Bson
  long : ℕ → Bson

pub record Server : Type 1 where
  pub State : Type 0
  pub Document : Type 0
  -- `doc.insert(key, value)`
  pub insert : Document → String → Bson → Document
  pub get_i64 : Document → String → Option ℕ
  -- `find_one_and_update` by collection and `_id` with `$inc`, `upsert` and `ReturnDocument::Before`
  pub increment : State → String → String → String → ℕ → State × Reply (Option Document)
  pub insert_many : State → String → List Document → State × Reply (Unit {0})
  pub insert_one : State → String → Document → State × InsertReply
  -- `find(doc! { "stream_id": name })`, by `stream_version` downwards, with a limit: what `try_next`
  -- yields
  pub find_newest : State → String → ℕ → Reply (List (Reply Document))
  -- the same with `find_one`
  pub find_last : State → String → Reply (Option Document)

module _ (server : Server) where
  open server use {Document, insert, get_i64}

  -- `doc.as_ref().and_then(|d| d.get_i64(field).ok()).unwrap_or(0)`
  abbrev pub before : Option Document → String → ℕ
  before none field = 0
  before (some d) field = get_or (get_i64 d field) 0

  abbrev pub stamped : Document → String → String → String → ℕ → ℕ → Document
  stamped doc id event_type stream_id version position =
      insert
        (insert
          (insert (insert (insert doc "_id" (text id)) "event_type" (text event_type)) "stream_id"
            (text stream_id))
          "stream_version" (long version))
        "global_position" (long position)

module _ (server : Server) {T : Type 0} (to_document : T → Option server.Document)
    (uuid : ℕ → String) where
  open server use {
    State, Document, insert, get_i64, increment, insert_many, insert_one, find_newest, find_last,
  }

  -- the documents of a batch; `uuid` gives the fresh identifier for a version
  unfoldable pub documents : String → String → ℕ → ℕ → List T → Result (List Document)
  documents collection_name event_type version position [] = ok []
  documents collection_name event_type version position (p ∷ ps) =
      or_err "failed to serialise event to BSON" (to_document p) >>= λ doc.
      documents collection_name event_type (version + 1) (position + 1) ps >>= λ docs.
      ok (stamped server doc (uuid version) event_type collection_name version position ∷ docs)

  unfoldable pub append_batch_versioned :
      State → String → String → List T → State × Result (Unit {0})
  unfolding documents
  append_batch_versioned s collection_name event_type payloads =
      let batch_len = length payloads in
      let (s1, ver_before) = increment s "_stream_versions" collection_name "version" batch_len in
      elim (with_context (format "version counter update failed for '" collection_name "'")
        ver_before) [
          | err e ↦ (s1, err e)
          | ok ver ↦
              let start_version = before server ver "version" in
              let (s2, gseq_before) = increment s1 "_global_seq" "counter" "seq" batch_len in
              elim (with_context "global sequence counter update failed" gseq_before) [
                | err e ↦ (s2, err e)
                | ok gseq ↦
                    let global_start = before server gseq "seq" in
                    elim (documents collection_name event_type start_version global_start
                      payloads) [
                        | err e ↦ (s2, err e)
                        | ok docs ↦
                            let (s3, reply) = insert_many s2 collection_name docs in
                            (
                              s3,
                              with_context
                                  (format "versioned batch insert to '" collection_name "' failed")
                                  reply,
                            )
                      ]
              ]
        ]

  abbrev pub explicit : String → State × InsertReply → State × Result (Unit {0})
  explicit collection_name (s, inserted) = (s, ok tt)
  explicit collection_name (s, duplicate_key) = (s, err ("wrong expected version" ∷ []))
  explicit collection_name (s, insert_failed e) =
      (s, err (format "explicit-version insert to '" collection_name "' failed" ∷ e ∷ []))

  unfoldable pub append_with_stream_version :
      State → String → String → T → ℕ → State × Result (Unit {0})
  append_with_stream_version s collection_name event_type payload stream_version =
      let (s1, gseq_before) = increment s "_global_seq" "counter" "seq" 1 in
      elim (with_context "global sequence counter update failed" gseq_before) [
        | err e ↦ (s1, err e)
        | ok gseq ↦ elim (or_err "failed to serialise event to BSON" (to_document payload)) [
          | err e ↦ (s1, err e)
          | ok doc ↦ explicit collection_name (
              insert_one s1 collection_name (
                stamped server doc (uuid stream_version) event_type collection_name stream_version
                  (before server gseq "seq")))
        ]
      ]

  unfoldable pub read_last_stream_version : State → String → Result (Option ℕ)
  read_last_stream_version s collection_name =
      with_context (format "find last stream version failed for '" collection_name "'")
        (find_last s collection_name)
      >>= λ maybe. ok (elim maybe [ none ↦ none | some d ↦ get_i64 d "stream_version" ])

module _ (server : Server) {T : Type 0} (from_document : server.Document → Option T) where
  open server use {State, Document, find_newest}

  abbrev pub kept : Option T → List T → List T
  kept none events = events
  kept (some ev) events = ev ∷ events

  -- the loop over the cursor
  unfoldable pub collect : List (Reply Document) → Result (List T)
  collect [] = ok []
  collect (refused e ∷ items) = err (e ∷ [])
  collect (done doc ∷ items) = collect items >>= λ events. ok (kept (from_document doc) events)

  unfoldable pub read_last_n_bench_events : State → String → ℕ → Result (List T)
  unfolding collect
  read_last_n_bench_events s collection_name n =
      with_context (format "find failed on '" collection_name "'") (find_newest s collection_name n)
      >>= λ items. collect items >>= λ events. ok (reverse events)
