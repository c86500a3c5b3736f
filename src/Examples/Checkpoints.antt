-- ===== src/Examples/Checkpoints.antt =====
-- Checkpoints as documents in memory.
use event_sourcing_testbed.Common.{
  ◌≡◌, ◌≢◌, refl, ap, eq_iff, String, str_eq, eq_refl, List, [], ◌∷◌, Option, none, some, false,
  ◌&&◌, Bool-cases, inl, inr, if◌then◌else◌,
}
use mathlib.Core.Option.{get_or}
use event_sourcing_testbed.Common.Int.{ℤ, pos}
use event_sourcing_testbed.Common.Result.{Result, ok}
use event_sourcing_testbed.Kurrent.Driver.{done}
use event_sourcing_testbed.Store.{EventEnvelope}
use event_sourcing_testbed.Store.Checkpoints.{save_checkpoint, load_checkpoint}
use event_sourcing_testbed.Mongo.Checkpoints.{
  Bson, text, long, Collections, Laws, set_all, set_position, find_position, position,
  load_checkpoint-save_checkpoint,
}

abbrev Doc : Type 0
Doc = String → Option ℤ

abbrev Db : Type 0
Db = String → String → Option Doc

abbrev set_field : Doc → String → Bson → Doc
set_field d key (text t) k = if str_eq k key then none else d k
set_field d key (long n) k = if str_eq k key then some n else d k

abbrev set_fields : Doc → List (String × Bson) → Doc
set_fields d [] = d
set_fields d ((key, v) ∷ fields) = set_fields (set_field d key v) fields

abbrev blank : Doc
blank k = none

abbrev updated : Db → String → String → List (String × Bson) → Db
updated db collection id fields c k =
    if str_eq c collection && str_eq k id
    then some (set_fields (get_or (db collection id) blank) fields)
    else db c k

abbrev memory : Collections
memory = record {
  Db = Db;
  Document = Doc;
  update_one = λ db collection id fields upsert. (updated db collection id fields, done tt);
  find_one = λ db collection id. done (db collection id);
  get_i64 = λ d key. d key;
  stored = λ db collection id. db collection id;
  set = set_field;
}

unequal : (a b : String) → a ≢ b → str_eq a b ≡ false
unequal a b h = elim (Bool-cases (str_eq a b)) [
  | inl same ↦ absurd (h ((eq_iff a b).0 same))
  | inr differ ↦ differ
]

set_fields-set_all :
    (d : Doc) (fields : List (String × Bson)) → set_fields d fields ≡ set_all memory d fields
set_fields-set_all d [] = refl
set_fields-set_all d ((key, v) ∷ fields) = set_fields-set_all (set_field d key v) fields

get_set_ne :
    (d : Doc) (key other : String) (v : Bson) → other ≢ key → set_field d key v other ≡ d other
get_set_ne d key other (text t) h = rw (unequal other key h) refl
get_set_ne d key other (long n) h = rw (unequal other key h) refl

memory_laws : Laws memory
memory_laws = record {
  updated = λ db collection id fields h. (
    get_or (db collection id) blank,
    rw (eq_refl collection, eq_refl id) (ap some (set_fields-set_all _ fields)),
  );
  update_others =
      λ db collection id other fields upsert h. rw (eq_refl collection, unequal other id h) refl;
  found = λ db collection id o h. cc h;
  get_set = λ d key n. rw (eq_refl key) refl;
  get_set_ne = get_set_ne;
}

abbrev empty : Db
empty c k = none

abbrev accept : Db → EventEnvelope Doc → Db × Result (Unit {0})
accept db e = (db, ok tt)

differ : ◌≢◌ {A = String} "audit" "billing"
differ h = absurd (cc ((eq_iff "audit" "billing").1 h))

load_checkpoint-save_checkpoint_example :
    (some (pos 7) ≡ some (pos 7)) × (none ≡ position memory (λ db. "now") empty "audit")
unfolding save_checkpoint load_checkpoint set_position find_position
load_checkpoint-save_checkpoint_example =
    load_checkpoint-save_checkpoint memory (λ db. "now") accept (λ db. []) memory_laws empty
      "billing" "audit" (pos 7) (some (pos 7)) none differ refl refl refl
