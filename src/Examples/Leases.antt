-- ===== src/Examples/Leases.antt =====
-- Leases in memory: documents of a collection.
use event_sourcing_testbed.Common.{
  ◌<◌, ◌⊎◌, ap, eq_iff, ◌≡◌, ◌≢◌, refl, sym, inl, inr, String, str_eq, eq_refl, [], ◌∷◌, Option,
  none, some, Bool, false, if◌then◌else◌, arith, Bool-cases,
}
use event_sourcing_testbed.Common.Result.{err}
use event_sourcing_testbed.Kurrent.Driver.{Reply, done, refused}
use event_sourcing_testbed.Mongo.Leases.{
  Lease, Leases, try_acquire_lease, try_acquire_lease_excludes, acquire, release, calls, call,
  UpdateResult,
}
use event_sourcing_testbed.Mongo.Leases as Documents

abbrev Db : Type 0
Db = String → Option Lease

abbrev put_lease : Db → String → Option Lease → Db
put_lease db id o s = if str_eq s id then o else db s

abbrev updated : Db → String → (Lease → Bool) → Lease → Option Lease → Db × Reply UpdateResult
updated db id test new none =
    (put_lease db id (some new), done (record { matched_count = 0; upserted_id = some id }))
updated db id test new (some old) =
    if test old
    then (put_lease db id (some new), done (record { matched_count = 1; upserted_id = none }))
    else (db, refused "E11000")

abbrev deleted : Db → String → (Lease → Bool) → Option Lease → Db
deleted db id test none = db
deleted db id test (some old) = if test old then put_lease db id none else db

abbrev memory : Leases
memory = record {
  Db = Db;
  update_one = λ db id test new. updated db id test new (db id);
  delete_one = λ db id test. (deleted db id test (db id), done tt);
  lease = λ db id. db id;
}

differ_lem : (other id : String) → other ≢ id → str_eq other id ≡ false
differ_lem other id h = elim (Bool-cases (str_eq other id)) [
  | inl same ↦ absurd (h ((eq_iff other id).0 same))
  | inr differ ↦ differ
]

updated_lem :
    (db : Db) (id : String) (test : Lease → Bool) (new : Lease) (r : UpdateResult)
    (o : Option Lease)
    → (updated db id test new o).1 ≡ done r
    → ((updated db id test new o).0 id ≡ some new)
      × ((0 < r.matched_count) ⊎ ((i : String) × (r.upserted_id ≡ some i)))
updated_lem db id test new r none h =
    let same : record { matched_count = 0; upserted_id = some id } ≡ r = cc h in
    (rw (eq_refl id) refl, inr (id, ap (λ (x : UpdateResult). x.upserted_id) (sym same)))
updated_lem db id test new r (some old) h = elim (Bool-cases (test old)) [
  | inl takes ↦
      let same : record { matched_count = 1; upserted_id = none } ≡ r = cc (rw takes at h) in
      (
        rw (takes, eq_refl id) refl,
        inl (omega (arith, ap (λ (x : UpdateResult). x.matched_count) same)),
      )
  | inr keeps ↦ absurd (cc (rw keeps at h))
]

updated_others :
    (db : Db) (id other : String) (test : Lease → Bool) (new : Lease) (o : Option Lease)
    → other ≢ id
    → (updated db id test new o).0 other ≡ db other
updated_others db id other test new none h = rw (differ_lem other id h) refl
updated_others db id other test new (some old) h = elim (Bool-cases (test old)) [
  | inl takes ↦ rw (takes, differ_lem other id h) refl
  | inr keeps ↦ rw keeps refl
]

deleted_others :
    (db : Db) (id other : String) (test : Lease → Bool) (o : Option Lease)
    → other ≢ id
    → deleted db id test o other ≡ db other
deleted_others db id other test none h = refl
deleted_others db id other test (some old) h = elim (Bool-cases (test old)) [
  | inl takes ↦ rw (takes, differ_lem other id h) refl
  | inr keeps ↦ rw keeps refl
]

memory_laws : Documents.Laws memory
memory_laws = record {
  updated = λ db id test new r h. updated_lem db id test new r (db id) h;
  clash = λ db id test new old held fails. rw (held, fails) (held, ("E11000", refl));
  update_others = λ db id other test new h. updated_others db id other test new (db id) h;
  delete_kept = λ db id test old held fails. rw (held, fails) held;
  delete_others = λ db id other test h. deleted_others db id other test (db id) h;
}

abbrev fresh : Db
fresh id = none

a_b : ◌≢◌ {A = String} "a" "b"
a_b e = absurd (cc ((eq_iff "a" "b").1 e))

a_c : ◌≢◌ {A = String} "a" "c"
a_c e = absurd (cc ((eq_iff "a" "c").1 e))

-- "b" and "c" try in vain while the lease of "a" lasts, 30 ticks
try_acquire_lease_excludes_example :
    let db' =
      calls memory 1
        (acquire 5 "g" "b" 30 ∷ release "g" "b" ∷ [])
        (try_acquire_lease memory 1 0 "g" "a" 30 fresh).0 in
    (message : String) × ((try_acquire_lease memory 1 30 "g" "c" 30 db').1
      ≡ err ("failed to update competing consumer lease" ∷ message ∷ []))
unfolding try_acquire_lease
try_acquire_lease_excludes_example =
    try_acquire_lease_excludes memory 1 memory_laws 0 30 30 30 "g" "a" "c" fresh
      (acquire 5 "g" "b" 30 ∷ release "g" "b" ∷ []) refl ((a_b, omega arith), (a_b, tt)) a_c
      (omega arith)
