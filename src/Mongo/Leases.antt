-- ===== src/Mongo/Leases.antt =====
-- `try_acquire_lease` and `release_lease` of rust-app/src/mongodb/event_store.rs. The collection
-- `_competing_consumers` is the parameter `Leases`. Times are numbers of ticks: RFC 3339 texts in UTC
-- are in the order of the times that they name.
use event_sourcing_testbed.Common.{
  ℕ, ◌+◌, ◌*◌, ◌<◌, ◌≤◌, ◌≡◌, ◌≢◌, refl, sym, subst, ◌∙◌, ◌⊎◌, inl, inr, String, str_eq, eq_iff,
  List, [], ◌∷◌, Option, none, some, Bool, true, false, ◌||◌, ltb, arith, Bool-cases,
}
use event_sourcing_testbed.Common.Result.{Result, ok, err}
use event_sourcing_testbed.Kurrent.Driver.{Reply, done, refused}
use event_sourcing_testbed.Store.Checkpoints.{with_context, reply_cases}

-- a document of the collection, without its `_id`
pub record Lease : Type 0 where
  pub consumer_id : Option String
  pub expires_at : ℕ

-- `matched_count` and `upserted_id`
pub record UpdateResult : Type 0 where
  pub matched_count : ℕ
  pub upserted_id : Option String

pub record Leases : Type 1 where
  pub Db : Type 0
  -- `update_one` with `upsert`, by `_id` and a further condition
  pub update_one : Db → String → (Lease → Bool) → Lease → Db × Reply UpdateResult
  -- `delete_one`, by `_id` and a further condition
  pub delete_one : Db → String → (Lease → Bool) → Db × Reply (Unit {0})
  pub lease : Db → String → Option Lease

-- What the documentation of MongoDB promises of them.
pub record Laws (leases : Leases) : Type 0 where
  pub updated :
      (db : leases.Db) (id : String) (test : Lease → Bool) (new : Lease) (r : UpdateResult)
      → (leases.update_one db id test new).1 ≡ done r
      → (leases.lease (leases.update_one db id test new).0 id ≡ some new)
        × ((0 < r.matched_count) ⊎ ((i : String) × (r.upserted_id ≡ some i)))
  -- a document with the `_id` that does not meet the condition: the insert has a duplicate key
  pub clash :
      (db : leases.Db) (id : String) (test : Lease → Bool) (new old : Lease)
      → leases.lease db id ≡ some old
      → test old ≡ false
      → (leases.lease (leases.update_one db id test new).0 id ≡ some old)
        × ((message : String) × ((leases.update_one db id test new).1 ≡ refused message))
  pub update_others :
      (db : leases.Db) (id other : String) (test : Lease → Bool) (new : Lease)
      → other ≢ id
      → leases.lease (leases.update_one db id test new).0 other ≡ leases.lease db other
  pub delete_kept :
      (db : leases.Db) (id : String) (test : Lease → Bool) (old : Lease)
      → leases.lease db id ≡ some old
      → test old ≡ false
      → leases.lease (leases.delete_one db id test).0 id ≡ some old
  pub delete_others :
      (db : leases.Db) (id other : String) (test : Lease → Bool)
      → other ≢ id
      → leases.lease (leases.delete_one db id test).0 other ≡ leases.lease db other

-- `{ "consumer_id": consumer_id }`
abbrev pub is_held_by : String → Lease → Bool
is_held_by consumer_id lease = elim lease.consumer_id [
  | none ↦ false
  | some holder ↦ str_eq holder consumer_id
]

-- `{ "consumer_id": { "$exists": false } }`
abbrev pub is_free : Lease → Bool
is_free lease = elim lease.consumer_id [ none ↦ true | some holder ↦ false ]

-- the `$or` of the query
unfoldable pub may_take : ℕ → String → Lease → Bool
may_take now consumer_id lease =
    is_free lease || ltb lease.expires_at now || is_held_by consumer_id lease

abbrev pub is_some : Option String → Bool
is_some none = false
is_some (some i) = true

-- `result.matched_count > 0 || result.upserted_id.is_some()`
abbrev pub is_acquired : UpdateResult → Bool
is_acquired result = ltb 0 result.matched_count || is_some result.upserted_id

abbrev pub acquired : Reply UpdateResult → Result Bool
acquired (done result) = ok (is_acquired result)
acquired (refused e) = err ("failed to update competing consumer lease" ∷ e ∷ [])

counted :
    (result : UpdateResult)
    → (0 < result.matched_count) ⊎ ((i : String) × (result.upserted_id ≡ some i))
    → is_acquired result ≡ true
counted result (inl matched) = ground arith
counted result (inr (i, upserted)) = rw upserted (ground arith)

-- `second` is the number of ticks of a second.
module _ (leases : Leases) (second : ℕ) where
  open leases use {Db, update_one, delete_one, lease}

  abbrev pub lease_until : String → ℕ → Lease
  lease_until consumer_id expires_at = record {
    consumer_id = some consumer_id;
    expires_at = expires_at;
  }

  unfoldable pub try_acquire_lease : ℕ → String → String → ℕ → Db → Db × Result Bool
  try_acquire_lease now group_id consumer_id lease_ttl_secs db =
      let expires_at = now + lease_ttl_secs * second in
      let (db', reply) =
        update_one db group_id (may_take now consumer_id) (lease_until consumer_id expires_at) in
      (db', acquired reply)

  unfoldable pub release_lease : String → String → Db → Db × Result (Unit {0})
  release_lease group_id consumer_id db =
      let (db', reply) = delete_one db group_id (is_held_by consumer_id) in
      (db', with_context "failed to release lease" reply)

  -- the calls of a consumer, an acquisition with its time
  pub data Call : Type 0 where
    acquire : ℕ → String → String → ℕ → Call
    release : String → String → Call

  unfoldable pub call : Call → Db → Db
  unfolding try_acquire_lease release_lease
  call (acquire now group_id consumer_id ttl) db =
      (try_acquire_lease now group_id consumer_id ttl db).0
  call (release group_id consumer_id) db = (release_lease group_id consumer_id db).0

  unfoldable pub calls : List Call → Db → Db
  unfolding call
  calls [] db = db
  calls (x ∷ xs) db = calls xs (call x db)

  -- a call of a consumer other than `holder`, and, of an acquisition, not after `until`
  abbrev pub IsOther : String → ℕ → Call → Type 0
  IsOther holder until (acquire now group_id consumer_id ttl) =
      (holder ≢ consumer_id) × (now ≤ until)
  IsOther holder until (release group_id consumer_id) = holder ≢ consumer_id

  abbrev pub AllOther : String → ℕ → List Call → Type 0
  AllOther holder until [] = Unit
  AllOther holder until (x ∷ xs) = IsOther holder until x × AllOther holder until xs

  not_held :
      (holder consumer_id : String) → holder ≢ consumer_id → str_eq holder consumer_id ≡ false
  not_held holder consumer_id differ = elim (Bool-cases (str_eq holder consumer_id)) [
    | inl same ↦ absurd (differ ((eq_iff holder consumer_id).0 same))
    | inr other ↦ other
  ]

  may_not_take :
      (now until : ℕ) (holder consumer_id : String)
      → holder ≢ consumer_id
      → now ≤ until
      → may_take now consumer_id (lease_until holder until) ≡ false
  unfolding may_take
  may_not_take now until holder consumer_id differ before =
      rw (not_held holder consumer_id differ) (ground arith)

  module _ (laws : Laws leases) where
    -- No attempt answers that the lease is another's: it is acquired, or the call fails.
    pub try_acquire_lease_answers :
        (now ttl : ℕ) (group_id consumer_id : String) (db : Db) (b : Bool)
        → (try_acquire_lease now group_id consumer_id ttl db).1 ≡ ok b
        → (b ≡ true)
          × (lease (try_acquire_lease now group_id consumer_id ttl db).0 group_id
              ≡ some (lease_until consumer_id (now + ttl * second)))
    unfolding try_acquire_lease
    try_acquire_lease_answers now ttl group_id consumer_id db b h =
        let new = lease_until consumer_id (now + ttl * second) in
        elim (reply_cases (update_one db group_id (may_take now consumer_id) new).1) [
          | inr (e, bad) ↦ absurd (cc (rw bad at h))
          | inl (result, answer) ↦
              let (stored, counts) =
                laws.updated db group_id (may_take now consumer_id) new result answer in
              let same : ◌≡◌ {A = Result Bool} (ok (is_acquired result)) (ok b) = rw answer at h in
              let same' : is_acquired result ≡ b = cc same in
              (sym same' ∙ counted result counts, stored)
        ]

    call_keeps :
        (x : Call) (db : Db) (group_id holder : String) (until : ℕ)
        → lease db group_id ≡ some (lease_until holder until)
        → IsOther holder until x
        → lease (call x db) group_id ≡ some (lease_until holder until)
    unfolding call try_acquire_lease release_lease
    call_keeps (acquire now group consumer_id ttl) db group_id holder until held (differ, before) =
        elim (Bool-cases (str_eq group_id group)) [
          | inl same ↦
              subst
                (λ g.
                  lease
                    (update_one db g (may_take now consumer_id)
                      (lease_until consumer_id (now + ttl * second))).0
                    group_id
                  ≡ some (lease_until holder until))
                ((eq_iff group_id group).0 same)
                (laws.clash db group_id (may_take now consumer_id)
                  (lease_until consumer_id (now + ttl * second)) (lease_until holder until) held
                  (may_not_take now until holder consumer_id differ before)).0
          | inr other ↦
              laws.update_others db group group_id _ _
                (λ e. absurd (cc (sym other ∙ (eq_iff group_id group).1 e)))
              ∙ held
        ]
    call_keeps (release group consumer_id) db group_id holder until held differ =
        elim (Bool-cases (str_eq group_id group)) [
          | inl same ↦
              subst
                (λ g.
                  lease (delete_one db g (is_held_by consumer_id)).0 group_id
                  ≡ some (lease_until holder until))
                ((eq_iff group_id group).0 same)
                (laws.delete_kept db group_id (is_held_by consumer_id) (lease_until holder until)
                  held (not_held holder consumer_id differ))
          | inr other ↦
              laws.delete_others db group group_id _
                (λ e. absurd (cc (sym other ∙ (eq_iff group_id group).1 e)))
              ∙ held
        ]

    calls_keep :
        (xs : List Call) (db : Db) (group_id holder : String) (until : ℕ)
        → lease db group_id ≡ some (lease_until holder until)
        → AllOther holder until xs
        → lease (calls xs db) group_id ≡ some (lease_until holder until)
    unfolding calls
    calls_keep [] db group_id holder until held others = held
    calls_keep (x ∷ xs) db group_id holder until held others =
        calls_keep xs (call x db) group_id holder until
          (call_keeps x db group_id holder until held others.0) others.1

    -- Once a consumer has acquired a lease, an attempt of another one up to the time at which the
    -- lease expires fails, with an error, whatever calls others made in between up to that time.
    pub try_acquire_lease_excludes :
        (now now' ttl ttl' : ℕ) (group_id holder consumer_id : String) (db : Db) (xs : List Call)
        → (try_acquire_lease now group_id holder ttl db).1 ≡ ok true
        → AllOther holder (now + ttl * second) xs
        → holder ≢ consumer_id
        → now' ≤ now + ttl * second
        → let db' = calls xs (try_acquire_lease now group_id holder ttl db).0 in
          (message : String) × ((try_acquire_lease now' group_id consumer_id ttl' db').1
            ≡ err ("failed to update competing consumer lease" ∷ message ∷ []))
    unfolding try_acquire_lease
    try_acquire_lease_excludes now now' ttl ttl' group_id holder consumer_id db xs first others
          differ before =
        let until = now + ttl * second in
        let (_, held) = try_acquire_lease_answers now ttl group_id holder db true first in
        let db' = calls xs (try_acquire_lease now group_id holder ttl db).0 in
        let kept = calls_keep xs _ group_id holder until held others in
        let (_, (message, fails)) =
          laws.clash db' group_id (may_take now' consumer_id)
            (lease_until consumer_id (now' + ttl' * second)) (lease_until holder until) kept
            (may_not_take now' until holder consumer_id differ before) in
        (message, rw fails refl)
