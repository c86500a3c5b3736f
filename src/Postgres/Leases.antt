-- ===== src/Postgres/Leases.antt =====
-- `try_acquire_lease` and `release_lease` of rust-app/src/postgres/event_store.rs. Advisory locks
-- belong to the connection that takes them; which connection a statement goes over is the pool's
-- choice, and an argument here. The server and `stable_hash` are parameters.
use event_sourcing_testbed.Common.{◌≡◌, ◌≢◌, String, List, [], ◌∷◌, Option, some, Bool, true}
use event_sourcing_testbed.Common.Int.{ℤ}
use event_sourcing_testbed.Common.Result.{Result, ok}
use event_sourcing_testbed.Kurrent.Driver.{Reply, done}
use event_sourcing_testbed.Store.Checkpoints.{with_context, with_context_ok}

pub record Locks : Type 1 where
  pub Db : Type 0
  pub Connection : Type 0
  -- `SELECT pg_try_advisory_lock($1)` and `SELECT pg_advisory_unlock($1)`
  pub try_lock : Connection → Db → ℤ → Db × Reply Bool
  pub unlock : Connection → Db → ℤ → Db × Reply (Unit {0})
  pub holder : Db → ℤ → Option Connection

-- What the documentation of PostgreSQL promises of them.
pub record Laws (locks : Locks) : Type 0 where
  pub taken :
      (s : locks.Connection) (db : locks.Db) (key : ℤ)
      → (locks.try_lock s db key).1 ≡ done true
      → locks.holder (locks.try_lock s db key).0 key ≡ some s
  -- a lock that another connection holds stays its own
  pub refused_to_others :
      (s t : locks.Connection) (db : locks.Db) (key other : ℤ)
      → locks.holder db key ≡ some t
      → s ≢ t
      → (locks.holder (locks.try_lock s db other).0 key ≡ some t)
        × (locks.holder (locks.unlock s db other).0 key ≡ some t)
        × ((locks.try_lock s db key).1 ≢ done true)
  -- a connection that holds the lock is given it again
  pub reentrant :
      (s : locks.Connection) (db : locks.Db) (key : ℤ) (b : Bool)
      → locks.holder db key ≡ some s
      → (locks.try_lock s db key).1 ≡ done b
      → b ≡ true

module _ (locks : Locks) (stable_hash : String → ℤ) where
  open locks use {Db, Connection, try_lock, unlock}

  unfoldable pub try_acquire_lease : Connection → Db → String → Db × Result Bool
  try_acquire_lease s db group_id =
      let key = stable_hash group_id in
      let (db', row) = try_lock s db key in (db', with_context "pg_try_advisory_lock failed" row)

  unfoldable pub release_lease : Connection → Db → String → Db × Result (Unit {0})
  release_lease s db group_id =
      let key = stable_hash group_id in
      let (db', reply) = unlock s db key in (db', with_context "pg_advisory_unlock failed" reply)

  pub data Call : Type 0 where
    acquire : Connection → String → Call
    release : Connection → String → Call

  -- a call by itself
  unfoldable pub call : Call → Db → Db
  unfolding try_acquire_lease release_lease
  call (acquire s group_id) db = (try_acquire_lease s db group_id).0
  call (release s group_id) db = (release_lease s db group_id).0

  unfoldable pub calls : List Call → Db → Db
  unfolding call
  calls [] db = db
  calls (x ∷ xs) db = calls xs (call x db)

  abbrev pub connection : Call → Connection
  connection (acquire s group_id) = s
  connection (release s group_id) = s

  abbrev pub AllOver : (Connection → Type 0) → List Call → Type 0
  AllOver P [] = Unit
  AllOver P (x ∷ xs) = P (connection x) × AllOver P xs

  module _ (laws : Laws locks) where
    call_keeps :
        (x : Call) (db : Db) (key : ℤ) (t : Connection)
        → locks.holder db key ≡ some t
        → connection x ≢ t
        → locks.holder (call x db) key ≡ some t
    unfolding call try_acquire_lease release_lease
    call_keeps (acquire s group_id) db key t held differ =
        (laws.refused_to_others s t db key (stable_hash group_id) held differ).0
    call_keeps (release s group_id) db key t held differ =
        (laws.refused_to_others s t db key (stable_hash group_id) held differ).1

    calls_keep :
        (xs : List Call) (db : Db) (key : ℤ) (t : Connection)
        → locks.holder db key ≡ some t
        → AllOver (λ s. s ≢ t) xs
        → locks.holder (calls xs db) key ≡ some t
    unfolding calls
    calls_keep [] db key t held differ = held
    calls_keep (x ∷ xs) db key t held differ =
        calls_keep xs (call x db) key t (call_keeps x db key t held differ.0) differ.1

    acquired :
        (s : Connection) (db : Db) (group_id : String)
        → (try_acquire_lease s db group_id).1 ≡ ok true
        → (try_lock s db (stable_hash group_id)).1 ≡ done true
    unfolding try_acquire_lease
    acquired s db group_id h = with_context_ok _ _ _ h

    -- Once a lease is acquired, no later attempt over another connection acquires it, whatever calls,
    -- releases of the same lease among them, were made over other connections in between; and an
    -- attempt over the same connection that is answered acquires it again.
    pub try_acquire_lease_over_connections :
        (s t : Connection) (db : Db) (group_id : String) (xs : List Call) (b : Bool)
        → s ≢ t
        → (try_acquire_lease t db group_id).1 ≡ ok true
        → AllOver (λ v. v ≢ t) xs
        → let db' = calls xs (try_acquire_lease t db group_id).0 in
          (try_acquire_lease t db' group_id).1 ≡ ok b
          → ((try_acquire_lease s db' group_id).1 ≢ ok true) × (b ≡ true)
    unfolding try_acquire_lease
    try_acquire_lease_over_connections s t db group_id xs b differ first others again =
        let key = stable_hash group_id in
        let db1 = (try_lock t db key).0 in
        let held =
          calls_keep xs db1 key t (laws.taken t db key (acquired t db group_id first)) others in
        (
          λ second.
              (laws.refused_to_others s t (calls xs db1) key key held differ).2
                (acquired s (calls xs db1) group_id second),
          laws.reentrant t (calls xs db1) key b held (with_context_ok _ _ _ again),
        )
