-- ===== src/Store/Transaction.antt =====
-- A transaction of src/devlegate/runtime_store.py: `BEGIN IMMEDIATE`, one statement that writes, `commit`,
-- and `rollback` in the `except` clause.
-- What a connection has written is in the file once `commit` returned; a connection that is closed
-- with an open transaction loses it. A single statement of SQLite has its effect or raises.
use devlegate.Prelude.{
  ◌≡◌, ◌⊎◌, inl, inr, refl, Bool, Bool-cases, true, false, Option, Option-cases, none, some, Result,
  ok, err, if◌then◌else◌,
}
use devlegate.Store.Database.{StoreError, Database, Calls, Changed}

-- The database in the file, and what the open transaction sees of it.
pub record Connection : Type 0 where
  pub durable : Database
  pub current : Database

-- Where an exception leaves the `try` block the connection is as the statements before left it.
abbrev pub Attempt : Type 0
Attempt = Result StoreError (Unit {0}) × Connection

abbrev pub begun : Database → Connection
begun db = record { durable = db; current = db }

-- `connection.execute` of a statement that raises where there is no result.
unfoldable pub execute : Bool → StoreError → Option Database → Connection → Attempt
execute false failure result c = (err failure, c)
execute true failure none c = (err failure, c)
execute true failure (some db) c = (ok tt, record c { current = db })

unfoldable pub commit : Bool → StoreError → Attempt → Attempt
commit returns failure (err e, c) = (err e, c)
commit false failure (ok u, c) = (err failure, c)
commit true failure (ok u, c) = (ok tt, record c { durable = c.current })

-- The `except` clause and the `finally` clause: the file that is left.
unfoldable pub rollback : Connection → Connection
rollback c = record c { current = c.durable }

unfoldable pub closed : Attempt → Changed (Unit {0})
unfolding rollback
closed (err e, c) = (err e, (rollback c).durable)
closed (ok u, c) = (ok tt, c.durable)

-- From `BEGIN IMMEDIATE` on; `statement` is the write, on the database that the transaction sees.
unfoldable pub transact :
    Calls → StoreError → (Database → Option Database) → Database → Changed (Unit {0})
unfolding execute commit closed
transact calls failure statement db =
    if calls.begins
    then closed (
        commit calls.commits failure
          (execute calls.writes failure (statement (begun db).current) (begun db)))
    else (err failure, db)

-- Behind the initialization of the schema.
abbrev pub and_transact :
    Calls → StoreError → (Database → Option Database) → Changed (Unit {0}) → Changed (Unit {0})
and_transact calls failure statement (err e, db) = (err e, db)
and_transact calls failure statement (ok u, db) = transact calls failure statement db

-- A transaction is in the file whole, or the file is as it was.
pub transact-cases :
    (calls : Calls) (failure : StoreError) (statement : Database → Option Database) (db : Database)
    → (transact calls failure statement db ≡ (err failure, db))
      ⊎ ((new : Database) × (statement db ≡ some new)
          × (transact calls failure statement db ≡ (ok tt, new)))
unfolding transact execute commit closed
transact-cases calls failure statement db = elim (Bool-cases calls.begins) [
  | inr b ↦ inl (rw (transact, b) refl)
  | inl b ↦ elim (Bool-cases calls.writes) [
    | inr w ↦ inl (rw (transact, b, w) refl)
    | inl w ↦ elim (Option-cases (statement db)) [
      | inl s ↦ inl (rw (transact, b, w, s) refl)
      | inr (new, s) ↦ elim (Bool-cases calls.commits) [
        | inr c ↦ inl (rw (transact, b, w, s, c) refl)
        | inl c ↦ inr (new, s, rw (transact, b, w, s, c) refl)
      ]
    ]
  ]
]
