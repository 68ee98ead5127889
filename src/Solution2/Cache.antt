-- ===== src/Solution2/Cache.antt =====
-- The database with the Redis hashes `task:<id>` beside it, and the handlers' calls of both. A hash is
-- its fields that a later write sets; the expiry of the keys is left out.
use metered_compute.Base.{ℕ, String, Option, none, some, ◌==◌, if◌then◌else◌}
use metered_compute.Int.{ℤ}
use metered_compute.Exec.{Result, ok, err, Exec}
use metered_compute.Table.{Tx}
use metered_compute.Solution2.Constants.{TaskStatus}
use metered_compute.Solution2.Database.{Database}

pub record TaskState : Type 0 where
  pub status : TaskStatus
  pub user_id : ℕ
  pub queue : String
  pub error : String
  pub result : Option ℤ
  pub runtime_ms : Option ℕ

pub record State : Type 0 where
  pub db : Database
  pub cache : ℕ → Option TaskState

abbrev committed : {A : Type 0} → Result (A × Database) → State → Result A × State
committed (ok (a, db)) s = (ok a, record s { db = db })
committed (err e) s = (err e, s)

-- `async with connection.transaction()`: a transaction that raises is rolled back.
abbrev pub transact : {A : Type 0} → Tx Database A → Exec State A
transact m s = committed (m s.db) s

-- A statement outside a transaction
abbrev pub execute : {A : Type 0} → (Database → A × Database) → Exec State A
execute f s = (ok (f s.db).0, record s { db = (f s.db).1 })

-- The fields of a hash that the mapping of `hset` does not name stay.
abbrev or_old : {A : Type 0} → Option A → Option A → Option A
or_old (some a) old = some a
or_old none old = old

abbrev merged : TaskState → Option TaskState → TaskState
merged new none = new
merged new (some old) = record new {
  result = or_old new.result old.result;
  runtime_ms = or_old new.runtime_ms old.runtime_ms;
}

abbrev pub hset : ℕ → TaskState → State → State
hset task_id new s = record s {
  cache = λ k. if k == task_id then some (merged new (s.cache task_id)) else s.cache k;
}
