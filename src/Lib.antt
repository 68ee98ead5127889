-- ===== src/Lib.antt =====
-- Models and proofs of metered-compute: authenticated, credit-metered asynchronous compute.
--
-- The repository has five solutions to one problem; a submission reserves credits, a worker computes,
-- and the credits are captured, or released on failure and cancellation.
--
-- Base, Int          library names, Boolean tests, Python's integers
-- Exec               handlers: state with raised errors; Exec.Ends has the rules that chain calls
-- TigerBeetle        the ledger service, a parameter with its documented behaviour; TigerBeetle.Simulated
--                    is a ledger that has that behaviour, for the tests
-- Table              rows with a unique key, and transactions that are rolled back when they raise
-- Solution2          solutions/2_solution/src/solution2:
--   Constants        constants.py: states, prices, limits, routing; Constants.Routing reads a key back
--   Database         the tables of the migrations and the statements of db/repository.py
--   Moves            what a transaction may do to users, tasks and reservations: the specification;
--                    Moves.Consistency is its invariant, Moves.Account the users' accounts, and
--                    Moves.Adjust what administrators do to them
--   Admission, Batch, Sync
--                    services/billing.py: the admissions of a task and of a batch, the synchronous run
--   Worker, Watchdog workers/worker.py and workers/watchdog.py, with the cache of Cache
--   Projector        workers/projector.py: what an event does to the view of its task
--   Cancel           cancel_task of api/task_write_routes.py
--   Admin            the transaction of admin_credits of api/admin_routes.py
--   Reachable        the transactions in any order, as a step relation
-- Solution3          solutions/3_solution/src/solution3:
--   Database         constants.py, models/domain.py and the tables of the migrations
--   Commands         the transactions of db/repository.py on task commands; Commands.Stale those of
--                    the reconciler, Commands.Outbox those of the relay; Commands.Rows and
--                    Commands.Updates have their effect on a row, Commands.Sound on the outbox
--   Projection       the read model: apply_task_projection, the rebuilder, workers/projector.py
--   Reachable        the transactions in any order, as a step relation
--   Services         services/billing.py, and the state that the workers share
--   Reconciler, Worker, Routes
--                    workers/reconciler.py, workers/worker.py, cancel_task of api/task_write_routes.py
-- Solution4          solutions/4_solution/src/solution4:
--   World            the tables, the cache, the ledger and the counters as one state; `Runtime` has what
--                    is outside: the ledger client, ids, the network, Restate, and the other requests
--   Repository       repository.py: a SQL statement is one atomic step on lists of rows
--   Cache            cache.py: the Redis hashes
--   Billing          billing.py: reserve, capture, release, top up
--   Gateway, Worker  workers/compute_gateway.py and workers/compute_worker.py
--   Workflow         workflows.py: `execute_task` and its steps
--   Auth, Registration, Submit, Cancel, Poll, Admin
--                    the handlers of app.py
--
-- Concurrency: each call that the code awaits is one atomic step before which `Runtime.others`, what
-- other requests do, may change the state in any way. Theorems about one task assume only that the
-- others leave that task's row and its transfer as they are. Restate may run a step several times
-- before it journals the result (`Runtime.lost`). In Solution 3 each transaction of the repository is
-- one step, and `Reachable.Reach` is every order of them; the theorems about one pass of the reconciler
-- or one delivery of the worker are for a pass that no other service interrupts. In Solution 2 each
-- database transaction is one step, since it locks the user or guards its updates by the state of the
-- row; `Transaction` is any of those that write users, task commands or reservations, an administrator's
-- adjustment of credits included, and the projector's. The recovery of a failed admission sets
-- credits to themselves, and is left out. The theorem about a pass of the watchdog is for one that
-- no other transaction interrupts.
--
-- Bounds: loops are recursion on the attempts that are left, so no fuel is added. Amounts are natural
-- numbers as TigerBeetle's are; balances and operands are integers. Times are milliseconds, readings of
-- a clock that are given. UUIDs are the numbers that they stand for.
--
-- Not modelled: solutions 0 and 1; of solution 2 the submissions and queries, the
-- relay and the clients of the brokers; the submissions and queries, the relay and the
-- dispatchers of solution 3; logging, metrics other than the counters, start-up, migrations, time
-- stamps of rows, the times to live of cached hashes (an expiry is a step of the others), and
-- exceptions of the database and the cache themselves other than those named at their models.
pub mod Base
pub mod Int
pub mod Exec
pub mod Table
pub mod TigerBeetle
pub mod Solution2
pub mod Solution3
pub mod Solution4
