-- ===== src/Solution2/Watchdog.antt =====
-- solutions/2_solution/src/solution2/workers/watchdog.py: the reservations that expired are released
-- and their tasks time out.
pub mod Moves
pub mod Kept
pub mod Loop
pub mod Pass
pub mod Rows
use metered_compute.Base.{
  ℕ, zero, suc, ◌+◌, String, Bool, true, false, ◌&&◌, Option, none, some, List, [], ◌∷◌, leb,
  if◌then◌else◌,
}
use metered_compute.Int.{pos}
use metered_compute.Exec.{
  Error, Result, ok, err, runtime_error, Exec, ◌>>=◌ as bind, pure as return, modify as change,
}
use metered_compute.Table.{
  Tx, pure, raise, gets, modify, run, require, lift, or_return, return_unless, require_some, ◌>>=◌,
  ◌>>◌,
}
use metered_compute.Solution2.Constants.{
  TaskStatus, timeout, is_reserved, compute_routing_key, resolve_queue,
}
use Prim.Native.String.{◌++◌ as concat}
use metered_compute.Solution2.Database.{
  TaskCommand, Reservation, task_timed_out, Database, get_task_command,
  update_task_command_timed_out, release_reservation, add_user_credits, create_outbox_event,
  insert_credit_transaction,
}
use metered_compute.Solution2.Cache.{State, transact, hset}

-- The caller has read the user and the amount from the reservation, outside the transaction.
unfoldable pub expire_reservation :
    (task_id user_id amount : ℕ) → Tx Database (Bool × Option String)
expire_reservation task_id user_id amount = do
  found ← gets (get_task_command task_id)
  or_return found (false, none)
      (λ command. do
        released ← run (release_reservation task_id)
        return_unless released (false, none)
            (do
              balance ← run (add_user_credits user_id amount)
              require_some balance (runtime_error "credit refund target user not found") (λ updated.
                  do
                    timed_out ← run (update_task_command_timed_out task_id)
                    require timed_out (runtime_error "failed to transition task command to TIMEOUT")
                    modify (
                        insert_credit_transaction record {
                          user_id = user_id;
                          task_id = some task_id;
                          delta = pos amount;
                          reason = "reservation_timeout_refund";
                        })
                    queue_name ← lift (resolve_queue command.tier command.mode command.model_class)
                    modify (
                        create_outbox_event task_id task_timed_out (
                          concat (compute_routing_key command.mode command.tier command.model_class)
                            ".timed_out"))
                    pure (true, some queue_name))))

-- `WHERE state='RESERVED' AND expires_at <= $1`
abbrev pub is_expired : (as_of : ℕ) → Reservation → Bool
is_expired as_of r = is_reserved r.state && leb r.expires_at as_of

-- `ORDER BY expires_at ASC`
unfoldable pub insert_by_expiry : Reservation → List Reservation → List Reservation
insert_by_expiry r [] = r ∷ []
insert_by_expiry r (q ∷ rows) =
    if leb r.expires_at q.expires_at then r ∷ q ∷ rows else q ∷ insert_by_expiry r rows

unfoldable pub expired_rows : (as_of : ℕ) → List Reservation → List Reservation
expired_rows as_of [] = []
expired_rows as_of (r ∷ rows) =
    let rest = expired_rows as_of rows in
    if is_expired as_of r then insert_by_expiry r rest else rest

abbrev pub find_expired_reservations : (as_of : ℕ) → Database → List Reservation
find_expired_reservations as_of db = expired_rows as_of db.reservations

abbrev or_empty : Option String → String
or_empty none = ""
or_empty (some q) = q

abbrev write_timeout_cache : (task_id user_id : ℕ) → Option String → Exec State (Unit {0})
write_timeout_cache task_id user_id queue_name s = (
  ok tt,
  hset task_id
      (record {
        status = timeout;
        user_id = user_id;
        queue = or_empty queue_name;
        error = "Task timed out by watchdog";
        result = none;
        runtime_ms = none;
      })
      s,
)

abbrev pub count :
    Bool × Option String → Reservation → (ℕ × ℕ → Exec State (ℕ × ℕ)) → ℕ × ℕ → Exec State (ℕ × ℕ)
count (false, queue_name) r next sums = next sums
count (true, queue_name) r next sums =
    bind (write_timeout_cache r.task_id r.user_id queue_name)
      (λ done. next (sums.0 + 1, sums.1 + r.amount))

-- The loop over the reservations found; an error ends the pass.
unfoldable pub process_each : List Reservation → ℕ × ℕ → Exec State (ℕ × ℕ)
unfolding bind return
process_each [] sums = return sums
process_each (r ∷ rows) sums =
    bind (transact (expire_reservation r.task_id r.user_id r.amount))
      (λ released. count released r (process_each rows) sums)

-- How many reservations were released, and how many credits
unfoldable pub process_expired_reservations : (as_of : ℕ) → Exec State (ℕ × ℕ)
process_expired_reservations as_of s = process_each (find_expired_reservations as_of s.db) (0, 0) s
