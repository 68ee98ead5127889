-- ===== src/Solution2/Tests/Runs.antt =====
-- Each theorem on the databases of World2.
use metered_compute.Base.{
  ◌≡◌, ◌⊎◌, ◌≤◌, refl, some, none, [], ◌∷◌, inl, inr, Bool-cases, ◌==◌, ◌+◌, arith, true, false,
  String,
}
use metered_compute.Int.{pos, negsuc}
use metered_compute.Exec.{ok}
use metered_compute.Table.{find, replace}
use metered_compute.Solution2.Constants.{
  pending, pro, async, small, completed, failed, timeout, compute_routing_key, resolve_queue,
}
use metered_compute.Solution2.Constants.Routing.{parse_routing_key, parse-compute_routing_key}
use metered_compute.Solution2.Database.{
  TaskCommand, count_active, is_recorded, by_idempotency, get_credit_reservation, get_task_command,
  task_submitted, Database, credits_adjusted,
}
use metered_compute.Solution2.Moves.{Agrees, Captures, Refunds, Succeeds, EndsOr}
use metered_compute.Solution2.Moves.Account.{account, worth}
use metered_compute.Solution2.Admin.{adjust_credits, by_api_key}
use metered_compute.Solution2.Admission.{
  accepted, execute_admission_transaction, submit_rows, checked,
}
use metered_compute.Solution2.Admission.Moves.{Admitted, Exists, Malformed, admission-moves}
use metered_compute.Solution2.Admission.Limits.{admission-within}
use metered_compute.Solution2.Worker.{persist_success, persist_failure}
use metered_compute.Solution2.Worker.Moves.{
  persist_success-moves, persist_failure-moves, persist_success-redelivered,
}
use metered_compute.Solution2.Watchdog.{expire_reservation, process_expired_reservations}
use metered_compute.Solution2.Watchdog.Moves.{expire_reservation-moves}
use metered_compute.Solution2.Projector.{ProjectionEvent, persist_projection}
use metered_compute.Solution2.Projector.Last.{Shows, persist_projection-last}
use metered_compute.Solution2.Cache.{State}
use metered_compute.Solution2.Moves.Open.{Open}
use metered_compute.Solution2.Watchdog.Kept.{Queued}
use metered_compute.Solution2.Watchdog.Pass.{Unique, Leaves, process_expired_reservations-settles}
use metered_compute.Solution2.Cancel.Answers.{Answered, cancel_task-open}
use metered_compute.Solution2.Cancel.{AuthUser, cancel_task, apply_cancel_transaction}
use metered_compute.Solution2.Cancel.Moves.{Cancels, apply_cancel_transaction-moves}
use metered_compute.Solution2.Reachable.{Transaction, here, later}
use metered_compute.Solution2.Reachable.Ledger.{Reach-Agrees, Reach-worth}
use metered_compute.Solution2.Batch.{Ids, BatchTaskSpec}
use metered_compute.Solution2.Tests.World2.{
  alice, task, hold, db, good, delivery, payload, captured_db, submitted_db,
}

submitted :
    execute_admission_transaction 5 1 8 10 "b" 3 payload none none none db
    ≡ ok (accepted, submitted_db)
unfolding execute_admission_transaction checked submit_rows find by_idempotency count_active replace
    resolve_queue compute_routing_key
submitted = refl

once : persist_success delivery db ≡ ok (true, captured_db)
unfolding persist_success find replace is_recorded
once = refl

held : get_credit_reservation 7 db ≡ some hold
unfolding find
held = refl

queue_known : resolve_queue pro async small ≡ ok "queue.fast"
unfolding resolve_queue
queue_known = refl

only :
    (c : TaskCommand)
    → get_task_command 7 db ≡ some c
    → (q : String) × (resolve_queue c.tier c.mode c.model_class ≡ ok q)
unfolding find
only c e = let t : task ≡ c = cc in ("queue.fast", rw⁻¹ t queue_known)

completes : Transaction db captured_db
completes = Transaction.succeed delivery true captured_db once

Reach-Agrees_example : Agrees captured_db
Reach-Agrees_example = Reach-Agrees db captured_db good (later here completes)

abbrev granted_db : Database
granted_db = record db {
  users = (record alice { credits = 85 }) ∷ [];
  outbox =
      (record {
        aggregate_id = 1;
        event_type = credits_adjusted;
        routing_key = "admin.credits.adjusted";
      })
      ∷ [];
  transactions =
      (record { user_id = 1; task_id = none; delta = negsuc 4; reason = "correction" }) ∷ [];
}

takes : Transaction db granted_db
unfolding adjust_credits find replace by_api_key
takes = Transaction.adjust "alice" (negsuc 4) "correction" (some (1, (90, 85))) granted_db refl

Reach-worth_example : worth (account 1 granted_db) + 5 ≡ worth (account 1 db) + 0
unfolding takes
Reach-worth_example = Reach-worth 1 db granted_db good (later here takes)

admission-moves_example :
    Admitted 1 8 10 3 "b" db
      (Exists 8 db ⊎ Malformed payload none none)
      (execute_admission_transaction 5 1 8 10 "b" 3 payload none none none db)
admission-moves_example = admission-moves 5 1 8 10 "b" 3 db good payload none none none

admission-within_example : count_active 1 5 submitted_db.reservations ≤ 3
admission-within_example =
    admission-within 5 1 8 10 3 "b" db submitted_db good payload none none none submitted

persist_success-moves_example : Succeeds (EndsOr (Captures 7 db) db) (persist_success delivery db)
persist_success-moves_example = persist_success-moves delivery db good

persist_failure-moves_example :
    Succeeds (EndsOr (Refunds 7 failed db) db) (persist_failure delivery db)
persist_failure-moves_example = persist_failure-moves delivery db good

persist_success-redelivered_example :
    (persist_success delivery captured_db ≡ ok (false, captured_db))
    × (persist_failure delivery captured_db ≡ ok (false, captured_db))
persist_success-redelivered_example = persist_success-redelivered delivery db good captured_db once

expire_reservation-moves_example :
    Succeeds (λ out s. EndsOr (Refunds 7 timeout db) db out.0 s) (expire_reservation 7 1 10 db)
expire_reservation-moves_example = expire_reservation-moves 7 db good hold held only

apply_cancel_transaction-moves_example : Cancels 7 db (apply_cancel_transaction 7 "queue.batch" db)
apply_cancel_transaction-moves_example = apply_cancel_transaction-moves 7 "queue.batch" db good

parse-compute_routing_key_example :
    parse_routing_key (compute_routing_key async pro small) ≡ some ((async, pro), small)
parse-compute_routing_key_example = parse-compute_routing_key async pro small

queued : Queued db
unfolding find
queued k c e = elim (Bool-cases (7 == k)) [
  | inl h ↦ let t : task ≡ c = ground (arith, h, e) in ("queue.fast", rw⁻¹ t queue_known)
  | inr h ↦ ground (arith, h, e)
]

unique : Unique db
unfolding find
unique = (refl, tt)

abbrev state : State
state = record { db = db; cache = λ k. none }

abbrev owner : AuthUser
owner = record { user_id = 1; is_admin = false }

open_task : Open 7 db
unfolding find
open_task = record {
  command = task;
  reservation = hold;
  user = alice;
  found_command = refl;
  open_command = refl;
  found_reservation = refl;
  found_user = refl;
  held = refl;
}

process_expired_reservations-settles_example : Leaves 60 db (process_expired_reservations 60 state)
process_expired_reservations-settles_example =
    process_expired_reservations-settles 60 state good queued unique

cancel_task-open_example : Answered false 7 db (cancel_task false owner 7 state)
unfolding open_task
cancel_task-open_example = cancel_task-open owner 7 state good open_task (inr refl) false

-- The submission of the task, delivered after its completion
abbrev late : ProjectionEvent
late = record {
  event_id = 60;
  task_id = 7;
  event_type = task_submitted;
  status = pending;
  result = none;
  error = none;
  queue_name = some "queue.fast";
  runtime_ms = none;
}

persist_projection-last_example :
    Succeeds (Shows late captured_db) (persist_projection late captured_db)
unfolding find is_recorded
persist_projection-last_example =
    persist_projection-last late captured_db (record task { status = completed }) "queue.fast" refl
      refl refl

abbrev ids : Ids
ids = record { uuid7 = λ i. 20 + i; idempotency_key = λ i. "batch"; clock = λ i. 5 }

abbrev spec : BatchTaskSpec
spec = record { x = pos 1; y = pos 2; model_class = small; callback_url = none }
