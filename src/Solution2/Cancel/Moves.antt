-- ===== src/Solution2/Cancel/Moves.antt =====
-- The transaction of a cancellation as a move.
use metered_compute.Base.{ℕ, ◌≡◌, ◌⊎◌, refl, inl, inr, String, Bool-cases, none, true, false}
use metered_compute.Exec.{Result, ok, err, task_cancellation_conflict}
use metered_compute.Solution2.Constants.{cancelled, TaskStatus, is_open}
use metered_compute.Solution2.Database.{Database, get_task_command}
use metered_compute.Solution2.Moves.{Agrees, Idle, Refunds}
use metered_compute.Solution2.Moves.Open.{Shut, task_cases, same, refunds}
use metered_compute.Solution2.Cancel.{CancelResult, is_cancelled, apply_cancel_transaction}

-- What a cancellation of the task does: it refunds the reserved credits, or finds the task cancelled
-- and refunds nothing, or is refused since the task is missing or has ended otherwise.
abbrev pub Cancels : ℕ → Database → Result (CancelResult × Database) → Type 0
Cancels k db (ok (r, s)) =
    ((m : Refunds k cancelled db s) × (r.refunded_credits ≡ m.reservation.amount))
    ⊎ (Idle db s × ((r.refunded_credits ≡ 0) × ((c : Shut k db) × (c.command.status ≡ cancelled))))
Cancels k db (err e) =
    (e ≡ task_cancellation_conflict) × ((get_task_command k db ≡ none) ⊎ Shut k db)

is_cancelled-cancelled : (t : TaskStatus) → is_cancelled t ≡ true → t ≡ cancelled
is_cancelled-cancelled cancelled h = refl
is_cancelled-cancelled TaskStatus.pending h = cc
is_cancelled-cancelled TaskStatus.running h = cc
is_cancelled-cancelled TaskStatus.completed h = cc
is_cancelled-cancelled TaskStatus.failed h = cc
is_cancelled-cancelled TaskStatus.timeout h = cc
is_cancelled-cancelled TaskStatus.expired h = cc

pub open_not_cancelled : (t : TaskStatus) → is_open t ≡ true → is_cancelled t ≡ false
open_not_cancelled cancelled h = cc
open_not_cancelled TaskStatus.pending h = refl
open_not_cancelled TaskStatus.running h = refl
open_not_cancelled TaskStatus.completed h = cc
open_not_cancelled TaskStatus.failed h = cc
open_not_cancelled TaskStatus.timeout h = cc
open_not_cancelled TaskStatus.expired h = cc

-- From a consistent database, the transaction of a cancellation cancels an open task and gives its
-- user exactly the reserved credits back; for a task that is cancelled already it changes no task,
-- reservation and user and refunds nothing; else it is refused, and only since the task is missing or
-- has ended.
pub apply_cancel_transaction-moves :
    (k : ℕ) (queue : String) (db : Database)
    → Agrees db
    → Cancels k db (apply_cancel_transaction k queue db)
unfolding apply_cancel_transaction
apply_cancel_transaction-moves k queue db good = elim (task_cases k db good) [
  | inl (inl n) ↦ rw n (refl, inl n)
  | inl (inr c) ↦ elim (Bool-cases (is_cancelled c.command.status)) [
    | inl e ↦
        rw (c.found, e) (inr (same db _ refl refl refl, (refl, (c, is_cancelled-cancelled _ e))))
    | inr e ↦ rw (c.found, e, c.ended) (refl, inr c)
  ]
  | inr o ↦
      rw (o.found_command, open_not_cancelled _ o.open_command, o.open_command, o.found_reservation)
        (rw (o.found_command, o.open_command, o.found_reservation, o.held, o.found_user)
          (inl (refunds cancelled o refl refl refl refl, refl)))
]
