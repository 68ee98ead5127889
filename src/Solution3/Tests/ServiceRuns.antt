-- ===== src/Solution3/Tests/ServiceRuns.antt =====
-- Runs of the reconciler and the worker on one task and the simulated ledger.
use metered_compute.Base.{
  ◌+◌, ◌≡◌, ◌≢◌, ◌↔◌, refl, inr, ◌==◌, true, false, some, none, List, [], ◌∷◌, if◌then◌else◌,
}
use metered_compute.Int.{pos}
use metered_compute.Exec.{ok}
use metered_compute.TigerBeetle.{Phase, Transfer, TransferFlags}
use metered_compute.TigerBeetle.Simulated.{Book, simulated, simulated_documented}
use metered_compute.Solution3.Database.{
  TaskStatus, completed, running, BillingState, reserved, captured, released,
}
use metered_compute.Solution3.Commands.{find}
use metered_compute.Solution3.Services.{
  PendingTransferState, Services, Runtime, pending_transfer_state, posts, voids, reserves, settling,
  disturb,
}
use metered_compute.Solution3.Services.TransferState.{Has, pending_transfer_state_iff}
use metered_compute.Solution3.Reconciler.{reconcile_task}
use metered_compute.Solution3.Reconciler.Alignment.{reconcile_task-aligns}
use metered_compute.Solution3.Worker.{handle_task_completion}
use metered_compute.Solution3.Worker.Outcomes.{
  IsReserved, handle_task_completion-success, handle_task_completion-ended,
}
use metered_compute.Solution3.Routes.{AuthUser, cancelled_now, cancel_task}
use metered_compute.Solution3.Routes.Cancelled.{cancel_task-reserved, cancel_task-posted}
use metered_compute.Solution3.Tests.CommandRuns.{command, database}

abbrev runtime : Runtime
runtime = record {
  tb = simulated;
  ledger_id = 1;
  revenue_account_id = 1000001;
  escrow_account_id = 1000002;
  pending_timeout_seconds = 600;
  uuid7 = λ n. n + 5000;
  others = λ n s. s;
}

abbrev posting : Transfer
posting = settling ⦃rt = runtime⦄ TransferFlags.post_pending_transfer 5000 7

abbrev reserving : Transfer
reserving = record posting { id = 7; flags = TransferFlags.pending }

abbrev book : Phase → List Transfer → Book
book p transfers = record {
  used = λ q. q == 7;
  phase = λ q. if q == 7 then p else Phase.absent;
  book = λ q. if q == 7 then (1, 100) else (0, 0);
  limit = 990;
  transfers = transfers;
}

abbrev services : TaskStatus → BillingState → Phase → List Transfer → Services Book
services s b p transfers = record {
  db = database s b;
  ledger = book p transfers;
  active = λ u. pos 1;
  cache = λ i. none;
  uuids = 0;
  clock = 0;
}

abbrev at_work : TaskStatus → BillingState → Services Book
at_work s b = services s b Phase.pending (reserving ∷ [])

at_work-IsReserved :
    (s : TaskStatus) (b : BillingState)
    → IsReserved ⦃rt = runtime⦄ simulated_documented 7 (at_work s b)
at_work-IsReserved s b = record { phase = refl; book = refl; fresh = refl }

pending_transfer_state_iff_example :
    ((pending_transfer_state 7 (posting ∷ reserving ∷ []) ≡ PendingTransferState.posted)
      ↔ Has posts (posting ∷ reserving ∷ []))
    × ((pending_transfer_state 7 (posting ∷ reserving ∷ []) ≡ PendingTransferState.voided)
        ↔ (Has voids (posting ∷ reserving ∷ []) × (¬ Has posts (posting ∷ reserving ∷ []))))
    × ((pending_transfer_state 7 (posting ∷ reserving ∷ []) ≡ PendingTransferState.pending) ↔ (
        Has (reserves 7) (posting ∷ reserving ∷ [])
        × (¬ Has posts (posting ∷ reserving ∷ []))
        × (¬ Has voids (posting ∷ reserving ∷ []))))
pending_transfer_state_iff_example = pending_transfer_state_iff 7 (posting ∷ reserving ∷ [])

-- The worker posted the transfer and died before it wrote the row.
abbrev left_behind : Services Book
left_behind = services running reserved Phase.posted (posting ∷ reserving ∷ [])

not_pending : pending_transfer_state 7 (posting ∷ reserving ∷ []) ≢ PendingTransferState.pending
unfolding pending_transfer_state
not_pending e = cc

reconcile_task-aligns_example :
    ((reconcile_task ⦃rt = runtime⦄ 720 (command running reserved) left_behind).0 ≡ ok true)
    × (find 1
          (reconcile_task ⦃rt = runtime⦄ 720 (command running reserved) left_behind).1.db.commands
        ≡ some (command completed captured))
unfolding disturb find pending_transfer_state
reconcile_task-aligns_example =
    reconcile_task-aligns ⦃rt = runtime⦄ 720 (command running reserved) left_behind refl (refl, tt)
      refl refl not_pending

handle_task_completion-success_example :
    ((handle_task_completion ⦃rt = runtime⦄
        (command running reserved)
        true
        (some (pos 5))
        none
        (at_work running reserved)).0
      ≡ ok true)
    × (find 1
          (handle_task_completion ⦃rt = runtime⦄
            (command running reserved)
            true
            (some (pos 5))
            none
            (at_work running reserved)).1.db.commands
        ≡ some (command completed captured))
    × (simulated_documented.phase
          (handle_task_completion ⦃rt = runtime⦄
            (command running reserved)
            true
            (some (pos 5))
            none
            (at_work running reserved)).1.ledger
          7
        ≡ Phase.posted)
unfolding find
handle_task_completion-success_example =
    handle_task_completion-success ⦃rt = runtime⦄ (λ n s. refl) simulated_documented
      (command running reserved) (command running reserved) (at_work running reserved) (refl, tt)
      refl (at_work-IsReserved running reserved) (some (pos 5)) none refl

handle_task_completion-ended_example :
    ((handle_task_completion ⦃rt = runtime⦄
        (command running reserved)
        true
        (some (pos 5))
        none
        (at_work TaskStatus.cancelled released)).0
      ≡ ok false)
    × (find 1
          (handle_task_completion ⦃rt = runtime⦄
            (command running reserved)
            true
            (some (pos 5))
            none
            (at_work TaskStatus.cancelled released)).1.db.commands
        ≡ some (command TaskStatus.cancelled released))
    × (simulated_documented.phase
          (handle_task_completion ⦃rt = runtime⦄
            (command running reserved)
            true
            (some (pos 5))
            none
            (at_work TaskStatus.cancelled released)).1.ledger
          7
        ≡ Phase.posted)
unfolding find
handle_task_completion-ended_example =
    handle_task_completion-ended ⦃rt = runtime⦄ (λ n s. refl) simulated_documented
      (command running reserved) (command TaskStatus.cancelled released)
      (at_work TaskStatus.cancelled released) (refl, tt) refl
      (at_work-IsReserved TaskStatus.cancelled released) (some (pos 5)) none refl

abbrev owner : AuthUser
owner = record { user_id = 3; is_admin = false }

abbrev stranger : AuthUser
stranger = record { user_id = 4; is_admin = false }

cancel_task-reserved_example :
    ((cancel_task ⦃rt = runtime⦄ owner 1 (at_work running reserved)).0 ≡ ok (cancelled_now 1))
    × (find 1 (cancel_task ⦃rt = runtime⦄ owner 1 (at_work running reserved)).1.db.commands
        ≡ some (command TaskStatus.cancelled released))
    × (simulated_documented.phase
          (cancel_task ⦃rt = runtime⦄ owner 1 (at_work running reserved)).1.ledger
          7
        ≡ Phase.voided)
unfolding find
cancel_task-reserved_example =
    cancel_task-reserved ⦃rt = runtime⦄ (λ n s. refl) simulated_documented owner
      (command running reserved) (at_work running reserved) (refl, tt) refl (inr refl) refl refl
      (at_work-IsReserved running reserved)

cancel_task-posted_example :
    ((cancel_task ⦃rt = runtime⦄ owner 1 left_behind).0 ≡ ok (cancelled_now 1))
    × (find 1 (cancel_task ⦃rt = runtime⦄ owner 1 left_behind).1.db.commands
        ≡ some (command TaskStatus.cancelled released))
    × (simulated_documented.phase (cancel_task ⦃rt = runtime⦄ owner 1 left_behind).1.ledger 7
        ≡ Phase.posted)
unfolding find
cancel_task-posted_example =
    cancel_task-posted ⦃rt = runtime⦄ (λ n s. refl) simulated_documented owner
      (command running reserved) left_behind (refl, tt) refl (inr refl) refl refl refl
