-- ===== src/Solution4/Workflow/Paths/Kept.antt =====
-- The paths of solutions/4_solution/src/solution4/workflows.py on which what becomes of the whole row
-- matters: a request for a task that is not pending, and a cancellation after the capture.
use metered_compute.Base.{◌≡◌, ◌≢◌, refl, none, some}
use metered_compute.Exec.{ok}
use metered_compute.Exec.Ends.{Ends, Ends-pure}
use metered_compute.TigerBeetle.{Phase, posted, IsDocumented}
use metered_compute.Solution4.Gateway.{ComputeResult}
use metered_compute.Solution4.World.{
  Status, running, completed, cancel_requested, task_completed, Runtime, State, mark_running,
  read_status_after_start, task_completed_metric, mark_completed, read_status_after_completion,
  mark_completed_after_late_cancel, cache_completed_task_after_late_cancel,
}
use metered_compute.Solution4.Workflow.{
  Request, status, with_result, started_status, reply_if, completed_payload, not_started,
  late_cancel, after_capture, execute_task,
}
use metered_compute.Solution4.Workflow.Facts.{At, IsCalm}
use metered_compute.Solution4.Workflow.Steps.{NoneLost}
use metered_compute.Solution4.World.{Task}
use metered_compute.Solution4.Workflow.Steps.{step_once}
use metered_compute.Solution4.Workflow.Kept.{
  HasRow, Unwritten, AtRow, disturb-AtRow, update-AtRow, update-AtRow_miss, get_task_status-AtRow,
  cache_task-AtRow, inc-AtRow,
}

module _ ⦃rt : Runtime⦄ (doc : IsDocumented rt.tb) (r : Request) (calm : IsCalm doc r)
    (unwritten : Unwritten r) (once : NoneLost rt) (t : Task) where
  answers : (s : Status) → s ≢ Status.pending → reply_if started_status (some s) ≡ status s
  unfolding reply_if started_status
  answers Status.pending ne = absurd (ne refl)
  answers running ne = refl
  answers _ ne = refl

  duplicates :
      (s : Status) (p : Phase)
      → s ≢ Status.pending
      → Ends
          (AtRow doc r calm unwritten s p t)
          (execute_task r)
          (ok (status s))
          (AtRow doc r calm unwritten s p t)
  unfolding execute_task not_started
  duplicates s p ne =
      step_once (disturb-AtRow doc r calm unwritten s p t) mark_running _ (once _)
        (update-AtRow_miss doc r calm unwritten s Status.pending running p none t ne)
        (step_once (disturb-AtRow doc r calm unwritten s p t) read_status_after_start _ (once _)
          (get_task_status-AtRow doc r calm unwritten s p t) (rw (answers s ne) (Ends-pure _)))

  -- A request for a task that is no longer pending, a duplicate for one, answers the task's status,
  -- and leaves its row as it is in every column and its transfer in its phase, when other requests do
  -- not write the row and no step is repeated.
  pub execute_task-duplicate :
      (s : Status) (p : Phase)
      → s ≢ Status.pending
      → (w : State) → At doc r s p w
      → HasRow r t w
      → ((execute_task r w).0 ≡ ok (status s))
        × (At doc r s p (execute_task r w).1 × HasRow r t (execute_task r w).1)
  execute_task-duplicate s p h1 w at_w row = (duplicates s p h1).at w (at_w, row)

  completes_late :
      (x : ComputeResult)
      → Ends
          (AtRow doc r calm unwritten cancel_requested posted t)
          (after_capture r x)
          (ok (with_result completed x))
          (AtRow doc r calm unwritten completed posted
            (record t { status = completed; result = some x }))
  unfolding after_capture late_cancel
  completes_late x =
      let u = record t { status = completed; result = some x } in
      let kept = disturb-AtRow doc r calm unwritten cancel_requested posted t in
      step_once kept task_completed_metric _ (once _)
        (inc-AtRow doc r calm unwritten cancel_requested posted t task_completed)
        (step_once kept mark_completed _ (once _)
          (update-AtRow_miss doc r calm unwritten cancel_requested running completed posted (some x)
            t (λ e. cc))
          (step_once kept read_status_after_completion _ (once _)
            (get_task_status-AtRow doc r calm unwritten cancel_requested posted t)
            (step_once kept mark_completed_after_late_cancel _ (once _)
              (update-AtRow doc r calm unwritten cancel_requested completed posted (some x) t)
              (step_once (disturb-AtRow doc r calm unwritten completed posted u)
                cache_completed_task_after_late_cancel _ (once _)
                (cache_task-AtRow doc r calm unwritten completed posted u
                  (completed_payload r.task_id x))
                (Ends-pure _)))))

  -- A cancellation that is requested after the credits were captured comes too late: the task is
  -- completed with its result, which is stored in its row and given in the reply, the row's other
  -- columns stay, and its transfer stays posted, when other requests do not write the row and no step
  -- is repeated.
  pub after_capture-late_cancel :
      (x : ComputeResult)
      → (w : State) → At doc r cancel_requested posted w
      → HasRow r t w
      → ((after_capture r x w).0 ≡ ok (with_result completed x))
        × (At doc r completed posted (after_capture r x w).1
            × HasRow r (record t { status = completed; result = some x }) (after_capture r x w).1)
  after_capture-late_cancel x w at_w row = (completes_late x).at w (at_w, row)
