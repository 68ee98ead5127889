-- ===== src/Solution4/Tests/WorkflowRuns.antt =====
-- Runs of the workflow.
use metered_compute.Base.{some, [], ◌∷◌, ◌≡◌, refl}
use metered_compute.Exec.{ok}
use metered_compute.TigerBeetle.{pending, posted, voided}
use metered_compute.TigerBeetle.Simulated.{simulated_documented}
use metered_compute.Solution4.Gateway.{
  done, timeout, timed_out, compute_outcome, request_compute_sync, attempt,
}
use metered_compute.Solution4.World.{
  Status, running, completed, failed, cancelled, cancel_requested,
}
use metered_compute.Solution4.Workflow.{
  status, because, with_result, cancelled_after_compute, credit_capture_failed, compute_timeout,
  after_capture, execute_task,
}
use metered_compute.Solution4.Workflow.Facts.{At}
use metered_compute.Solution4.Workflow.Paths.{execute_task-completes}
use metered_compute.Solution4.Workflow.Paths.Kept.{
  execute_task-duplicate, after_capture-late_cancel,
}
use metered_compute.Solution4.Workflow.Kept.{HasRow}
use metered_compute.Solution4.Repository.{select}
use metered_compute.Solution4.Repository.Rows.{status_of}
use metered_compute.Solution4.World.{Task, World}
use metered_compute.TigerBeetle.Simulated.{Book}
use metered_compute.Solution4.Workflow.Paths.Released.{execute_task-fails, execute_task-cancels}
use metered_compute.Solution4.Workflow.Faults.{
  execute_task-repeated_start, execute_task-repeated_release,
}
use metered_compute.Solution4.Tests.World4.{
  result, quick, runtime, calmly, cancelling, never, request, world, task, calm, world-At, computes,
  Computes-cancelled, answering, lose_start, lose_start-LostOnce, lose_release,
  lose_release-LostOnce,
}

quick_done : compute_outcome (answering quick) 2000 1 ≡ done result
unfolding compute_outcome request_compute_sync attempt
quick_done = refl

late_timeout : compute_outcome (answering timed_out) 2000 1 ≡ timeout
unfolding compute_outcome request_compute_sync attempt
late_timeout = refl

execute_task-completes_example :
    ((execute_task ⦃rt = runtime quick calmly never⦄ request (world Status.pending pending)).0
      ≡ ok (with_result completed result))
    × At ⦃rt = runtime quick calmly never⦄ simulated_documented request completed posted
        (execute_task ⦃rt = runtime quick calmly never⦄ request (world Status.pending pending)).1
execute_task-completes_example =
    execute_task-completes ⦃rt = runtime quick calmly never⦄ simulated_documented request
      (calm quick calmly never) (λ step. refl) result
      (computes quick never pending (done result) quick_done) (world Status.pending pending)
      (world-At quick calmly never Status.pending pending)

abbrev done_task : Task
done_task = record (task completed) { result = some result }

abbrev done_world : World Book
done_world = record (world completed posted) { tasks = done_task ∷ [] }

done_world-HasRow : HasRow ⦃rt = runtime quick calmly never⦄ request done_task done_world
unfolding select
done_world-HasRow = refl

world-HasRow :
    HasRow ⦃rt = runtime quick calmly never⦄ request
      (task cancel_requested)
      (world cancel_requested posted)
unfolding select
world-HasRow = refl

done_world-At :
    At ⦃rt = runtime quick calmly never⦄ simulated_documented request completed posted done_world
unfolding status_of
done_world-At =
    let h = world-At quick calmly never completed posted in
    record { keyed = (refl, tt); row = refl; phase = h.phase; book = h.book; fresh = h.fresh }

execute_task-duplicate_example :
    ((execute_task ⦃rt = runtime quick calmly never⦄ request done_world).0 ≡ ok (status completed))
    × (At ⦃rt = runtime quick calmly never⦄ simulated_documented request completed posted
          (execute_task ⦃rt = runtime quick calmly never⦄ request done_world).1
        × HasRow ⦃rt = runtime quick calmly never⦄ request done_task
            (execute_task ⦃rt = runtime quick calmly never⦄ request done_world).1)
execute_task-duplicate_example =
    execute_task-duplicate ⦃rt = runtime quick calmly never⦄ simulated_documented request
      (calm quick calmly never) (λ n t w h. h) (λ step. refl) done_task completed posted (λ e. cc)
      done_world done_world-At done_world-HasRow

execute_task-fails_example :
    ((execute_task ⦃rt = runtime timed_out calmly never⦄ request (world Status.pending pending)).0
      ≡ ok (because failed compute_timeout))
    × At ⦃rt = runtime timed_out calmly never⦄ simulated_documented request failed voided
        (execute_task ⦃rt = runtime timed_out calmly never⦄ request
          (world Status.pending pending)).1
execute_task-fails_example =
    execute_task-fails ⦃rt = runtime timed_out calmly never⦄ simulated_documented request
      (calm timed_out calmly never) (λ step. refl) timeout (λ x e. cc)
      (computes timed_out never pending timeout late_timeout) (world Status.pending pending)
      (world-At timed_out calmly never Status.pending pending)

execute_task-cancels_example :
    ((execute_task ⦃rt = runtime quick cancelling never⦄ request (world Status.pending pending)).0
      ≡ ok (because cancelled cancelled_after_compute))
    × At ⦃rt = runtime quick cancelling never⦄ simulated_documented request cancelled voided
        (execute_task ⦃rt = runtime quick cancelling never⦄ request
          (world Status.pending pending)).1
execute_task-cancels_example =
    execute_task-cancels ⦃rt = runtime quick cancelling never⦄ simulated_documented request
      (calm quick cancelling never) (λ step. refl) (done result)
      (Computes-cancelled quick never pending (done result) quick_done)
      (world Status.pending pending) (world-At quick cancelling never Status.pending pending)

after_capture-late_cancel_example :
    ((after_capture ⦃rt = runtime quick calmly never⦄ request result
        (world cancel_requested posted)).0
      ≡ ok (with_result completed result))
    × (At ⦃rt = runtime quick calmly never⦄ simulated_documented request completed posted
          (after_capture ⦃rt = runtime quick calmly never⦄ request result
            (world cancel_requested posted)).1
        × HasRow ⦃rt = runtime quick calmly never⦄ request done_task
            (after_capture ⦃rt = runtime quick calmly never⦄ request result
              (world cancel_requested posted)).1)
after_capture-late_cancel_example =
    after_capture-late_cancel ⦃rt = runtime quick calmly never⦄ simulated_documented request
      (calm quick calmly never) (λ n t w h. h) (λ step. refl) (task cancel_requested) result
      (world cancel_requested posted) (world-At quick calmly never cancel_requested posted)
      world-HasRow

execute_task-repeated_start_example :
    ((execute_task ⦃rt = runtime quick calmly lose_start⦄ request (world Status.pending pending)).0
      ≡ ok (status running))
    × At ⦃rt = runtime quick calmly lose_start⦄ simulated_documented request running pending
        (execute_task ⦃rt = runtime quick calmly lose_start⦄ request
          (world Status.pending pending)).1
execute_task-repeated_start_example =
    execute_task-repeated_start ⦃rt = runtime quick calmly lose_start⦄ simulated_documented request
      (calm quick calmly lose_start) pending (lose_start-LostOnce quick calmly)
      (world Status.pending pending) (world-At quick calmly lose_start Status.pending pending)

execute_task-repeated_release_example :
    ((execute_task ⦃rt = runtime quick cancelling lose_release⦄ request
        (world Status.pending pending)).0
      ≡ ok (because failed credit_capture_failed))
    × At ⦃rt = runtime quick cancelling lose_release⦄ simulated_documented request cancel_requested
        voided
        (execute_task ⦃rt = runtime quick cancelling lose_release⦄ request
          (world Status.pending pending)).1
execute_task-repeated_release_example =
    execute_task-repeated_release ⦃rt = runtime quick cancelling lose_release⦄ simulated_documented
      request (calm quick cancelling lose_release) result (lose_release-LostOnce quick cancelling)
      (Computes-cancelled quick lose_release pending (done result) quick_done)
      (world Status.pending pending) (world-At quick cancelling lose_release Status.pending pending)
