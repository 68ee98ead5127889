-- ===== src/Solution4/Workflow/Facts.antt =====
-- The state of one task as the workflow meets it: the status of its row, the phase of its transfer,
-- and what each call of the workflow does to these. The calls wait, so other requests run; the
-- lemmas assume that those leave this task and its transfer as they are (`Undisturbed`).
use metered_compute.Base.{ℕ, ◌≤◌, ◌≡◌, ◌≢◌, refl, true, false, Option, some, arith}
use metered_compute.Exec.{ok}
use metered_compute.Exec.Ends.{Ends}
use metered_compute.TigerBeetle.{Phase, IsDocumented}
use metered_compute.Solution4.Gateway.{ComputeResult}
use metered_compute.Solution4.World.{Status, Payload, Metric, Runtime, State, disturb}
use metered_compute.Solution4.Repository.{update_task_status_if_match, get_task_status}
use metered_compute.Solution4.Repository.Rows.{
  status_of, IsKeyed, status_of-select, update-miss, update-hit, update-IsKeyed,
}
use metered_compute.Solution4.Cache.{cache_task, invalidate_task}
use metered_compute.Solution4.Billing.{inc, task_ledger, code_task}
use metered_compute.Solution4.Workflow.{Request}

-- The row of the task has the status `s`, its transfer is in phase `p`, and the ids that will be
-- generated are unused.
pub record At ⦃rt : Runtime⦄ (doc : IsDocumented rt.tb) (r : Request) (s : Status) (p : Phase)
    (w : State) : Type 0 where
  pub keyed : IsKeyed w.tasks
  pub row : status_of r.task_id w.tasks ≡ some s
  pub phase : doc.phase w.ledger r.tb_transfer_id ≡ p
  pub book : doc.book w.ledger r.tb_transfer_id ≡ (task_ledger, code_task)
  pub fresh : (k : ℕ) → w.uuids ≤ k → doc.used w.ledger (rt.uuid7 k) ≡ false

-- No two generated ids are equal.
abbrev pub Distinct : Runtime → Type 0
Distinct rt = (j k : ℕ) → j ≢ k → rt.uuid7 j ≢ rt.uuid7 k

-- Other requests leave the task and its transfer as they are.
abbrev pub Undisturbed : ⦃rt : Runtime⦄ → IsDocumented rt.tb → Request → Type 0
Undisturbed ⦃rt⦄ doc r =
    (n : ℕ) (s : Status) (p : Phase) (w : State) → At doc r s p w → At doc r s p (rt.others n w)

-- The circumstances of a run: other requests leave the task alone, and ids are not repeated.
pub record IsCalm ⦃rt : Runtime⦄ (doc : IsDocumented rt.tb) (r : Request) : Type 0 where
  pub distinct : Distinct rt
  pub undisturbed : Undisturbed doc r

module _ ⦃rt : Runtime⦄ (doc : IsDocumented rt.tb) (r : Request) (calm : IsCalm doc r) where
  pub disturb-At : (s : Status) (p : Phase) (w : State) → At doc r s p w → At doc r s p (disturb w)
  unfolding disturb
  disturb-At s p w h =
      let h' = calm.undisturbed w.clock s p w h in
      record { keyed = h'.keyed; row = h'.row; phase = h'.phase; book = h'.book; fresh = h'.fresh }

  pub update-At :
      (e new : Status) (p : Phase) (res : Option ComputeResult)
      → Ends
          (At doc r e p)
          (update_task_status_if_match r.task_id new e res)
          (ok true)
          (At doc r new p)
  unfolding update_task_status_if_match
  update-At e new p res = record {
    at = λ w h.
        let w' = disturb w in
        let h' = disturb-At e p w h in
        let u = update-hit r.task_id new e res w'.tasks h'.keyed h'.row in
        (
          rw u.0,
          record {
            keyed = update-IsKeyed r.task_id new e res w'.tasks h'.keyed;
            row = u.1;
            phase = h'.phase;
            book = h'.book;
            fresh = h'.fresh;
          },
        );
  }

  pub update-At_miss :
      (s e new : Status) (p : Phase) (res : Option ComputeResult)
      → s ≢ e
      → Ends
          (At doc r s p)
          (update_task_status_if_match r.task_id new e res)
          (ok false)
          (At doc r s p)
  unfolding update_task_status_if_match
  update-At_miss s e new p res ne = record {
    at = λ w h.
        let w' = disturb w in
        let h' = disturb-At s p w h in
        let u =
          update-miss r.task_id new e res w'.tasks h'.keyed (λ x. ne (ground (arith, h'.row))) in
        (
          rw u,
          rw u (record {
            keyed = h'.keyed;
            row = h'.row;
            phase = h'.phase;
            book = h'.book;
            fresh = h'.fresh;
          }),
        );
  }

  pub get_task_status-At :
      (s : Status) (p : Phase)
      → Ends (At doc r s p) (get_task_status r.task_id) (ok (some s)) (At doc r s p)
  unfolding get_task_status
  get_task_status-At s p = record {
    at = λ w h.
        let w' = disturb w in
        let h' = disturb-At s p w h in (cc (status_of-select r.task_id w'.tasks, h'.row), h');
  }

  pub cache_task-At :
      (s : Status) (p : Phase) (v : Payload)
      → Ends (At doc r s p) (cache_task r.task_id v) (ok tt) (At doc r s p)
  unfolding cache_task
  cache_task-At s p v = record {
    at = λ w h.
        let h' = disturb-At s p w h in
        (
          refl,
          record {
            keyed = h'.keyed;
            row = h'.row;
            phase = h'.phase;
            book = h'.book;
            fresh = h'.fresh;
          },
        );
  }

  pub invalidate_task-At :
      (s : Status) (p : Phase)
      → Ends (At doc r s p) (invalidate_task r.task_id) (ok tt) (At doc r s p)
  unfolding invalidate_task
  invalidate_task-At s p = record {
    at = λ w h.
        let h' = disturb-At s p w h in
        (
          refl,
          record {
            keyed = h'.keyed;
            row = h'.row;
            phase = h'.phase;
            book = h'.book;
            fresh = h'.fresh;
          },
        );
  }

  pub inc-At :
      (s : Status) (p : Phase) (m : Metric) → Ends (At doc r s p) (inc m) (ok tt) (At doc r s p)
  unfolding inc
  inc-At s p m = record {
    at = λ w h. (
      refl,
      record { keyed = h.keyed; row = h.row; phase = h.phase; book = h.book; fresh = h.fresh },
    );
  }
