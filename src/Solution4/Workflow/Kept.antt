-- ===== src/Solution4/Workflow/Kept.antt =====
-- The whole row of one task as the workflow meets it, beside what `At` says of it.
use metered_compute.Base.{ℕ, ◌≡◌, ◌≢◌, true, false, Option, some, arith}
use metered_compute.Exec.{ok}
use metered_compute.Exec.Ends.{Ends, Ends-both}
use metered_compute.TigerBeetle.{Phase, IsDocumented}
use metered_compute.Solution4.Gateway.{ComputeResult}
use metered_compute.Solution4.World.{Status, Payload, Metric, Runtime, State, Task, disturb}
use metered_compute.Solution4.Repository.{
  select, has_id, write, update_task_status_if_match, get_task_status,
}
use metered_compute.Solution4.Repository.Rows.{update-miss, update-row}
use metered_compute.Solution4.Cache.{cache_task}
use metered_compute.Solution4.Billing.{inc}
use metered_compute.Solution4.Workflow.{Request}
use metered_compute.Solution4.Workflow.Facts.{
  At, IsCalm, disturb-At, update-At, update-At_miss, get_task_status-At, cache_task-At, inc-At,
}

module _ ⦃rt : Runtime⦄ (r : Request) where
  -- The row of the task
  abbrev pub HasRow : Task → State → Type 0
  HasRow t w = select (has_id r.task_id) w.tasks ≡ some t

  -- Other requests do not write the row.
  abbrev pub Unwritten : Type 0
  Unwritten = (n : ℕ) (t : Task) (w : State) → HasRow t w → HasRow t (rt.others n w)

module _ ⦃rt : Runtime⦄ (doc : IsDocumented rt.tb) (r : Request) (calm : IsCalm doc r)
    (unwritten : Unwritten r) where
  -- The status and the phase of `At`, and the row
  abbrev pub AtRow : Status → Phase → Task → State → Type 0
  AtRow s p t w = At doc r s p w × HasRow r t w

  pub disturb-AtRow :
      (s : Status) (p : Phase) (t : Task) (w : State) → AtRow s p t w → AtRow s p t (disturb w)
  unfolding disturb
  disturb-AtRow s p t w h = (disturb-At doc r calm s p w h.0, unwritten w.clock t w h.1)

  pub update-AtRow :
      (e new : Status) (p : Phase) (res : Option ComputeResult) (t : Task)
      → Ends
          (AtRow e p t)
          (update_task_status_if_match r.task_id new e res)
          (ok true)
          (AtRow new p (write new res t))
  unfolding update_task_status_if_match
  update-AtRow e new p res t = Ends-both (update-At doc r calm e new p res) (λ w at_w row.
      let w' = disturb w in
      let h = disturb-AtRow e p t w (at_w, row) in
      update-row r.task_id new e res w'.tasks t h.0.keyed h.0.row h.1)

  pub update-AtRow_miss :
      (s e new : Status) (p : Phase) (res : Option ComputeResult) (t : Task)
      → s ≢ e
      → Ends
          (AtRow s p t)
          (update_task_status_if_match r.task_id new e res)
          (ok false)
          (AtRow s p t)
  unfolding update_task_status_if_match
  update-AtRow_miss s e new p res t ne =
      Ends-both (update-At_miss doc r calm s e new p res ne) (λ w at_w row.
        let w' = disturb w in
        let h = disturb-AtRow s p t w (at_w, row) in
        let u =
          update-miss r.task_id new e res w'.tasks h.0.keyed (λ x. ne (ground (arith, h.0.row))) in
        rw u h.1)

  pub get_task_status-AtRow :
      (s : Status) (p : Phase) (t : Task)
      → Ends (AtRow s p t) (get_task_status r.task_id) (ok (some s)) (AtRow s p t)
  unfolding get_task_status
  get_task_status-AtRow s p t =
      Ends-both (get_task_status-At doc r calm s p)
        (λ w at_w row. (disturb-AtRow s p t w (at_w, row)).1)

  pub cache_task-AtRow :
      (s : Status) (p : Phase) (t : Task) (v : Payload)
      → Ends (AtRow s p t) (cache_task r.task_id v) (ok tt) (AtRow s p t)
  unfolding cache_task
  cache_task-AtRow s p t v =
      Ends-both (cache_task-At doc r calm s p v)
        (λ w at_w row. (disturb-AtRow s p t w (at_w, row)).1)

  pub inc-AtRow :
      (s : Status) (p : Phase) (t : Task) (m : Metric)
      → Ends (AtRow s p t) (inc m) (ok tt) (AtRow s p t)
  unfolding inc
  inc-AtRow s p t m = Ends-both (inc-At doc r calm s p m) (λ w at_w row. row)
