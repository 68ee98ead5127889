-- ===== src/Solution4/Workflow/Steps.antt =====
-- The steps of the workflow one by one, and its cancellation check.
use metered_compute.Base.{ℕ, ◌≡◌, ◌≢◌, true, false, none, arith}
use metered_compute.Exec.{Result, ok, ◌>>=◌}
use metered_compute.Exec.Ends.{Ends, Ends-bind, Ends-pure}
use metered_compute.TigerBeetle.{Phase, pending, voided, IsDocumented}
use metered_compute.Solution4.Gateway.{Outcome, compute_outcome}
use metered_compute.Solution4.World.{
  Status, running, cancelled, cancel_requested, same_status, task_cancelled, Step, Runtime, State,
  Action, disturb, read_status_after_cancel_check, release_credits_for_cancel,
  mark_cancelled_after_request, invalidate_task_after_cancel, task_cancelled_metric_after_request,
}
use metered_compute.Solution4.Workflow.{Request, ctx_run, compute_call, maybe_complete_cancellation}
use metered_compute.Solution4.Workflow.Facts.{
  At, IsCalm, disturb-At, update-At, get_task_status-At, invalidate_task-At, inc-At,
}
use metered_compute.Solution4.Workflow.Settling.{release_credits-At}

-- No step's result is lost.
abbrev pub NoneLost : Runtime → Type 0
NoneLost rt = (step : Step) → rt.lost step ≡ 0

-- The result of one step is lost once, and of no other step.
abbrev pub LostOnce : Runtime → Step → Type 0
LostOnce rt step = (rt.lost step ≡ 1) × ((other : Step) → other ≢ step → rt.lost other ≡ 0)

-- What the worker answers, and what becomes of the task's status while it works.
pub record Computes ⦃rt : Runtime⦄ (doc : IsDocumented rt.tb) (r : Request) (p : Phase)
    (outcome : Outcome) (s : Status) : Type 0 where
  pub answers :
      (n : ℕ)
      → compute_outcome
          (rt.network n)
          rt.settings.compute_timeout_ms
          rt.settings.compute_retry_attempts
        ≡ outcome
  pub meanwhile : (w : State) → At doc r running p w → At doc r s p (rt.during_compute w)

module _ ⦃rt : Runtime⦄ {A B : Type 0} {P Q R : State → Type 0} where
  -- A step whose result is not lost, from a predicate that other requests keep.
  pub step_once :
      ((w : State) → P w → P (disturb w))
      → (step : Step) {m : Action A} {a : A} (f : A → Action B) {b : Result B} → rt.lost step ≡ 0
      → Ends P m (ok a) Q
      → Ends Q (f a) b R
      → Ends P (ctx_run step m >>= f) b R
  unfolding ctx_run
  step_once kept step {m} f once h next =
      Ends-bind f (record { at = λ w p. rw (once, ctx_run) (h.at (disturb w) (kept w p)) }) next

module _ ⦃rt : Runtime⦄ (doc : IsDocumented rt.tb) (r : Request) (calm : IsCalm doc r)
    {A B : Type 0} {Q R : State → Type 0} where
  -- A step whose result is not lost, and what follows it.
  pub step_bind :
      (step : Step) (s : Status) (p : Phase) {m : Action A} {a : A} (f : A → Action B)
      {b : Result B}
      → rt.lost step ≡ 0
      → Ends (At doc r s p) m (ok a) Q
      → Ends Q (f a) b R
      → Ends (At doc r s p) (ctx_run step m >>= f) b R
  step_bind step s p f once h next = step_once (disturb-At doc r calm s p) step f once h next

  -- A step whose first result is lost: its action runs twice, and the second result counts.
  pub step_again :
      (step : Step) (s s' : Status) (p p' : Phase) {m : Action A} (lost a : A) (f : A → Action B)
      {b : Result B}
      → rt.lost step ≡ 1
      → Ends (At doc r s p) m (ok lost) (At doc r s' p')
      → Ends (At doc r s' p') m (ok a) Q
      → Ends Q (f a) b R
      → Ends (At doc r s p) (ctx_run step m >>= f) b R
  unfolding ctx_run
  step_again step s s' p p' {m} lost a f twice first second next =
      Ends-bind f
        (record {
          at = λ w at_w.
              let w₁ = disturb w in
              let h₁ = disturb-At doc r calm s p w at_w in
              let w₂ = disturb (m w₁).1 in
              let h₂ = disturb-At doc r calm s' p' (m w₁).1 (first.at w₁ h₁).1 in
              rw (twice, ctx_run) (second.at w₂ h₂);
        })
        next

module _ ⦃rt : Runtime⦄ (doc : IsDocumented rt.tb) (r : Request) (calm : IsCalm doc r) where
  pub compute_call-At :
      (p : Phase) (outcome : Outcome) (s : Status)
      → Computes doc r p outcome s
      → Ends (At doc r running p) compute_call (ok outcome) (At doc r s p)
  unfolding compute_call
  compute_call-At p outcome s c = record { at = λ w h. (rw (c.answers w.clock), c.meanwhile w h) }

  -- With no cancellation requested the check changes nothing.
  pub maybe_complete_cancellation-At_other :
      (s : Status) (p : Phase)
      → s ≢ cancel_requested
      → rt.lost read_status_after_cancel_check ≡ 0
      → Ends (At doc r s p) (maybe_complete_cancellation r) (ok false) (At doc r s p)
  unfolding maybe_complete_cancellation
  maybe_complete_cancellation-At_other s p ne once =
      step_bind doc r calm read_status_after_cancel_check s p _ once
        (get_task_status-At doc r calm s p) (rw (other s ne) (Ends-pure false))
    where
      other : (s : Status) → s ≢ cancel_requested → same_status s cancel_requested ≡ false
      other s ne = ground arith

  -- A requested cancellation of a task with a pending transfer is completed: the transfer is voided
  -- and the task is cancelled.
  pub maybe_complete_cancellation-At :
      NoneLost rt
      → Ends
          (At doc r cancel_requested pending)
          (maybe_complete_cancellation r)
          (ok true)
          (At doc r cancelled voided)
  unfolding maybe_complete_cancellation
  maybe_complete_cancellation-At once =
      step_bind doc r calm read_status_after_cancel_check cancel_requested pending _ (once _)
        (get_task_status-At doc r calm cancel_requested pending)
        (step_bind doc r calm release_credits_for_cancel cancel_requested pending _ (once _)
          (release_credits-At doc r calm.distinct cancel_requested)
          (step_bind doc r calm mark_cancelled_after_request cancel_requested voided _ (once _)
            (update-At doc r calm cancel_requested cancelled voided none)
            (step_bind doc r calm invalidate_task_after_cancel cancelled voided _ (once _)
              (invalidate_task-At doc r calm cancelled voided)
              (step_bind doc r calm task_cancelled_metric_after_request cancelled voided _ (once _)
                (inc-At doc r calm cancelled voided task_cancelled) (Ends-pure true)))))
