-- ===== src/Solution4/Submit/Credits.antt =====
-- Where the reserved credits are, whatever becomes of a submission.
use metered_compute.Base.{ℕ, ◌≡◌, ◌≢◌, true, false, Option, none}
use metered_compute.Exec.{ok, err, Result, ◌>>=◌}
use metered_compute.Exec.Ends.{Ends, Ends-bind, Ends-pure, Ends-raise, Ends-bind_err}
use metered_compute.TigerBeetle.{Phase, pending, voided, IsDocumented}
use metered_compute.Solution4.World.{Status, failed, Task, Runtime, State, disturb}
use metered_compute.Solution4.Cache.{cache_task, normalize_task_payload}
use metered_compute.Solution4.Workflow.{Request}
use metered_compute.Solution4.Workflow.Facts.{
  At, IsCalm, disturb-At, update-At, update-At_miss, get_task_status-At, cache_task-At,
  invalidate_task-At,
}
use metered_compute.Solution4.Workflow.Settling.{release_credits-At, release_credits-At_settled}
use metered_compute.Solution4.Submit.{
  SubmitResponse, known, unreleased, released_error, handed_over, handle_restate_handoff_failure,
  post_to_restate, hand_over, fallback_reply,
}

-- The task and the transfer of a row.
abbrev pub request_of : Task → Request
request_of t = record { task_id = t.task_id; tb_transfer_id = t.tb_transfer_id }

module _ ⦃rt : Runtime⦄ (doc : IsDocumented rt.tb) (t : Task)
    (calm : IsCalm doc (request_of t)) where
  posted_to_restate :
      (s : Status) (p : Phase) (answer : Option ℕ)
      → ((n : ℕ) → rt.ingress n ≡ answer)
      → Ends (At doc (request_of t) s p) post_to_restate (ok answer) (At doc (request_of t) s p)
  unfolding post_to_restate
  posted_to_restate s p answer same = record {
    at = λ w h. (cc (same (disturb w).clock), disturb-At doc (request_of t) calm s p w h);
  }

  cached :
      (s : Status) (p : Phase)
      → Ends
          (At doc (request_of t) s p)
          (cache_task t.task_id (normalize_task_payload t))
          (ok tt)
          (At doc (request_of t) s p)
  cached s p = cache_task-At doc (request_of t) calm s p (normalize_task_payload t)

  accepting :
      (answer : Option ℕ)
      → ((n : ℕ) → rt.ingress n ≡ answer)
      → handed_over answer ≡ true
      → Ends
          (At doc (request_of t) Status.pending pending)
          (hand_over t)
          (ok (record { status_code = 201; task_id = t.task_id; status = known Status.pending }))
          (At doc (request_of t) Status.pending pending)
  unfolding hand_over
  accepting answer same accepted = Ends-bind _ (cached Status.pending pending) (
      Ends-bind _ (posted_to_restate Status.pending pending answer same)
        (rw accepted (Ends-pure _)))

  -- A new task that Restate takes over is answered with 201 and "pending"; it stays pending and its
  -- credits stay reserved.
  pub hand_over-accepted :
      (answer : Option ℕ)
      → ((n : ℕ) → rt.ingress n ≡ answer)
      → handed_over answer ≡ true
      → (w : State) → At doc (request_of t) Status.pending pending w
      → ((hand_over t w).0
          ≡ ok (record { status_code = 201; task_id = t.task_id; status = known Status.pending }))
        × At doc (request_of t) Status.pending pending (hand_over t w).1
  hand_over-accepted answer same accepted w h = (accepting answer same accepted).at w h

  -- The rest of a hand-over that fails.
  failing :
      (s s' : Status) (p p' : Phase) (answer : Option ℕ) (r : Result SubmitResponse)
      → ((n : ℕ) → rt.ingress n ≡ answer)
      → handed_over answer ≡ false
      → Ends
          (At doc (request_of t) s p)
          (handle_restate_handoff_failure t.task_id t.tb_transfer_id >>= fallback_reply t.task_id)
          r
          (At doc (request_of t) s' p')
      → Ends (At doc (request_of t) s p) (hand_over t) r (At doc (request_of t) s' p')
  unfolding hand_over
  failing s s' p p' answer r same refused rest =
      Ends-bind _ (cached s p) (Ends-bind _ (posted_to_restate s p answer same) (rw refused rest))

  -- When the hand-over of a task with reserved credits fails and the task has not started, the task
  -- is marked failed, its credits are released, and the caller gets a 503 that says so.
  pub hand_over-released :
      (answer : Option ℕ)
      → ((n : ℕ) → rt.ingress n ≡ answer)
      → handed_over answer ≡ false
      → (w : State) → At doc (request_of t) Status.pending pending w
      → ((hand_over t w).0 ≡ err released_error)
        × At doc (request_of t) failed voided (hand_over t w).1
  unfolding handle_restate_handoff_failure fallback_reply
  hand_over-released answer same refused w h =
      (failing Status.pending failed pending voided answer _ same refused (
          Ends-bind _
            (Ends-bind _ (update-At doc (request_of t) calm Status.pending failed pending none) (
              Ends-bind _ (release_credits-At doc (request_of t) calm.distinct failed) (
                Ends-bind _ (invalidate_task-At doc (request_of t) calm failed voided)
                  (Ends-pure none))))
            (Ends-raise released_error))).at
        w h

  -- When the credits cannot be released, since the transfer is no longer pending, the task is put
  -- back to pending and the caller gets a 503 that says so.
  pub hand_over-unreleased :
      (answer : Option ℕ) (p : Phase)
      → ((n : ℕ) → rt.ingress n ≡ answer)
      → handed_over answer ≡ false
      → p ≢ pending
      → (w : State) → At doc (request_of t) Status.pending p w
      → ((hand_over t w).0 ≡ err unreleased)
        × At doc (request_of t) Status.pending p (hand_over t w).1
  unfolding handle_restate_handoff_failure fallback_reply
  hand_over-unreleased answer p same refused ne w h =
      (failing Status.pending Status.pending p p answer _ same refused (
          Ends-bind_err _ (
            Ends-bind _ (update-At doc (request_of t) calm Status.pending failed p none) (
              Ends-bind _ (release_credits-At_settled doc (request_of t) calm.distinct failed p ne)
                (Ends-bind _ (update-At doc (request_of t) calm failed Status.pending p none)
                  (Ends-raise unreleased)))))).at
        w h

  -- When the hand-over seems to fail but the task has moved on, nothing is compensated: the caller
  -- gets the status that the task has, and the task and its credits stay as they are.
  pub hand_over-moved_on :
      (answer : Option ℕ) (s : Status) (p : Phase)
      → ((n : ℕ) → rt.ingress n ≡ answer)
      → handed_over answer ≡ false
      → s ≢ Status.pending
      → (w : State) → At doc (request_of t) s p w
      → ((hand_over t w).0
          ≡ ok (record { status_code = 201; task_id = t.task_id; status = known s }))
        × At doc (request_of t) s p (hand_over t w).1
  unfolding handle_restate_handoff_failure fallback_reply
  hand_over-moved_on answer s p same refused ne w h =
      (failing s s p p answer _ same refused (
          Ends-bind _
            (Ends-bind _ (update-At_miss doc (request_of t) calm s Status.pending failed p none ne)
              (Ends-bind _ (get_task_status-At doc (request_of t) calm s p) (Ends-pure _)))
            (Ends-pure _))).at
        w h
