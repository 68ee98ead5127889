-- ===== src/Solution4/Cancel/Outcome.antt =====
-- What a cancellation does to the task that it has read and to its credits.
use metered_compute.Base.{
  ℕ, ◌≡◌, ◌≢◌, refl, true, none, some, arith, ◌==◌, ◌⊎◌, inl, inr, Bool-cases, ◌⊎◌, inl, inr,
  Bool-cases,
}
use metered_compute.Exec.{raise, ◌>>=◌, ok, err, raise, ◌>>=◌}
use metered_compute.Exec.Ends.{Ends, Ends-bind, Ends-pure, Ends-raise}
use metered_compute.TigerBeetle.{Phase, pending, voided, IsDocumented}
use metered_compute.Solution4.World.{
  Status, running, cancelled, cancel_requested, Task, task_cancelled, Runtime, State,
}
use metered_compute.Solution4.Auth.{AuthUser}
use metered_compute.Solution4.Workflow.Facts.{At, IsCalm, update-At, invalidate_task-At, inc-At}
use metered_compute.Solution4.Workflow.Settling.{release_credits-At, release_credits-At_settled}
use metered_compute.Solution4.Submit.Credits.{request_of}
use metered_compute.Solution4.Cancel.{release_failed, by_status, cancel_row}

own : (a b : ℕ) → a ≡ b → (a == b) ≡ true
own a b h = ground arith

module _ ⦃rt : Runtime⦄ (doc : IsDocumented rt.tb) (t : Task) (calm : IsCalm doc (request_of t))
    (user : AuthUser) (owner : t.user_id ≡ user.user_id) where
  cancels :
      t.status ≡ Status.pending
      → Ends
          (At doc (request_of t) Status.pending pending)
          (cancel_row user (some t))
          (ok (record { task_id = t.task_id; status = cancelled; credits_refunded = t.cost }))
          (At doc (request_of t) cancelled voided)
  unfolding cancel_row
  cancels e =
      rw (own t.user_id user.user_id owner, e)
        (Ends-bind _ (update-At doc (request_of t) calm Status.pending cancelled pending none) (
          Ends-bind _ (release_credits-At doc (request_of t) calm.distinct cancelled) (
            Ends-bind _ (inc-At doc (request_of t) calm cancelled voided task_cancelled) (
              Ends-bind _ (invalidate_task-At doc (request_of t) calm cancelled voided)
                (Ends-pure _)))))

  -- The owner of a pending task with reserved credits cancels it: the task is cancelled, its
  -- transfer is voided, and the whole cost is reported as refunded.
  pub cancel_row-pending :
      t.status ≡ Status.pending
      → (w : State) → At doc (request_of t) Status.pending pending w
      → ((cancel_row user (some t) w).0
          ≡ ok (record { task_id = t.task_id; status = cancelled; credits_refunded = t.cost }))
        × At doc (request_of t) cancelled voided (cancel_row user (some t) w).1
  cancel_row-pending e w h = (cancels e).at w h

  puts_back :
      (p : Phase)
      → p ≢ pending
      → t.status ≡ Status.pending
      → Ends
          (At doc (request_of t) Status.pending p)
          (cancel_row user (some t))
          (err release_failed)
          (At doc (request_of t) Status.pending p)
  unfolding cancel_row
  puts_back p ne e =
      rw (own t.user_id user.user_id owner, e)
        (Ends-bind _ (update-At doc (request_of t) calm Status.pending cancelled p none) (
          Ends-bind _ (release_credits-At_settled doc (request_of t) calm.distinct cancelled p ne) (
            Ends-bind _ (update-At doc (request_of t) calm cancelled Status.pending p none)
              (Ends-raise _))))

  -- When the transfer of a pending task cannot be released, since it is no longer pending, the
  -- cancellation fails with a 500 and the task is put back to pending.
  pub cancel_row-unreleased :
      (p : Phase)
      → p ≢ pending
      → t.status ≡ Status.pending
      → (w : State) → At doc (request_of t) Status.pending p w
      → ((cancel_row user (some t) w).0 ≡ err release_failed)
        × At doc (request_of t) Status.pending p (cancel_row user (some t) w).1
  cancel_row-unreleased p ne e w h = (puts_back p ne e).at w h

  requests :
      (p : Phase)
      → t.status ≡ running
      → Ends
          (At doc (request_of t) running p)
          (cancel_row user (some t))
          (ok (record { task_id = t.task_id; status = cancel_requested; credits_refunded = 0 }))
          (At doc (request_of t) cancel_requested p)
  unfolding cancel_row
  requests p e =
      rw (own t.user_id user.user_id owner, e)
        (Ends-bind _ (update-At doc (request_of t) calm running cancel_requested p none)
          (Ends-pure _))

  -- The cancellation of a running task is a request to its workflow: the task is marked, nothing is
  -- refunded yet, and its transfer stays as it is.
  pub cancel_row-running :
      (p : Phase)
      → t.status ≡ running
      → (w : State) → At doc (request_of t) running p w
      → ((cancel_row user (some t) w).0
          ≡ ok (record { task_id = t.task_id; status = cancel_requested; credits_refunded = 0 }))
        × At doc (request_of t) cancel_requested p (cancel_row user (some t) w).1
  cancel_row-running p e w h = (requests p e).at w h

settled_same :
    ⦃rt : Runtime⦄ (s : Status) (t : Task) (w : State)
    → s ≢ Status.pending
    → s ≢ running
    → (by_status s t w).1 ≡ w
unfolding by_status ◌>>=◌
settled_same Status.pending t w h k = absurd (h refl)
settled_same running t w h k = absurd (k refl)
settled_same _ t w h k = refl

-- A cancellation by another user, or of a task that is neither pending nor running, changes nothing
-- at all.
pub cancel_row_same :
    ⦃rt : Runtime⦄ (t : Task) (user : AuthUser) (w : State)
    → (t.user_id ≢ user.user_id) ⊎ ((t.status ≢ Status.pending) × (t.status ≢ running))
    → (cancel_row user (some t) w).1 ≡ w
unfolding cancel_row raise
cancel_row_same t user w h = elim (Bool-cases (t.user_id == user.user_id)) [
  | inl mine ↦ elim h [
    | inl other ↦ absurd (other (ground (arith, mine)))
    | inr settled ↦ rw mine (settled_same t.status t w settled.0 settled.1)
  ]
  | inr other ↦ rw other
]
