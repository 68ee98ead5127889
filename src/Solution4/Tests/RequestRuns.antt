-- ===== src/Solution4/Tests/RequestRuns.antt =====
-- Runs of the requests of a user: the hand-over, cancellation, polling, top-ups, and registration.
use metered_compute.Base.{ℕ, zero, suc, [], ◌∷◌, ◌+◌, ◌<◌, ◌≡◌, ◌↔◌, refl, some, none, true}
use metered_compute.Int.{pos}
use metered_compute.Exec.{ok, err, ◌>>=◌}
use metered_compute.TigerBeetle.{pending, posted, voided}
use metered_compute.TigerBeetle.Simulated.{simulated_documented}
use metered_compute.Solution4.Gateway.{timed_out}
use metered_compute.Solution4.World.{
  Status, running, completed, failed, cancelled, Payload, Registration,
}
use metered_compute.Solution4.Repository.{get_task}
use metered_compute.Solution4.World.{disturb}
use metered_compute.Solution4.Cache.{lookup, get_cached_task, normalize_task_payload, cache_task}
use metered_compute.Solution4.Billing.{topup_credits}
use metered_compute.Solution4.Billing.Transfers.{topup_credits-topup_credits}
use metered_compute.Solution4.Auth.{AuthUser}
use metered_compute.Solution4.Registration.{
  IsRegistered, register_restate_service, register_restate_service_iff,
}
use metered_compute.Solution4.Submit.{released_error, hand_over}
use metered_compute.Solution4.Submit.Credits.{hand_over-released}
use metered_compute.Solution4.Cancel.{not_yours, cancel_row}
use metered_compute.Solution4.Cancel.Outcome.{cancel_row-pending}
use metered_compute.Solution4.Poll.{poll_for}
use metered_compute.Solution4.Poll.Owner.{poll_for-owner, poll_for-evicted}
use metered_compute.Solution4.Workflow.{completed_payload}
use metered_compute.Solution4.Workflow.Facts.{At}
use metered_compute.Solution4.Tests.World4.{
  result, quick, runtime, calmly, never, request, task, world, calm, world-At,
}

abbrev alice_user : AuthUser
alice_user = record { user_id = 3; name = "alice"; role = "user" }

abbrev bob_user : AuthUser
bob_user = record { user_id = 4; name = "bob"; role = "user" }

-- The owner's entry, as the submission caches it.
abbrev entry : Payload
entry = record {
  task_id = some 1;
  user_id = some 3;
  status = some Status.pending;
  x = some (pos 2);
  y = some (pos 3);
  result = none;
  cost = some 10;
  tb_transfer_id = some 7;
  idempotency_key = none;
}

polled :
    (poll_for ⦃rt = runtime quick calmly never⦄ alice_user 1 (world running pending)).0
    ≡ ok (normalize_task_payload (task running))
unfolding poll_for ◌>>=◌ get_cached_task get_task cache_task normalize_task_payload disturb
polled = refl

hand_over-released_example :
    ((hand_over ⦃rt = runtime timed_out calmly never⦄
        (task Status.pending)
        (world Status.pending pending)).0
      ≡ err released_error)
    × At ⦃rt = runtime timed_out calmly never⦄ simulated_documented request failed voided
        (hand_over ⦃rt = runtime timed_out calmly never⦄
          (task Status.pending)
          (world Status.pending pending)).1
hand_over-released_example =
    hand_over-released ⦃rt = runtime timed_out calmly never⦄ simulated_documented
      (task Status.pending) (calm timed_out calmly never) none (λ n. refl) refl
      (world Status.pending pending) (world-At timed_out calmly never Status.pending pending)

cancel_row-pending_example :
    ((cancel_row ⦃rt = runtime quick calmly never⦄ alice_user
        (some (task Status.pending))
        (world Status.pending pending)).0
      ≡ ok (record { task_id = 1; status = cancelled; credits_refunded = 10 }))
    × At ⦃rt = runtime quick calmly never⦄ simulated_documented request cancelled voided
        (cancel_row ⦃rt = runtime quick calmly never⦄ alice_user
          (some (task Status.pending))
          (world Status.pending pending)).1
cancel_row-pending_example =
    cancel_row-pending ⦃rt = runtime quick calmly never⦄ simulated_documented (task Status.pending)
      (calm quick calmly never) alice_user refl refl (world Status.pending pending)
      (world-At quick calmly never Status.pending pending)

poll_for-owner_example : (normalize_task_payload (task running)).user_id ≡ some 3
poll_for-owner_example =
    poll_for-owner ⦃rt = runtime quick calmly never⦄ alice_user 1 (world running pending)
      (normalize_task_payload (task running)) polled

poll_for-evicted_example :
    (poll_for ⦃rt = runtime quick calmly never⦄ alice_user 1
      (cache_task ⦃rt = runtime quick calmly never⦄ 1
        (completed_payload 1 result)
        (world completed posted)).1).0
    ≡ err not_yours
unfolding lookup
poll_for-evicted_example =
    poll_for-evicted ⦃rt = runtime quick calmly never⦄ alice_user 1 result (λ n w. refl)
      (world completed posted) refl

topup_credits-topup_credits_example :
    (topup_credits ⦃rt = runtime quick calmly never⦄ 3 77 50
      (topup_credits ⦃rt = runtime quick calmly never⦄ 3 77 50
        (world Status.pending pending)).1).1.ledger
    ≡ (topup_credits ⦃rt = runtime quick calmly never⦄ 3 77 50
        (world Status.pending pending)).1.ledger
topup_credits-topup_credits_example =
    topup_credits-topup_credits ⦃rt = runtime quick calmly never⦄ simulated_documented 3 77 50
      (world Status.pending pending)

abbrev attempts : ℕ → Registration
attempts zero = record { posted = none; listed = none }
attempts (suc i) = record { posted = some 409; listed = some (200, ("TaskService" ∷ []) ∷ []) }

register_restate_service_iff_example :
    (register_restate_service 12 0 attempts ≡ true)
    ↔ ((k : ℕ) × (k < 12) × IsRegistered (attempts (0 + k)))
register_restate_service_iff_example = register_restate_service_iff 12 0 attempts

second_attempt_registers : register_restate_service 12 0 attempts ≡ true
unfolding register_restate_service
second_attempt_registers = refl
