-- ===== src/Solution2/Reachable/Ledger.antt =====
-- Consistency and the accounts over every order of the transactions.
use metered_compute.Base.{
  none, some, arith, ◌+◌, Option, List, ℕ, ◌≡◌, refl, Bool, true, false, ◌⊎◌, inl, inr, String,
}
use metered_compute.Exec.{ok}
use metered_compute.Solution2.Constants.{SubscriptionTier, TaskStatus, cancelled, failed, timeout}
use metered_compute.Solution2.Database.{Database}
use metered_compute.Solution2.Moves.{
  Agrees, Captures, Refunds, Move, idle, admit, capture, refund, EndsOr,
}
use metered_compute.Solution2.Moves.Consistency.{Move-Agrees}
use metered_compute.Solution2.Moves.Account.{account, worth, Move-Step}
use metered_compute.Int.{ℤ, pos_part, neg_part}
use metered_compute.Solution2.Moves.Adjust.{
  Adjusts, Entry, adjustment, Adjusts-Agrees, Adjusts-Adds, delta_of, Entry-worth,
}
use metered_compute.Solution2.Admin.Moves.{adjust_credits-moves}
use metered_compute.Solution2.Admission.{AdmissionDecision}
use metered_compute.Solution2.Admission.Moves.{
  Admitted, Exists, Malformed, admission-moves, sync_admission-moves,
}
use metered_compute.Solution2.Worker.Moves.{
  persist_success-moves, persist_failure-moves, update_task_command_running-moves,
  set_running_state-moves,
}
use metered_compute.Solution2.Watchdog.Moves.{expire_reservation-Commits}
use metered_compute.Solution2.Cancel.{CancelResult}
use metered_compute.Solution2.Cancel.Moves.{Cancels, apply_cancel_transaction-moves}
use metered_compute.Solution2.Sync.Moves.{finalize_sync_success-moves, finalize_sync_failure-moves}
use metered_compute.Solution2.Batch.{Ids, BatchTaskSpec, BatchAdmissionResult, total_cost_of}
use metered_compute.Solution2.Batch.Moves.{Batched, Batched-Agrees, Batched-Step}
use metered_compute.Solution2.Batch.Admits.{AllOrNone, execute_batch_admission-AllOrNone}
use metered_compute.Solution2.Projector.Last.{persist_projection-Idle}
use metered_compute.Solution2.Reachable.{Transaction, Reach, here, later}

capture_or_idle : (k : ℕ) (db s : Database) (b : Bool) → EndsOr (Captures k db) db b s → Move db s
capture_or_idle k db s true m = capture k m
capture_or_idle k db s false m = idle m

refund_or_idle :
    (k : ℕ) (status : TaskStatus) (db s : Database) (b : Bool)
    → EndsOr (Refunds k status db) db b s
    → Move db s
refund_or_idle k status db s true m = refund k status m
refund_or_idle k status db s false m = idle m

admission :
    (u t c mx : ℕ) (key : String) (db s : Database) (F : Type 0) (d : AdmissionDecision)
    → Admitted u t c mx key db F (ok (d, s))
    → Move db s
admission u t c mx key db s F d (inl (h, (room, (cmd, (r, (m, _)))))) = admit cmd r m
admission u t c mx key db s F d (inr (h, i)) = idle i

cancellation : (k : ℕ) (db s : Database) (r : CancelResult) → Cancels k db (ok (r, s)) → Move db s
cancellation k db s r (inl (m, e)) = refund k cancelled m
cancellation k db s r (inr (i, e)) = idle i

-- The user whom a transaction of an administrator adjusts, and by what
abbrev pub grant : {db s : Database} → Transaction db s → Option (ℕ × ℤ)
grant (Transaction.adjust key delta reason (some a) s e) = some (a.0, delta)
grant _ = none

-- A move, or a batch of a user for its cost, or an adjustment
abbrev Effect : Option (ℕ × ℤ) → Database → Database → Type 0
Effect none db s = Move db s ⊎ ((u : ℕ) × ((n : ℕ) × Batched u n db s))
Effect (some (u, delta)) db s = Adjusts u delta db s

batch :
    (ids : Ids) (u : ℕ) (tier : SubscriptionTier) (base : ℕ) (ttl : Option ℕ) (mx : ℕ)
    (tasks : List BatchTaskSpec) (db s : Database) (d : BatchAdmissionResult)
    → AllOrNone ids u tier base ttl mx tasks db d s
    → Effect none db s
batch ids u tier base ttl mx tasks db s d (inl a) = inr (u, (total_cost_of base tasks, a.batched))
batch ids u tier base ttl mx tasks db s d (inr (_, i)) = inl (idle i)

-- Every transaction that commits is a move, a batch or an adjustment.
Transaction-Effect : (db s : Database) → Agrees db → (x : Transaction db s) → Effect (grant x) db s
Transaction-Effect db s good (Transaction.submit clock u t c key mx payload mode queue ttl d _ e) =
    inl (
      admission u t c mx key db s (Exists t db ⊎ Malformed payload mode queue) d
        (rw e at (admission-moves clock u t c key mx db good payload mode queue ttl)))
Transaction-Effect db s good
      (Transaction.submit_sync clock u t c key mx tier x y m callback ttl d _ e) =
    inl (
      admission u t c mx key db s (Exists t db) d
        (rw e at (sync_admission-moves clock u t c key mx db good tier x y m callback ttl)))
Transaction-Effect db s good (Transaction.run k) = inl (update_task_command_running-moves k db)
Transaction-Effect db s good (Transaction.take command) = inl (set_running_state-moves command db)
Transaction-Effect db s good (Transaction.succeed command b _ e) =
    inl (capture_or_idle command.task_id db s b (rw e at (persist_success-moves command db good)))
Transaction-Effect db s good (Transaction.fail command b _ e) =
    inl (
      refund_or_idle command.task_id failed db s b
        (rw e at (persist_failure-moves command db good)))
Transaction-Effect db s good (Transaction.expire k r out _ found e) =
    inl
      (refund_or_idle k timeout db s out.0 (rw e at (expire_reservation-Commits k db good r found)))
Transaction-Effect db s good (Transaction.cancel k queue r _ e) =
    inl (cancellation k db s r (rw e at (apply_cancel_transaction-moves k queue db good)))
Transaction-Effect db s good (Transaction.succeed_sync k u tier m queue result ms b _ e) = inl (
    capture_or_idle k db s b
      (rw e at (finalize_sync_success-moves k u tier m queue db good result ms)))
Transaction-Effect db s good (Transaction.fail_sync k u tier m queue status message b _ h e) = inl (
    refund_or_idle k status db s b
      (rw e at (finalize_sync_failure-moves k u tier m queue db good status h message)))
Transaction-Effect db s good (Transaction.project event out _ e) =
    inl (idle (rw e at (persist_projection-Idle event db)))
Transaction-Effect db s good (Transaction.adjust key delta reason (some a) _ e) =
    rw e at (adjust_credits-moves key delta reason db)
Transaction-Effect db s good (Transaction.adjust key delta reason none _ e) =
    inl (idle (rw e at (adjust_credits-moves key delta reason db)))
Transaction-Effect db s good Transaction.tick =
    inl (idle (record { users = refl; commands = refl; reservations = refl }))
Transaction-Effect db s good (Transaction.submit_batch ids u tier base ttl mx tasks d _ e) =
    batch ids u tier base ttl mx tasks db s d
      (rw e at (execute_batch_admission-AllOrNone ids u tier base ttl mx tasks db good))

Effect-Agrees : (g : Option (ℕ × ℤ)) (db s : Database) → Agrees db → Effect g db s → Agrees s
Effect-Agrees none db s good (inl m) = Move-Agrees db s good m
Effect-Agrees none db s good (inr (u, (n, b))) = Batched-Agrees u n db s good b
Effect-Agrees (some (u, delta)) db s good m = Adjusts-Agrees u delta db s good m

Effect-Entry :
    (w : ℕ) (g : Option (ℕ × ℤ)) (db s : Database)
    → Effect g db s
    → Entry (adjustment w g) (account w db) (account w s)
Effect-Entry w none db s (inl m) = Move-Step w db s m
Effect-Entry w none db s (inr (u, (n, b))) = Batched-Step w u n db s b
Effect-Entry w (some (u, delta)) db s m = Adjusts-Adds w u delta db s m

-- From a consistent database, every order of transactions leaves it consistent: a task and its
-- reservation are of one user and one amount, an open task's reservation is held, a completed one's is
-- captured, and a failed, cancelled or timed out one's is released.
pub Reach-Agrees : (db s : Database) → Agrees db → Reach db s → Agrees s
Reach-Agrees db s good here = good
Reach-Agrees db s good (later {s = t} p x) =
    let g = Reach-Agrees db t good p in Effect-Agrees (grant x) t s g (Transaction-Effect t s g x)

pub Transaction-Entry :
    (w : ℕ) (db s : Database)
    → Agrees db
    → (x : Transaction db s) → Entry (adjustment w (grant x)) (account w db) (account w s)
Transaction-Entry w db s good x = Effect-Entry w (grant x) db s (Transaction-Effect db s good x)

-- What the administrators gave to a user, and took from them, in the transactions so far
abbrev pub given : (w : ℕ) → {db s : Database} → Reach db s → ℕ
given w here = 0
given w (later p x) = given w p + pos_part (delta_of (adjustment w (grant x)))

abbrev pub taken : (w : ℕ) → {db s : Database} → Reach db s → ℕ
taken w here = 0
taken w (later p x) = taken w p + neg_part (delta_of (adjustment w (grant x)))

-- From a consistent database, every order of transactions keeps for each user the sum of the credits
-- that are available, held and spent, but for what administrators gave to the user and took from them.
pub Reach-worth :
    (w : ℕ) (db s : Database)
    → Agrees db
    → (p : Reach db s) → worth (account w s) + taken w p ≡ worth (account w db) + given w p
Reach-worth w db s good here = refl
Reach-worth w db s good (later {s = t} p x) =
    let g = Reach-Agrees db t good p in
    let e = Entry-worth (adjustment w (grant x)) _ _ (Transaction-Entry w t s g x) in
    omega (arith, e, Reach-worth w db t good p)
