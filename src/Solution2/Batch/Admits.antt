-- ===== src/Solution2/Batch/Admits.antt =====
-- The batch admission transaction.
use metered_compute.Base.{
  none, ℕ, ◌≤◌, arith, ◌+◌, ◌-◌, ◌≡◌, ◌⊎◌, refl, inl, inr, true, false, Option, some, List, leb,
  ltb, Bool-cases, Option-cases, is_empty,
}
use metered_compute.Exec.{Error}
use metered_compute.Table.{find}
use metered_compute.Solution2.Constants.{SubscriptionTier}
use metered_compute.Solution2.Database.{
  User, Database, user_key, set_credits, count_active_reservations,
}
use metered_compute.Solution2.Moves.{Agrees, Idle}
use metered_compute.Solution2.Moves.Open.{same}
use metered_compute.Solution2.Admission.{Reason}
use metered_compute.Solution2.Admission.Checks.{paid}
use metered_compute.Solution2.Batch.{
  refused, BatchTaskSpec, BatchAdmissionResult, Ids, length, total_cost_of, create_all,
  execute_batch_admission_transaction,
}
use metered_compute.Solution2.Batch.Moves.{Batched, paid-Agrees, paid_found}
use metered_compute.Solution2.Batch.Loop.{
  OrFails, then_pure, Fails, CreatesAll, CreatesAll-Inserted, create_all-CreatesAll,
}

-- Why a batch is refused
abbrev pub Refusal :
    (u max_concurrent base : ℕ) → List BatchTaskSpec → Database → BatchAdmissionResult → Type 0
Refusal u max_concurrent base tasks db d =
    ((d ≡ refused Reason.error) × ((is_empty tasks ≡ true) ⊎ (find user_key u db.users ≡ none)))
    ⊎ (((d ≡ refused Reason.concurrency)
          × (ltb max_concurrent (count_active_reservations u db + length tasks) ≡ true))
        ⊎ ((user : User) × ((d ≡ refused Reason.insufficient)
              × ((find user_key u db.users ≡ some user)
                  × (leb (total_cost_of base tasks) user.credits ≡ false)))))

-- All tasks are admitted: the user has room for them and pays for them, and each of them is created.
pub record Accepts (ids : Ids) (u : ℕ) (tier : SubscriptionTier) (base : ℕ) (ttl : Option ℕ)
    (max_concurrent : ℕ) (tasks : List BatchTaskSpec) (db : Database) (d : BatchAdmissionResult)
    (s : Database) : Type 0 where
  pub ok : d.ok ≡ true
  pub reason : d.reason ≡ Reason.admitted
  pub total_cost : d.total_cost ≡ total_cost_of base tasks
  pub room : count_active_reservations u db + length tasks ≤ max_concurrent
  pub batched : Batched u (total_cost_of base tasks) db s
  pub created :
      CreatesAll ids u tier base ttl 0 tasks d.task_ids
        (paid (total_cost_of base tasks) batched.user db)
        s

-- What a committed batch admission does: it admits all its tasks, or none, and says why.
abbrev pub AllOrNone :
    Ids
    → (u : ℕ) → SubscriptionTier
    → (base : ℕ) → Option ℕ
    → (max_concurrent : ℕ) → List BatchTaskSpec
    → Database
    → BatchAdmissionResult
    → Database
    → Type 0
AllOrNone ids u tier base ttl max_concurrent tasks db d s =
    Accepts ids u tier base ttl max_concurrent tasks db d s
    ⊎ (Refusal u max_concurrent base tasks db d × Idle db s)

-- The user has paid, and then an insertion fails.
abbrev pub PaidFails :
    Ids
    → (u : ℕ) → SubscriptionTier
    → (base : ℕ) → Option ℕ
    → List BatchTaskSpec
    → Database
    → Error
    → Type 0
PaidFails ids u tier base ttl tasks db x =
    (user : User) × ((find user_key u db.users ≡ some user)
      × Fails ids u tier base ttl (paid (total_cost_of base tasks) user db) x)

abbrev made : ℕ → List ℕ → BatchAdmissionResult
made n out = record { ok = true; reason = Reason.admitted; task_ids = out; total_cost = n }

pub execute_batch_admission-AllOrNone :
    (ids : Ids) (u : ℕ) (tier : SubscriptionTier) (base : ℕ) (ttl : Option ℕ) (max_concurrent : ℕ)
    (tasks : List BatchTaskSpec) (db : Database)
    → Agrees db
    → OrFails
        (AllOrNone ids u tier base ttl max_concurrent tasks db)
        (PaidFails ids u tier base ttl tasks db)
        (execute_batch_admission_transaction ids u tier base ttl max_concurrent tasks db)
unfolding execute_batch_admission_transaction
execute_batch_admission-AllOrNone ids u tier base ttl mx tasks db good =
    let n = total_cost_of base tasks in
    elim (Bool-cases (is_empty tasks)) [
      | inl e ↦ rw e (inr (inl (refl, inl e), same db _ refl refl refl))
      | inr some_task ↦ elim (Option-cases (find user_key u db.users)) [
        | inl e ↦ rw (some_task, e) (inr (inl (refl, inr e), same db _ refl refl refl))
        | inr (user, found) ↦
            elim (Bool-cases (ltb mx (count_active_reservations u db + length tasks))) [
              | inl full ↦
                  rw (some_task, found, full)
                    (inr (inr (inl (refl, full)), same db _ refl refl refl))
              | inr room ↦ elim (Bool-cases (leb n user.credits)) [
                | inr poor ↦
                    rw (some_task, found, room)
                      (rw (found, poor)
                        (inr (inr (inr (user, (refl, (found, poor)))), same db _ refl refl refl)))
                | inl rich ↦
                    let after = set_credits (user.credits - n) user in
                    let all =
                      create_all-CreatesAll ids u tier base ttl 0 tasks (paid n user db) after
                        (paid-Agrees n user db good) (paid_found u n user db found) in
                    rw (some_task, found, room)
                      (rw (found, rich)
                        (then_pure
                          (λ out s. CreatesAll ids u tier base ttl 0 tasks out (paid n user db) s)
                          (AllOrNone ids u tier base ttl mx tasks db)
                          (Fails ids u tier base ttl (paid n user db))
                          (PaidFails ids u tier base ttl tasks db) (λ out. made n out)
                          (create_all ids u tier base ttl 0 tasks (paid n user db)) all
                          (λ out s h. inl (record {
                            ok = refl;
                            reason = refl;
                            total_cost = refl;
                            room = ground arith;
                            batched = record {
                              user = user;
                              found = found;
                              affordable = rich;
                              inserted =
                                  CreatesAll-Inserted ids u tier base ttl 0 tasks out
                                    (paid n user db) s h;
                            };
                            created = h;
                          }))
                          (λ x h. (user, (found, h)))))
              ]
            ]
      ]
    ]
