-- ===== src/Solution2/Admin.antt =====
-- The adjustment of credits by an administrator: `admin_update_user_credits` of
-- solutions/2_solution/src/solution2/db/repository.py, and the transaction of `admin_credits` in
-- api/admin_routes.py. Absent is the answer 404.
pub mod Moves
use metered_compute.Base.{
  ℕ, suc, ◌+◌, ◌-◌, String, Option, none, some, List, [], ◌∷◌, leb, str_eq, if◌then◌else◌,
}
use metered_compute.Int.{ℤ, pos, negsuc}
use metered_compute.Exec.{check_violation}
use metered_compute.Table.{
  find, replace, Tx, pure, gets, modify, or_return, require_some, ◌>>=◌, ◌>>◌,
}
use metered_compute.Solution2.Database.{
  User, Database, user_key, set_credits, credits_adjusted, create_outbox_event,
  insert_credit_transaction,
}

-- `WHERE api_key=$2`
unfoldable pub by_api_key : String → List User → Option User
by_api_key k [] = none
by_api_key k (u ∷ users) = if str_eq u.api_key k then some u else by_api_key k users

-- `credits+$1`, if the `CHECK` admits it
abbrev pub plus_delta : ℕ → ℤ → Option ℕ
plus_delta n (pos d) = some (n + d)
plus_delta n (negsuc d) = if leb (suc d) n then some (n - suc d) else none

-- The user, the credits before and the credits after
abbrev pub Adjusted : Type 0
Adjusted = ℕ × (ℕ × ℕ)

unfoldable pub admin_update_user_credits :
    (target_api_key : String) (delta : ℤ) (reason : String) → Tx Database (Option Adjusted)
admin_update_user_credits target_api_key delta reason = do
  found ← gets (λ db. by_api_key target_api_key db.users)
  or_return found none (λ target. do
    row ← gets (λ db. find user_key target.user_id db.users)
    or_return row none (λ u.
        require_some (plus_delta u.credits delta) check_violation (λ new_credits. do
          modify (λ db. record db { users = replace user_key (set_credits new_credits u) db.users })
          modify (
              insert_credit_transaction
                record { user_id = u.user_id; task_id = none; delta = delta; reason = reason })
          pure (some (u.user_id, (target.credits, new_credits))))))

unfoldable pub adjust_credits :
    (target_api_key : String) (delta : ℤ) (reason : String) → Tx Database (Option Adjusted)
unfolding admin_update_user_credits
adjust_credits target_api_key delta reason = do
  outcome ← admin_update_user_credits target_api_key delta reason
  or_return outcome none (λ adjusted. do
    modify (create_outbox_event adjusted.0 credits_adjusted "admin.credits.adjusted")
    pure (some adjusted))
