-- ===== src/Solution4/Admin.antt =====
-- Top-ups: `admin_credits` and `_derive_admin_topup_transfer_id` of
-- solutions/4_solution/src/solution4/app.py.
use metered_compute.Base.{ℕ, String, Option, none, some, is_none, not}
use metered_compute.Int.{ℤ}
use metered_compute.Exec.{http_exception, pure, require, ◌>>=◌, ◌>>◌}
use metered_compute.Solution4.World.{Runtime, Action}
use metered_compute.Solution4.Repository.{get_user_by_id, update_user_credits}
use metered_compute.Solution4.Billing.{uuid7, ensure_user_account, topup_credits, get_balance}
use metered_compute.Solution4.Auth.{AuthUser, authenticate, ensure_admin}

pub record AdminCreditsRequest : Type 0 where
  pub user_id : ℕ
  pub amount : ℕ
  pub transfer_id : Option ℕ
  pub idempotency_key : Option String

pub record AdminCreditsResponse : Type 0 where
  pub user_id : ℕ
  pub new_balance : ℤ

module _ ⦃rt : Runtime⦄ where
  from_key : ℕ → Option String → Action ℕ
  from_key admin none = uuid7
  from_key admin (some key) = pure (rt.topup_uuid5 admin key)

  -- `_derive_admin_topup_transfer_id`
  derive_admin_topup_transfer_id : ℕ → Option ℕ → Option String → Action ℕ
  unfolding from_key
  derive_admin_topup_transfer_id admin (some id) key = pure id
  derive_admin_topup_transfer_id admin none key = from_key admin key

  -- What follows the check of the role.
  admin_topup : AuthUser → AdminCreditsRequest → Action AdminCreditsResponse
  unfolding derive_admin_topup_transfer_id
  admin_topup user body = do
    target ← get_user_by_id body.user_id
    require (not (is_none target)) (http_exception 404 "User not found")
    ensure_user_account body.user_id
    id ← derive_admin_topup_transfer_id user.user_id body.transfer_id body.idempotency_key
    done ← topup_credits body.user_id id body.amount
    require done (http_exception 500 "Topup failed")
    balance ← get_balance body.user_id
    update_user_credits body.user_id balance
    pure (record { user_id = body.user_id; new_balance = balance })

  -- `admin_credits`
  unfoldable pub admin_credits : String → AdminCreditsRequest → Action AdminCreditsResponse
  unfolding admin_topup
  admin_credits auth body = do user ← authenticate auth; ensure_admin user; admin_topup user body
