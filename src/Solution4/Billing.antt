-- ===== src/Solution4/Billing.antt =====
-- The billing client: solutions/4_solution/src/solution4/billing.py. Its calls do not wait: the
-- client is the synchronous one. What is logged is left out.
pub mod Transfers
use metered_compute.Base.{
  ℕ, ◌+◌, Bool, true, false, Option, none, some, List, [], ◌∷◌, is_empty, if◌then◌else◌,
}
use metered_compute.Int.{ℤ, pos, ◌-ℤ◌}
use metered_compute.Exec.{Exec, ok, pure, modify, ◌>>=◌, ◌>>◌}
use metered_compute.TigerBeetle.{
  TransferFlags, AccountFlags, Transfer, Account, AccountBalance, CreateTransferResult,
}
use metered_compute.Solution4.World.{
  Metric, credit_reserved, credit_captured, credit_released, credit_topup, World, Runtime, Action,
}

abbrev pub task_ledger : ℕ
task_ledger = 1

abbrev pub code_task : ℕ
code_task = 100

abbrev pub code_topup : ℕ
code_topup = 200

-- A transfer that posts or voids a pending one names the accounts and the amount 0.
abbrev pub settling : (flags : TransferFlags) (id pending_id : ℕ) → Transfer
settling flags id pending_id = record {
  id = id;
  debit_account_id = 0;
  credit_account_id = 0;
  amount = 0;
  pending_id = pending_id;
  user_data_128 = 0;
  timeout = 0;
  ledger = task_ledger;
  code = code_task;
  flags = flags;
}

replayed : List CreateTransferResult → Bool
replayed (CreateTransferResult.already_exists ∷ rest) = true
replayed _ = false

balance_of : List AccountBalance → ℤ
balance_of [] = pos 0
balance_of (a ∷ rest) = pos a.credits_posted -ℤ pos a.debits_posted -ℤ pos a.debits_pending

module _ ⦃rt : Runtime⦄ where
  -- `metrics.….inc()`
  unfoldable pub inc : Metric → Action (Unit {0})
  unfolding modify
  inc m = modify λ w. record w { metrics = m ∷ w.metrics }

  -- `uuid6.uuid7()`
  unfoldable pub uuid7 : Action ℕ
  uuid7 w = (ok (rt.uuid7 w.uuids), record w { uuids = w.uuids + 1 })

  -- `self._client.create_transfers([transfer])`
  unfoldable pub create_transfer : Transfer → Action (List CreateTransferResult)
  create_transfer t w =
      let (errors, l) = rt.tb.create_transfers (t ∷ []) w.ledger in
      (ok errors, record w { ledger = l })

  create_accounts : List Account → Action (Unit {0})
  create_accounts accounts =
      modify λ w. record w { ledger = (rt.tb.create_accounts accounts w.ledger).1 }

  -- The errors are only logged.
  unfoldable pub ensure_platform_accounts : Action (Unit {0})
  unfolding create_accounts
  ensure_platform_accounts = create_accounts (
      record {
        id = rt.settings.revenue_id;
        ledger = task_ledger;
        code = 1;
        flags = AccountFlags.none;
      }
      ∷ record {
        id = rt.settings.escrow_id;
        ledger = task_ledger;
        code = 2;
        flags = AccountFlags.none;
      }
      ∷ [])

  unfoldable pub ensure_user_account : ℕ → Action (Unit {0})
  unfolding create_accounts
  ensure_user_account user_id = create_accounts (
      record {
        id = user_id;
        ledger = task_ledger;
        code = 10;
        flags = AccountFlags.debits_must_not_exceed_credits;
      }
      ∷ [])

  -- `if errors: return False`, and else the counter
  unless_errors : Metric → List CreateTransferResult → Action Bool
  unfolding inc
  unless_errors m errors = if is_empty errors then (do inc m; pure true) else pure false

  unfoldable pub reserve_credits : (user_id transfer_id amount : ℕ) → Action Bool
  unfolding create_transfer unless_errors
  reserve_credits user_id transfer_id amount = do
    errors ← create_transfer (record {
      id = transfer_id;
      debit_account_id = user_id;
      credit_account_id = rt.settings.escrow_id;
      amount = amount;
      pending_id = 0;
      user_data_128 = 0;
      timeout = rt.settings.tb_transfer_timeout_secs;
      ledger = task_ledger;
      code = code_task;
      flags = TransferFlags.pending;
    })
    unless_errors credit_reserved errors

  unfoldable pub capture_credits : ℕ → Action Bool
  unfolding uuid7 create_transfer unless_errors
  capture_credits transfer_id = do
    id ← uuid7
    errors ← create_transfer (settling TransferFlags.post_pending_transfer id transfer_id)
    unless_errors credit_captured errors

  unfoldable pub release_credits : ℕ → Action Bool
  unfolding uuid7 create_transfer unless_errors
  release_credits transfer_id = do
    id ← uuid7
    errors ← create_transfer (settling TransferFlags.void_pending_transfer id transfer_id)
    unless_errors credit_released errors

  unfoldable pub topped_up : List CreateTransferResult → Action Bool
  unfolding replayed inc
  topped_up errors =
      if is_empty errors then (do inc credit_topup; pure true) else pure (replayed errors)

  abbrev pub topup_transfer : (user_id transfer_id amount : ℕ) → Transfer
  topup_transfer user_id transfer_id amount = record {
    id = transfer_id;
    debit_account_id = rt.settings.revenue_id;
    credit_account_id = user_id;
    amount = amount;
    pending_id = 0;
    user_data_128 = 0;
    timeout = 0;
    ledger = task_ledger;
    code = code_topup;
    flags = TransferFlags.none;
  }

  -- An `EXISTS` is the replay of a top-up, and a success.
  unfoldable pub topup_credits : (user_id transfer_id amount : ℕ) → Action Bool
  unfolding create_transfer topped_up
  topup_credits user_id transfer_id amount = do
    errors ← create_transfer (topup_transfer user_id transfer_id amount)
    topped_up errors

  unfoldable pub get_balance : ℕ → Action ℤ
  unfolding balance_of
  get_balance user_id w = (ok (balance_of (rt.tb.lookup_accounts (user_id ∷ []) w.ledger)), w)
