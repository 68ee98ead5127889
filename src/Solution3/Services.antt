-- ===== src/Solution3/Services.antt =====
-- The state that the services of Solution 3 share, and the billing client:
-- solutions/3_solution/src/solution3/services/billing.py.
pub mod TransferState
use metered_compute.Base.{
  ℕ, ◌+◌, String, Bool, true, false, ◌&&◌, Option, none, some, List, [], ◌∷◌, ◌==◌, is_empty,
  if◌then◌else◌,
}
use metered_compute.Int.{ℤ, pos, ◌-ℤ◌, ◌+ℤ◌, ltb_ℤ}
use metered_compute.Exec.{Exec, ok, pure, modify, ◌>>=◌, ◌>>◌}
use metered_compute.TigerBeetle.{
  TransferFlags, Transfer, AccountBalance, CreateTransferResult, TigerBeetle,
}
use metered_compute.Solution3.Database.{TaskStatus, BillingState, ModelClass, Database}

-- The hash `task:{task_id}`
pub record CachedState : Type 0 where
  pub user_id : ℕ
  pub status : TaskStatus
  pub billing_state : BillingState
  pub model_class : ModelClass
  pub result : Option ℤ
  pub error : Option String

pub record Services (L : Type 0) : Type 0 where
  pub db : Database
  pub ledger : L
  -- the counters `active:{user_id}`, 0 where the key is missing
  pub active : ℕ → ℤ
  pub cache : ℕ → Option CachedState
  -- how many ids `uuid7` has given
  pub uuids : ℕ
  -- how many times a service has waited for the database
  pub clock : ℕ

pub record Runtime : Type 1 where
  pub tb : TigerBeetle
  pub ledger_id : ℕ
  pub revenue_account_id : ℕ
  pub escrow_account_id : ℕ
  pub pending_timeout_seconds : ℕ
  -- the n-th id of `uuid7`
  pub uuid7 : ℕ → ℕ
  -- what the other services do while one waits for the n-th time
  pub others : ℕ → Services tb.Ledger → Services tb.Ledger

pub data ReserveCreditsResult : Type 0 where
  accepted insufficient_credits error : ReserveCreditsResult

pub data PendingTransferState : Type 0 where
  pending posted voided absent : PendingTransferState

abbrev pub transfer_code_task : ℕ
transfer_code_task = 100

reserve_result : List CreateTransferResult → ReserveCreditsResult
reserve_result [] = accepted
reserve_result (CreateTransferResult.exceeds_credits ∷ rest) = insufficient_credits
reserve_result _ = error

abbrev pub posts : Transfer → Bool
posts t = elim t.flags [ TransferFlags.post_pending_transfer ↦ true | _ ↦ false ]

abbrev pub voids : Transfer → Bool
voids t = elim t.flags [ TransferFlags.void_pending_transfer ↦ true | _ ↦ false ]

abbrev pub reserves : ℕ → Transfer → Bool
reserves key t = t.id == key && (elim t.flags [ TransferFlags.pending ↦ true | _ ↦ false ])

-- `for transfer in transfers: if …: return …`
unfoldable pub any_transfer : (Transfer → Bool) → List Transfer → Bool
any_transfer p [] = false
any_transfer p (t ∷ transfers) = if p t then true else any_transfer p transfers

-- The three loops over the transfers that the query returns.
unfoldable pub pending_transfer_state : (transfer_key : ℕ) → List Transfer → PendingTransferState
unfolding any_transfer
pending_transfer_state key transfers =
    if any_transfer posts transfers
    then posted
    else if any_transfer voids transfers
    then voided
    else if any_transfer (reserves key) transfers
    then pending
    else absent

balance_of : List AccountBalance → ℤ
balance_of [] = pos 0
balance_of (a ∷ rest) = pos a.credits_posted -ℤ pos a.debits_posted -ℤ pos a.debits_pending

abbrev pub given {ℓ} : {A : Type ℓ} → Option A → Option A → Option A
given none old = old
given (some a) old = some a

abbrev pub old_result : Option CachedState → Option ℤ
old_result none = none
old_result (some c) = c.result

abbrev pub old_error : Option CachedState → Option String
old_error none = none
old_error (some c) = c.error

module _ ⦃rt : Runtime⦄ where
  abbrev pub State : Type 0
  State = Services rt.tb.Ledger

  abbrev pub Action : Type 0 → Type 0
  Action A = Exec State A

  -- The other services run, and the wait is counted.
  unfoldable pub disturb : State → State
  disturb s = let s' = rt.others s.clock s in record s' { clock = s.clock + 1 }

  -- `await` of a transaction of the database
  unfoldable pub transact : {A : Type 0} → (Database → A × Database) → Action A
  unfolding disturb
  transact f s = let t = disturb s in let (a, db) = f t.db in (ok a, record t { db = db })

  unfoldable pub uuid7 : Action ℕ
  uuid7 s = (ok (rt.uuid7 s.uuids), record s { uuids = s.uuids + 1 })

  unfoldable pub create_transfer : Transfer → Action (List CreateTransferResult)
  create_transfer t s =
      let (errors, l) = rt.tb.create_transfers (t ∷ []) s.ledger in
      (ok errors, record s { ledger = l })

  -- A transfer that posts or voids a pending one names no accounts and no amount.
  abbrev pub settling : TransferFlags → (id pending_transfer_id : ℕ) → Transfer
  settling flags id pending_transfer_id = record {
    id = id;
    debit_account_id = 0;
    credit_account_id = 0;
    amount = 0;
    pending_id = pending_transfer_id;
    user_data_128 = pending_transfer_id;
    timeout = 0;
    ledger = rt.ledger_id;
    code = transfer_code_task;
    flags = flags;
  }

  unfoldable pub reserve_credits : (user_id transfer_id amount : ℕ) → Action ReserveCreditsResult
  unfolding reserve_result
  reserve_credits user_id transfer_id amount = do
    errors ← create_transfer (record {
      id = transfer_id;
      debit_account_id = user_id;
      credit_account_id = rt.escrow_account_id;
      amount = amount;
      pending_id = 0;
      user_data_128 = transfer_id;
      timeout = rt.pending_timeout_seconds;
      ledger = rt.ledger_id;
      code = transfer_code_task;
      flags = TransferFlags.pending;
    })
    pure (reserve_result errors)

  unfoldable pub post_pending_transfer : ℕ → Action Bool
  unfolding uuid7 create_transfer
  post_pending_transfer pending_transfer_id = do
    id ← uuid7
    errors ← create_transfer (settling TransferFlags.post_pending_transfer id pending_transfer_id)
    pure (is_empty errors)

  unfoldable pub void_pending_transfer : ℕ → Action Bool
  unfolding uuid7 create_transfer
  void_pending_transfer pending_transfer_id = do
    id ← uuid7
    errors ← create_transfer (settling TransferFlags.void_pending_transfer id pending_transfer_id)
    pure (is_empty errors)

  -- The limit of 16 transfers is part of the query, which the client answers.
  unfoldable pub get_pending_transfer_state : ℕ → Action PendingTransferState
  get_pending_transfer_state id s =
      (ok (pending_transfer_state id (rt.tb.query_transfers id s.ledger)), s)

  unfoldable pub get_balance : ℕ → Action ℤ
  unfolding balance_of
  get_balance user_id s = (ok (balance_of (rt.tb.lookup_accounts (user_id ∷ []) s.ledger)), s)

  -- `decr` of the counter
  unfoldable pub decr : ℕ → State → State
  decr user_id s = record s {
    active = λ u. if u == user_id then s.active u -ℤ pos 1 else s.active u;
  }

  -- `hset` with the four fields, and the result and the error where they are given; `expire` is
  -- left out
  unfoldable pub hset_state :
      ℕ
      → (user_id : ℕ) → TaskStatus
      → BillingState
      → ModelClass
      → Option ℤ
      → Option String
      → State
      → State
  hset_state task_id user_id status billing_state model_class result message s = record s {
    cache = λ i.
        if i == task_id
        then some (record {
          user_id = user_id;
          status = status;
          billing_state = billing_state;
          model_class = model_class;
          result = given result (old_result (s.cache i));
          error = given message (old_error (s.cache i));
        })
        else s.cache i;
  }
