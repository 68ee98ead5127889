-- ===== src/TigerBeetle.antt =====
-- TigerBeetle, the ledger service that the billing clients call. It is not part of the repository:
-- a client is a parameter, `TigerBeetle`, and `IsDocumented` has what its documentation promises
-- of a call with one transfer, which is the only kind that the code makes.
pub mod Simulated
use metered_compute.Base.{
  ℕ, ◌≡◌, ◌≢◌, ◌⊎◌, Bool, true, false, ◌||◌, List, [], ◌∷◌, ◌==◌, if◌then◌else◌,
}

-- `tb.TransferFlags`; `none` is `TransferFlags(0)`
pub data TransferFlags : Type 0 where
  none pending post_pending_transfer void_pending_transfer : TransferFlags

-- `tb.AccountFlags`
pub data AccountFlags : Type 0 where
  none debits_must_not_exceed_credits : AccountFlags

-- `tb.Transfer`, with the fields that the code sets
pub record Transfer : Type 0 where
  pub id : ℕ
  pub debit_account_id : ℕ
  pub credit_account_id : ℕ
  pub amount : ℕ
  pub pending_id : ℕ
  pub user_data_128 : ℕ
  pub timeout : ℕ
  pub ledger : ℕ
  pub code : ℕ
  pub flags : TransferFlags

-- `tb.Account`, as it is sent
pub record Account : Type 0 where
  pub id : ℕ
  pub ledger : ℕ
  pub code : ℕ
  pub flags : AccountFlags

-- `tb.Account`, as it is looked up
pub record AccountBalance : Type 0 where
  pub credits_posted : ℕ
  pub debits_posted : ℕ
  pub debits_pending : ℕ

pub data CreateTransferResult : Type 0 where
  already_exists exceeds_credits : CreateTransferResult
  refused : ℕ → CreateTransferResult

pub data CreateAccountResult : Type 0 where
  already_exists : CreateAccountResult
  refused : ℕ → CreateAccountResult

pub record TigerBeetle : Type 1 where
  pub Ledger : Type 0
  -- the errors, empty where all is accepted, and the ledger that the call leaves
  pub create_accounts : List Account → Ledger → List CreateAccountResult × Ledger
  pub create_transfers : List Transfer → Ledger → List CreateTransferResult × Ledger
  pub lookup_accounts : List ℕ → Ledger → List AccountBalance
  -- `query_transfers`, by `user_data_128`, in order of creation
  pub query_transfers : ℕ → Ledger → List Transfer

-- where a two-phase transfer stands
pub data Phase : Type 0 where
  absent pending posted voided : Phase

module _ (tb : TigerBeetle) where
  abbrev pub errors : Transfer → tb.Ledger → List CreateTransferResult
  errors t l = (tb.create_transfers (t ∷ []) l).0

  abbrev pub after : Transfer → tb.Ledger → tb.Ledger
  after t l = (tb.create_transfers (t ∷ []) l).1

-- What the documentation of TigerBeetle says of two-phase transfers.
pub record IsDocumented (tb : TigerBeetle) : Type 0 where
  -- how far the two-phase transfer with that id has come
  pub phase : tb.Ledger → ℕ → Phase
  -- a transfer with that id has been accepted
  pub used : tb.Ledger → ℕ → Bool
  -- the ledger and code of the pending transfer with that id
  pub book : tb.Ledger → ℕ → ℕ × ℕ
  -- A transfer that is refused leaves the ledger as it is; that a transient refusal uses up the
  -- transfer's id is left out.
  pub refused_same : (t : Transfer) (l : tb.Ledger) → errors tb t l ≢ [] → after tb t l ≡ l
  -- An accepted transfer takes its id.
  pub accepted_used :
      (t : Transfer) (l : tb.Ledger) (q : ℕ)
      → errors tb t l ≡ []
      → used (after tb t l) q ≡ (t.id == q || used l q)
  -- An id is accepted once.
  pub accepted_fresh : (t : Transfer) (l : tb.Ledger) → errors tb t l ≡ [] → used l t.id ≡ false
  -- A pending transfer that is accepted is pending under its id.
  pub reserved_phase :
      (t : Transfer) (l : tb.Ledger) (q : ℕ)
      → t.flags ≡ pending
      → errors tb t l ≡ []
      → (phase (after tb t l) q ≡ (if t.id == q then pending else phase l q))
        × (book (after tb t l) q ≡ (if t.id == q then (t.ledger, t.code) else book l q))
  -- Only a pending transfer can be posted, which settles it.
  pub post_needs_pending :
      (t : Transfer) (l : tb.Ledger)
      → t.flags ≡ post_pending_transfer
      → errors tb t l ≡ []
      → phase l t.pending_id ≡ pending
  pub posted_phase :
      (t : Transfer) (l : tb.Ledger) (q : ℕ)
      → t.flags ≡ post_pending_transfer
      → errors tb t l ≡ []
      → (phase (after tb t l) q ≡ (if t.pending_id == q then posted else phase l q))
        × (book (after tb t l) q ≡ book l q)
  -- Only a pending transfer can be voided, which settles it.
  pub void_needs_pending :
      (t : Transfer) (l : tb.Ledger)
      → t.flags ≡ void_pending_transfer
      → errors tb t l ≡ []
      → phase l t.pending_id ≡ pending
  pub voided_phase :
      (t : Transfer) (l : tb.Ledger) (q : ℕ)
      → t.flags ≡ void_pending_transfer
      → errors tb t l ≡ []
      → (phase (after tb t l) q ≡ (if t.pending_id == q then voided else phase l q))
        × (book (after tb t l) q ≡ book l q)
  -- A pending transfer of the same ledger and code is settled by a transfer with an unused id that
  -- names no other accounts and amount.
  pub settles :
      (t : Transfer) (l : tb.Ledger)
      → (t.flags ≡ post_pending_transfer) ⊎ (t.flags ≡ void_pending_transfer)
      → (t.debit_account_id ≡ 0) × (t.credit_account_id ≡ 0) × (t.amount ≡ 0)
      → used l t.id ≡ false
      → phase l t.pending_id ≡ pending
      → book l t.pending_id ≡ (t.ledger, t.code)
      → errors tb t l ≡ []
  -- A transfer with no flag settles nothing.
  pub direct_phase :
      (t : Transfer) (l : tb.Ledger) (q : ℕ)
      → t.flags ≡ none
      → errors tb t l ≡ []
      → (phase (after tb t l) q ≡ phase l q) × (book (after tb t l) q ≡ book l q)
  -- Creating accounts touches no transfer.
  pub accounts_phase :
      (accounts : List Account) (l : tb.Ledger) (q : ℕ)
      → (phase (tb.create_accounts accounts l).1 q ≡ phase l q)
        × (book (tb.create_accounts accounts l).1 q ≡ book l q)
        × (used (tb.create_accounts accounts l).1 q ≡ used l q)
