-- ===== src/TigerBeetle/Simulated.antt =====
-- A ledger that meets `IsDocumented`, for the tests.
use metered_compute.Base.{
  ℕ, ◌-◌, ◌≡◌, refl, ◌≢◌, ◌⊎◌, Bool, true, false, ◌||◌, ◌&&◌, List, [], ◌∷◌, arith, ltb, ◌==◌,
  if◌then◌else◌,
}
use metered_compute.TigerBeetle.{
  TransferFlags, Transfer, CreateTransferResult, TigerBeetle, Phase, absent, pending, posted,
  voided, IsDocumented,
}

-- Accounts have no limit but the one amount that each user was given.
pub record Book : Type 0 where
  pub used : ℕ → Bool
  pub phase : ℕ → Phase
  pub book : ℕ → ℕ × ℕ
  pub limit : ℕ
  pub transfers : List Transfer

is_pending : Phase → Bool
is_pending pending = true
is_pending _ = false

abbrev put {ℓ} : {A : Type ℓ} → ℕ → A → (ℕ → A) → ℕ → A
put k v f q = if k == q then v else f q

record_transfer : Transfer → Book → Book
record_transfer t b = record b { used = λ q. t.id == q || b.used q; transfers = t ∷ b.transfers }

settle : Phase → Transfer → Book → List CreateTransferResult × Book
unfolding record_transfer is_pending
settle p t b =
    if is_pending (b.phase t.pending_id)
      && ((b.book t.pending_id).0 == t.ledger && (b.book t.pending_id).1 == t.code)
    then ([], record_transfer t (record b { phase = put t.pending_id p b.phase }))
    else (CreateTransferResult.refused 1 ∷ [], b)

reserve : Transfer → Book → List CreateTransferResult × Book
unfolding record_transfer
reserve t b = if ltb b.limit t.amount then (CreateTransferResult.exceeds_credits ∷ [], b) else (
  [],
  record_transfer t (record b {
    phase = put t.id pending b.phase;
    book = put t.id (t.ledger, t.code) b.book;
    limit = b.limit - t.amount;
  }),
)

by_flags : TransferFlags → Transfer → Book → List CreateTransferResult × Book
unfolding settle reserve
by_flags TransferFlags.none t b = ([], record_transfer t b)
by_flags TransferFlags.pending t b = reserve t b
by_flags TransferFlags.post_pending_transfer t b = settle posted t b
by_flags TransferFlags.void_pending_transfer t b = settle voided t b

unfoldable pub create : List Transfer → Book → List CreateTransferResult × Book
unfolding by_flags
create (t ∷ []) b =
    if b.used t.id then (CreateTransferResult.already_exists ∷ [], b) else by_flags t.flags t b
create _ b = ([], b)

abbrev pub simulated : TigerBeetle
simulated = record {
  Ledger = Book;
  create_accounts = λ accounts b. ([], b);
  create_transfers = create;
  lookup_accounts = λ ids b. [];
  query_transfers = λ data' b. b.transfers;
}

abbrev pub empty_book : Book
empty_book = record {
  used = λ q. false;
  phase = λ q. absent;
  book = λ q. (0, 0);
  limit = 1000;
  transfers = [];
}

abbrev errors : Transfer → Book → List CreateTransferResult
errors t b = (create (t ∷ []) b).0

abbrev after : Transfer → Book → Book
after t b = (create (t ∷ []) b).1

pub refused_same : (t : Transfer) (b : Book) → errors t b ≢ [] → after t b ≡ b
unfolding create
refused_same t b h = ground arith

pub accepted_used :
    (t : Transfer) (b : Book) (q : ℕ)
    → errors t b ≡ []
    → (after t b).used q ≡ (t.id == q || b.used q)
unfolding create
accepted_used t b q h = ground arith

pub accepted_fresh : (t : Transfer) (b : Book) → errors t b ≡ [] → b.used t.id ≡ false
unfolding create
accepted_fresh t b h = ground arith

pub reserved_phase :
    (t : Transfer) (b : Book) (q : ℕ)
    → t.flags ≡ TransferFlags.pending
    → errors t b ≡ []
    → ((after t b).phase q ≡ (if t.id == q then pending else b.phase q))
      × ((after t b).book q ≡ (if t.id == q then (t.ledger, t.code) else b.book q))
unfolding create
reserved_phase t b q f h = ground arith

pub post_needs_pending :
    (t : Transfer) (b : Book)
    → t.flags ≡ TransferFlags.post_pending_transfer
    → errors t b ≡ []
    → b.phase t.pending_id ≡ pending
unfolding create
post_needs_pending t b f h = ground arith

pub posted_phase :
    (t : Transfer) (b : Book) (q : ℕ)
    → t.flags ≡ TransferFlags.post_pending_transfer
    → errors t b ≡ []
    → ((after t b).phase q ≡ (if t.pending_id == q then posted else b.phase q))
      × ((after t b).book q ≡ b.book q)
unfolding create
posted_phase t b q f h = ground arith

pub void_needs_pending :
    (t : Transfer) (b : Book)
    → t.flags ≡ TransferFlags.void_pending_transfer
    → errors t b ≡ []
    → b.phase t.pending_id ≡ pending
unfolding create
void_needs_pending t b f h = ground arith

pub voided_phase :
    (t : Transfer) (b : Book) (q : ℕ)
    → t.flags ≡ TransferFlags.void_pending_transfer
    → errors t b ≡ []
    → ((after t b).phase q ≡ (if t.pending_id == q then voided else b.phase q))
      × ((after t b).book q ≡ b.book q)
unfolding create
voided_phase t b q f h = ground arith

pub settles :
    (t : Transfer) (b : Book)
    → (t.flags ≡ TransferFlags.post_pending_transfer)
      ⊎ (t.flags ≡ TransferFlags.void_pending_transfer)
    → (t.debit_account_id ≡ 0) × (t.credit_account_id ≡ 0) × (t.amount ≡ 0)
    → b.used t.id ≡ false
    → b.phase t.pending_id ≡ pending
    → b.book t.pending_id ≡ (t.ledger, t.code)
    → errors t b ≡ []
unfolding create
settles t b f z u p k = ground arith

pub direct_phase :
    (t : Transfer) (b : Book) (q : ℕ)
    → t.flags ≡ TransferFlags.none
    → errors t b ≡ []
    → ((after t b).phase q ≡ b.phase q) × ((after t b).book q ≡ b.book q)
unfolding create
direct_phase t b q f h = ground arith

abbrev pub simulated_documented : IsDocumented simulated
simulated_documented = record {
  phase = λ b q. b.phase q;
  used = λ b q. b.used q;
  book = λ b q. b.book q;
  refused_same = refused_same;
  accepted_used = accepted_used;
  accepted_fresh = accepted_fresh;
  reserved_phase = reserved_phase;
  post_needs_pending = post_needs_pending;
  posted_phase = posted_phase;
  void_needs_pending = void_needs_pending;
  voided_phase = voided_phase;
  settles = settles;
  direct_phase = direct_phase;
  accounts_phase = λ accounts b q. (refl, refl, refl);
}
