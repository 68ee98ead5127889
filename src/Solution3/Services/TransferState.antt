-- ===== src/Solution3/Services/TransferState.antt =====
-- The state of a pending transfer, as it is read off the transfers that refer to it.
use metered_compute.Base.{ℕ, ◌≡◌, ◌↔◌, true, Bool, List, [], ◌∷◌, inl, inr, Bool-cases, arith}
use metered_compute.TigerBeetle.{Transfer}
use metered_compute.Solution3.Services.{
  pending, posted, voided, any_transfer, pending_transfer_state, posts, voids, reserves,
}

-- One of the transfers meets the test.
pub data Has (p : Transfer → Bool) : List Transfer → Type 0 where
  this : {t : Transfer} {ts : List Transfer} → p t ≡ true → Has p (t ∷ ts)
  further : {t : Transfer} {ts : List Transfer} → Has p ts → Has p (t ∷ ts)

any_transfer-Has : (p : Transfer → Bool) (ts : List Transfer) → any_transfer p ts ≡ true → Has p ts
unfolding any_transfer
any_transfer-Has p [] h = cc
any_transfer-Has p (t ∷ ts) h = elim (Bool-cases (p t)) [
  | inl met ↦ this met
  | inr unmet ↦ further (any_transfer-Has p ts (ground (arith, h, unmet)))
]

Has-any_transfer : (p : Transfer → Bool) (ts : List Transfer) → Has p ts → any_transfer p ts ≡ true
unfolding any_transfer
Has-any_transfer p [] h = elim h [ ]
Has-any_transfer p (t ∷ ts) (this h) = ground arith
Has-any_transfer p (t ∷ ts) (further h) = ground (arith, Has-any_transfer p ts h)

-- The state is posted exactly when one of the transfers posts, whatever else they do; it is voided
-- exactly when one voids and none posts; it is pending exactly when neither is so and one is the
-- reservation itself.
pub pending_transfer_state_iff :
    (key : ℕ) (ts : List Transfer)
    → ((pending_transfer_state key ts ≡ posted) ↔ Has posts ts)
      × ((pending_transfer_state key ts ≡ voided) ↔ (Has voids ts × (¬ Has posts ts)))
      × ((pending_transfer_state key ts ≡ pending)
          ↔ (Has (reserves key) ts × (¬ Has posts ts) × (¬ Has voids ts)))
unfolding pending_transfer_state
pending_transfer_state_iff key ts =
    let posts_to = any_transfer-Has posts ts in
    let posts_from = Has-any_transfer posts ts in
    let voids_to = any_transfer-Has voids ts in
    let voids_from = Has-any_transfer voids ts in
    let reserves_to = any_transfer-Has (reserves key) ts in
    let reserves_from = Has-any_transfer (reserves key) ts in ground arith
