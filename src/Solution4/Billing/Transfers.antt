-- ===== src/Solution4/Billing/Transfers.antt =====
-- What repeated billing calls do to the ledger.
use metered_compute.Base.{
  ℕ, ap, sym, ◌∙◌, ◌≡◌, ◌≢◌, refl, false, List, [], ◌∷◌, arith, inl, inr, is_empty, Bool-cases,
  length-zero,
}
use metered_compute.Exec.{◌>>=◌}
use metered_compute.TigerBeetle.{Transfer, CreateTransferResult, IsDocumented, errors, after}
use metered_compute.Solution4.World.{Runtime, State}
use metered_compute.Solution4.Billing.{topped_up, topup_transfer, topup_credits}

-- A transfer that is sent again has no effect.
after-after :
    ⦃rt : Runtime⦄ (doc : IsDocumented rt.tb) (t : Transfer) (l : rt.tb.Ledger)
    → after rt.tb t (after rt.tb t l) ≡ after rt.tb t l
after-after ⦃rt⦄ doc t l = elim (Bool-cases (is_empty (errors rt.tb t l))) [
  | inl accepted ↦ doc.refused_same t (after rt.tb t l) (λ e. used_twice e (length-zero _ accepted))
  | inr refused ↦
      let same = doc.refused_same t l (λ e. not_empty e refused) in ap (after rt.tb t) same
]
  where
    used_twice : errors rt.tb t (after rt.tb t l) ≡ [] → errors rt.tb t l ≢ []
    used_twice e first =
        ground (arith, doc.accepted_fresh t (after rt.tb t l) e, doc.accepted_used t l t.id first)

    not_empty : errors rt.tb t l ≡ [] → is_empty (errors rt.tb t l) ≢ false
    not_empty e refused = cc (e, refused)

topped_up-ledger :
    ⦃rt : Runtime⦄ (errors : List CreateTransferResult) (w : State)
    → (topped_up errors w).1.ledger ≡ w.ledger
unfolding topped_up ◌>>=◌
topped_up-ledger [] w = refl
topped_up-ledger (e ∷ errors) w = refl

topup_credits-ledger :
    ⦃rt : Runtime⦄ (user_id transfer_id amount : ℕ) (w : State)
    → (topup_credits user_id transfer_id amount w).1.ledger
      ≡ after rt.tb (topup_transfer user_id transfer_id amount) w.ledger
unfolding topup_credits ◌>>=◌
topup_credits-ledger user_id transfer_id amount w = topped_up-ledger _ _

-- A top-up that is sent again with the same transfer id, as a retry with the same idempotency key
-- is, leaves the ledger as the first one left it.
pub topup_credits-topup_credits :
    ⦃rt : Runtime⦄ (doc : IsDocumented rt.tb) (user_id transfer_id amount : ℕ) (w : State)
    → (topup_credits user_id transfer_id amount
        (topup_credits user_id transfer_id amount w).1).1.ledger
      ≡ (topup_credits user_id transfer_id amount w).1.ledger
topup_credits-topup_credits ⦃rt⦄ doc user_id transfer_id amount w =
    topup_credits-ledger user_id transfer_id amount (topup_credits user_id transfer_id amount w).1
    ∙ ap (after rt.tb (topup_transfer user_id transfer_id amount))
        (topup_credits-ledger user_id transfer_id amount w)
    ∙ after-after doc (topup_transfer user_id transfer_id amount) w.ledger
    ∙ sym (topup_credits-ledger user_id transfer_id amount w)
