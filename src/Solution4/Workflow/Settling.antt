-- ===== src/Solution4/Workflow/Settling.antt =====
-- Posting and voiding the transfer of a task.
use metered_compute.Base.{
  ℕ, ◌+◌, ◌⊎◌, ◌≤◌, ◌≡◌, ◌≢◌, refl, true, false, [], arith, inl, inr, Bool-cases, length-zero,
  is_empty,
}
use metered_compute.Exec.{ok, ◌>>=◌}
use metered_compute.Exec.Ends.{Ends}
use metered_compute.TigerBeetle.{
  TransferFlags, Transfer, Phase, pending, posted, voided, IsDocumented, errors, after,
}
use metered_compute.Solution4.World.{Status, Runtime, State}
use metered_compute.Solution4.Billing.{settling, capture_credits, release_credits}
use metered_compute.Solution4.Workflow.{Request}
use metered_compute.Solution4.Workflow.Facts.{At, Distinct}

module _ ⦃rt : Runtime⦄ (doc : IsDocumented rt.tb) (r : Request) (distinct : Distinct rt) where
  -- The ids that come after the accepted one stay unused.
  fresh_after :
      (t : Transfer) (l : rt.tb.Ledger) (n : ℕ)
      → t.id ≡ rt.uuid7 n
      → errors rt.tb t l ≡ []
      → ((k : ℕ) → n ≤ k → doc.used l (rt.uuid7 k) ≡ false)
      → (k : ℕ) → n + 1 ≤ k
      → doc.used (after rt.tb t l) (rt.uuid7 k) ≡ false
  fresh_after t l n i e h k le =
      ground (arith, doc.accepted_used t l (rt.uuid7 k) e, h k, distinct n k)

  -- A transfer that settles a pending one with the next generated id is accepted.
  accepts :
      (flags : TransferFlags) (s : Status) (w : State)
      → (flags ≡ TransferFlags.post_pending_transfer)
        ⊎ (flags ≡ TransferFlags.void_pending_transfer)
      → At doc r s pending w
      → errors rt.tb (settling flags (rt.uuid7 w.uuids) r.tb_transfer_id) w.ledger ≡ []
  accepts flags s w f h =
      doc.settles (settling flags (rt.uuid7 w.uuids) r.tb_transfer_id) w.ledger f (refl, refl, refl)
        (h.fresh w.uuids (omega arith)) h.phase h.book

  pub capture_credits-At :
      (s : Status)
      → Ends (At doc r s pending) (capture_credits r.tb_transfer_id) (ok true) (At doc r s posted)
  unfolding capture_credits ◌>>=◌
  capture_credits-At s = record {
    at = λ w h.
        let t = settling TransferFlags.post_pending_transfer (rt.uuid7 w.uuids) r.tb_transfer_id in
        let e = accepts TransferFlags.post_pending_transfer s w (inl refl) h in
        let q = doc.posted_phase t w.ledger r.tb_transfer_id refl e in
        (
          rw e,
          rw e (record {
            keyed = h.keyed;
            row = h.row;
            phase = ground (arith, q.0);
            book = ground (arith, q.1, h.book);
            fresh = fresh_after t w.ledger w.uuids refl e h.fresh;
          }),
        );
  }

  pub release_credits-At :
      (s : Status)
      → Ends (At doc r s pending) (release_credits r.tb_transfer_id) (ok true) (At doc r s voided)
  unfolding release_credits ◌>>=◌
  release_credits-At s = record {
    at = λ w h.
        let t = settling TransferFlags.void_pending_transfer (rt.uuid7 w.uuids) r.tb_transfer_id in
        let e = accepts TransferFlags.void_pending_transfer s w (inr refl) h in
        let q = doc.voided_phase t w.ledger r.tb_transfer_id refl e in
        (
          rw e,
          rw e (record {
            keyed = h.keyed;
            row = h.row;
            phase = ground (arith, q.0);
            book = ground (arith, q.1, h.book);
            fresh = fresh_after t w.ledger w.uuids refl e h.fresh;
          }),
        );
  }

  -- A settled transfer is not settled again.
  refuses :
      (t : Transfer) (l : rt.tb.Ledger) (e : errors rt.tb t l ≢ [])
      → is_empty (errors rt.tb t l) ≡ false
  refuses t l e = elim (Bool-cases (is_empty (errors rt.tb t l))) [
    | inl x ↦ absurd (e (length-zero _ x))
    | inr x ↦ x
  ]

  pub capture_credits-At_settled :
      (s : Status) (p : Phase)
      → p ≢ pending
      → Ends (At doc r s p) (capture_credits r.tb_transfer_id) (ok false) (At doc r s p)
  unfolding capture_credits ◌>>=◌
  capture_credits-At_settled s p ne = record {
    at = λ w h.
        let t = settling TransferFlags.post_pending_transfer (rt.uuid7 w.uuids) r.tb_transfer_id in
        let e : errors rt.tb t w.ledger ≢ [] =
          λ x. ne (cc (doc.post_needs_pending t w.ledger refl x, h.phase)) in
        let same = doc.refused_same t w.ledger e in
        let b = refuses t w.ledger e in
        (
          rw b,
          rw b (record {
            keyed = h.keyed;
            row = h.row;
            phase = rw same h.phase;
            book = rw same h.book;
            fresh = λ k le. rw same (h.fresh k (omega arith));
          }),
        );
  }

  pub release_credits-At_settled :
      (s : Status) (p : Phase)
      → p ≢ pending
      → Ends (At doc r s p) (release_credits r.tb_transfer_id) (ok false) (At doc r s p)
  unfolding release_credits ◌>>=◌
  release_credits-At_settled s p ne = record {
    at = λ w h.
        let t = settling TransferFlags.void_pending_transfer (rt.uuid7 w.uuids) r.tb_transfer_id in
        let e : errors rt.tb t w.ledger ≢ [] =
          λ x. ne (cc (doc.void_needs_pending t w.ledger refl x, h.phase)) in
        let same = doc.refused_same t w.ledger e in
        let b = refuses t w.ledger e in
        (
          rw b,
          rw b (record {
            keyed = h.keyed;
            row = h.row;
            phase = rw same h.phase;
            book = rw same h.book;
            fresh = λ k le. rw same (h.fresh k (omega arith));
          }),
        );
  }
