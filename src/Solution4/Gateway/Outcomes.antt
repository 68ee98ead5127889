-- ===== src/Solution4/Gateway/Outcomes.antt =====
-- What a compute request returns, and from which attempt.
use metered_compute.Base.{ℕ, zero, suc, ◌+◌, ◌<◌, ◌≡◌, refl, ◌↔◌, arith, ◌∙◌, ◌⊎◌, inl, inr}
use metered_compute.Solution4.Gateway.{
  ComputeResult, Fault, Reply, ok, Verdict, returned, raised, retry, attempt, Network, attempts,
  after_attempt, rounds, request_compute_sync, no_error,
}

-- The attempt is made within the budget and fails in a way that is retried.
abbrev pub Transient : Network → ℕ → ℕ → Type 0
Transient net end_time i =
    (net.now i < end_time) × ((f : Fault) × (attempt (net.exchange i) ≡ retry f))

-- The `k`-th attempt from `i` on is made within the budget, gives `r`, and all before it are
-- transient failures.
pub record FirstSuccess (net : Network) (end_time i k : ℕ) (r : ComputeResult) : Type 0 where
  pub before : (j : ℕ) → j < k → Transient net end_time (i + j)
  pub in_budget : net.now (i + k) < end_time
  pub succeeds : attempt (net.exchange (i + k)) ≡ returned r

module _ (net : Network) (end_time : ℕ) (r : ComputeResult) where
  now_attempt :
      (left i : ℕ) (last : Fault)
      → net.now i < end_time
      → attempt (net.exchange i) ≡ returned r
      → attempts (suc left) i end_time net last ≡ ok r
  unfolding attempts
  now_attempt left i last h e = ground arith

  next_attempt :
      (left i : ℕ) (last : Fault) (t : Transient net end_time i)
      → attempts (suc left) i end_time net last ≡ attempts left (suc i) end_time net t.1.0
  unfolding attempts
  next_attempt left i last t = ground (arith, t.1.1)

  shift : (i k : ℕ) → FirstSuccess net end_time i (suc k) r → FirstSuccess net end_time (suc i) k r
  shift i k h = record {
    before = λ j lt. rw (shift_index j) (h.before (suc j) (omega arith));
    in_budget = rw (shift_index k) h.in_budget;
    succeeds = rw (shift_index k) h.succeeds;
  }
    where
      shift_index : (j : ℕ) → suc i + j ≡ i + suc j
      shift_index j = omega arith

  first_success :
      (k left i : ℕ) (last : Fault)
      → k < left
      → FirstSuccess net end_time i k r
      → attempts left i end_time net last ≡ ok r
  first_success k zero i last lt h = absurd (omega arith)
  first_success zero (suc left) i last lt h =
      let e : i + 0 ≡ i = omega arith in
      now_attempt left i last (rw e at h.in_budget) (rw e at h.succeeds)
  first_success (suc k) (suc left) i last lt h =
      let t : Transient net end_time i =
        let e : i + 0 ≡ i = omega arith in rw e at (h.before 0 (omega arith)) in
      next_attempt left i last t ∙ first_success k left (suc i) t.1.0 (omega arith) (shift i k h)

  EndsRound : (v : Verdict) → (Fault → Reply) → Type 0
  EndsRound v next = (v ≡ returned r) ⊎ ((f : Fault) × (v ≡ retry f) × (next f ≡ ok r))

  -- A verdict after which the loop gives `r` is `r`, or a retry after which it gives `r`.
  verdict_ends :
      (v : Verdict) (next : Fault → Reply) → after_attempt v next ≡ ok r → EndsRound v next
  unfolding after_attempt EndsRound
  verdict_ends (returned x) next e = inl (ground arith)
  verdict_ends (raised f) next e = cc
  verdict_ends (retry f) next e = inr (f, refl, e)

  round_in_budget :
      (left i : ℕ) (last : Fault)
      → attempts (suc left) i end_time net last ≡ ok r
      → net.now i < end_time
  unfolding attempts
  round_in_budget left i last e = ground arith

  round_ends :
      (left i : ℕ) (last : Fault)
      → attempts (suc left) i end_time net last ≡ ok r
      → EndsRound (attempt (net.exchange i)) (attempts left (suc i) end_time net)
  unfolding attempts
  round_ends left i last e = verdict_ends (attempt (net.exchange i)) _ (ground arith)

  unshift :
      (i k : ℕ)
      → Transient net end_time i
      → FirstSuccess net end_time (suc i) k r
      → FirstSuccess net end_time i (suc k) r
  unshift i k t h = record {
    before = earlier;
    in_budget = rw (shift_index k) h.in_budget;
    succeeds = rw (shift_index k) h.succeeds;
  }
    where
      shift_index : (j : ℕ) → i + suc j ≡ suc i + j
      shift_index j = omega arith

      first_index : i + 0 ≡ i
      first_index = omega arith

      earlier : (j : ℕ) → j < suc k → Transient net end_time (i + j)
      earlier zero lt = rw first_index t
      earlier (suc j) lt = rw (shift_index j) (h.before j (omega arith))

  here :
      (i : ℕ)
      → net.now i < end_time
      → attempt (net.exchange i) ≡ returned r
      → FirstSuccess net end_time i 0 r
  here i h e =
      let same : i + 0 ≡ i = omega arith in
      record { before = λ j lt. elim lt [ ]; in_budget = rw same h; succeeds = rw same e }

  success_first :
      (left i : ℕ) (last : Fault)
      → attempts left i end_time net last ≡ ok r
      → (k : ℕ) × (k < left) × FirstSuccess net end_time i k r
  unfolding attempts EndsRound
  success_first zero i last e = cc
  success_first (suc left) i last e = elim (round_ends left i last e) [
    | inl now ↦ (0, omega arith, here i (round_in_budget left i last e) now)
    | inr (f, again, rest) ↦
        let (k, lt, h) = success_first left (suc i) f rest in
        (suc k, omega arith, unshift i k (round_in_budget left i last e, (f, again)) h)
  ]

-- A compute request returns `r` exactly when one of its `max(1, retry_attempts)` attempts gives `r`
-- within the time budget and every attempt before it, within the budget too, failed in a way that
-- is retried.
pub request_compute_sync_iff :
    (net : Network) (timeout_ms retry_attempts : ℕ) (r : ComputeResult)
    → (request_compute_sync net timeout_ms retry_attempts ≡ ok r)
      ↔ ((k : ℕ) × (k < rounds retry_attempts) × FirstSuccess net (net.start + timeout_ms) 0 k r)
unfolding request_compute_sync
request_compute_sync_iff net timeout_ms retry_attempts r = (
  success_first net (net.start + timeout_ms) r (rounds retry_attempts) 0 no_error,
  λ h. first_success net (net.start + timeout_ms) r h.0 (rounds retry_attempts) 0 no_error h.1 h.2,
)
