-- ===== src/Solution4/Registration.antt =====
-- The registration of the service with Restate: `_is_restate_service_registered`,
-- `_register_restate_service` and `_ensure_restate_registration` of
-- solutions/4_solution/src/solution4/app.py. The lock serialises the slow path, which is one call
-- here.
use metered_compute.Base.{
  ℕ, zero, suc, ◌+◌, String, Bool, true, false, ◌&&◌, ◌||◌, Option, none, some, List, [], ◌∷◌, ◌==◌,
  str_eq, if◌then◌else◌, ◌≡◌, ◌↔◌, inl, inr, Bool-cases, ◌<◌, arith, eq_iff, ◌⊎◌, refl,
}
use metered_compute.Exec.{ok}
use metered_compute.Solution4.World.{Registration, Runtime, Action, disturb}

any_service : List String → Bool
any_service [] = false
any_service (name ∷ rest) = str_eq name "TaskService" || any_service rest

-- Some deployment has a service with the expected name.
unfoldable pub any_deployment : List (List String) → Bool
unfolding any_service
any_deployment [] = false
any_deployment (d ∷ rest) = any_service d || any_deployment rest

-- `_is_restate_service_registered`; absent where the request raises.
is_restate_service_registered : Option (ℕ × List (List String)) → Bool
unfolding any_deployment
is_restate_service_registered none = false
is_restate_service_registered (some (status, deployments)) =
    status == 200 && any_deployment deployments

accepted : ℕ → Bool
accepted status = status == 200 || (status == 201 || status == 409)

-- One attempt; an exception of either request is logged, and the attempt fails.
unfoldable pub registers : Registration → Bool
unfolding is_restate_service_registered accepted
registers r = elim r.posted [
  | none ↦ false
  | some status ↦ accepted status && is_restate_service_registered r.listed
]

-- `_register_restate_service` with the attempts that are left and the number of the next.
unfoldable pub register_restate_service : ℕ → ℕ → (ℕ → Registration) → Bool
unfolding registers
register_restate_service zero i attempt = false
register_restate_service (suc left) i attempt =
    let rest = register_restate_service left (suc i) attempt in
    if registers (attempt i) then true else rest

abbrev pub max_attempts : ℕ
max_attempts = 12

module _ ⦃rt : Runtime⦄ where
  -- `_ensure_restate_registration`, with the fast path of the handlers
  unfoldable pub ensure_restate_registration : Action Bool
  unfolding disturb register_restate_service
  ensure_restate_registration w =
      if w.restate_ready
      then (ok true, w)
      else let ready = register_restate_service max_attempts 0 (rt.registration w.clock) in
        let w' = disturb w in (ok ready, record w' { restate_ready = ready })

-- Some element of a list has the property.
abbrev pub Any {ℓ} : {A : Type ℓ} → (A → Type 0) → List A → Type 0
Any P [] = ⊥
Any P (x ∷ xs) = P x ⊎ Any P xs

-- What an attempt has to bring: Restate accepts the deployment, and lists a deployment with a service
-- of the expected name.
pub record IsRegistered (r : Registration) : Type 0 where
  pub status : ℕ
  pub posted : r.posted ≡ some status
  pub accepts : (status ≡ 200) ⊎ ((status ≡ 201) ⊎ (status ≡ 409))
  pub deployments : List (List String)
  pub listed : r.listed ≡ some (200, deployments)
  pub visible : Any (λ d. Any (λ name. name ≡ "TaskService") d) deployments

any_service_iff :
    (names : List String) → (any_service names ≡ true) ↔ Any (λ name. name ≡ "TaskService") names
unfolding any_service
any_service_iff [] = (λ h. cc, λ h. elim h [ ])
any_service_iff (name ∷ rest) =
    let (to, from) = any_service_iff rest in
    elim (Bool-cases (str_eq name "TaskService")) [
      | inl e ↦ rw e (λ h. inl ((eq_iff name "TaskService").0 e), λ h. refl)
      | inr e ↦ rw e (
        λ h. inr (to h),
        λ h. elim h [
          | inl same ↦ cc ((eq_iff name "TaskService").1 same, e)
          | inr later ↦ from later
        ],
      )
    ]

any_deployment_iff :
    (ds : List (List String))
    → (any_deployment ds ≡ true) ↔ Any (λ d. Any (λ name. name ≡ "TaskService") d) ds
unfolding any_deployment
any_deployment_iff [] = (λ h. cc, λ h. elim h [ ])
any_deployment_iff (d ∷ rest) =
    let (to, from) = any_deployment_iff rest in
    let (to_d, from_d) = any_service_iff d in
    elim (Bool-cases (any_service d)) [
      | inl e ↦ rw e (λ h. inl (to_d e), λ h. refl)
      | inr e ↦
          rw e (
            λ h. inr (to h),
            λ h. elim h [ inl here ↦ cc (from_d here, e) | inr later ↦ from later ],
          )
    ]

accepted_iff : (n : ℕ) → (accepted n ≡ true) ↔ ((n ≡ 200) ⊎ ((n ≡ 201) ⊎ (n ≡ 409)))
unfolding accepted
accepted_iff n = ground arith

registers_iff : (r : Registration) → (registers r ≡ true) ↔ IsRegistered r
unfolding registers is_restate_service_registered
registers_iff r = (to r.posted refl r.listed refl, from)
  where
    to :
        (posted : Option ℕ)
        → r.posted ≡ posted
        → (listed : Option (ℕ × List (List String))) → r.listed ≡ listed
        → registers r ≡ true
        → IsRegistered r
    to none e listed f h = cc
    to (some n) e none f h = ground arith
    to (some n) e (some (code, ds)) f h = record {
      status = n;
      posted = e;
      accepts = (accepted_iff n).0 (ground arith);
      deployments = ds;
      listed = let c : code ≡ 200 = ground arith in rw c at f;
      visible = (any_deployment_iff ds).0 (ground arith);
    }

    from : IsRegistered r → registers r ≡ true
    from h =
        rw
          (
            h.posted,
            h.listed,
            (accepted_iff h.status).1 h.accepts,
            (any_deployment_iff h.deployments).1 h.visible,
          )
          refl

-- Some attempt succeeds.
some_attempt :
    (left i : ℕ) (attempt : ℕ → Registration)
    → (register_restate_service left i attempt ≡ true)
      ↔ ((k : ℕ) × (k < left) × (registers (attempt (i + k)) ≡ true))
unfolding register_restate_service
some_attempt left i attempt = (found left i, λ h. succeeds h.0 left i h.1 h.2)
  where
    first_index : (i : ℕ) → i + 0 ≡ i
    first_index i = omega arith

    next_index : (i k : ℕ) → i + suc k ≡ suc i + k
    next_index i k = omega arith

    found :
        (left i : ℕ)
        → register_restate_service left i attempt ≡ true
        → (k : ℕ) × (k < left) × (registers (attempt (i + k)) ≡ true)
    found zero i h = cc
    found (suc left) i h = elim (Bool-cases (registers (attempt i))) [
      | inl now ↦ (0, omega arith, rw (first_index i) now)
      | inr later ↦
          let (k, lt, e) = found left (suc i) (ground arith) in
          (suc k, omega arith, rw (next_index i k) e)
    ]

    succeeds :
        (k left i : ℕ)
        → k < left
        → registers (attempt (i + k)) ≡ true
        → register_restate_service left i attempt ≡ true
    succeeds k zero i lt h = absurd (omega arith)
    succeeds zero (suc left) i lt h =
        let e = first_index i in let now = rw e at h in ground (arith, now)
    succeeds (suc k) (suc left) i lt h =
        let rest = succeeds k left (suc i) (omega arith) (rw (← next_index i k) h) in
        ground (arith, rest)

-- The registration loop succeeds exactly when in one of its attempts Restate accepts the deployment
-- and lists a deployment with a service named TaskService.
pub register_restate_service_iff :
    (left i : ℕ) (attempt : ℕ → Registration)
    → (register_restate_service left i attempt ≡ true)
      ↔ ((k : ℕ) × (k < left) × IsRegistered (attempt (i + k)))
register_restate_service_iff left i attempt =
    let (to, from) = some_attempt left i attempt in
    (
      λ h. let (k, lt, e) = to h in (k, lt, (registers_iff (attempt (i + k))).0 e),
      λ h. let (k, lt, e) = h in from (k, lt, (registers_iff (attempt (i + k))).1 e),
    )
