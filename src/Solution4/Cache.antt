-- ===== src/Solution4/Cache.antt =====
-- The Redis cache: solutions/4_solution/src/solution4/cache.py. A hash that expires or is evicted
-- is removed by the other requests (`Runtime.others`); the times to live are left out. A value is
-- kept beside the text that renders it.
pub mod Polling
use metered_compute.Base.{
  ℕ, String, Bool, true, false, Option, none, some, List, [], ◌∷◌, ◌==◌, str_eq, if◌then◌else◌,
}
use metered_compute.Exec.{ok}
use metered_compute.Solution4.World.{
  Task, User, AuthPayload, Payload, World, Runtime, Action, await,
}

-- `HGETALL` of a key
unfoldable pub lookup {ℓ κ} : {K : Type ℓ} {V : Type κ} → (K → Bool) → List (K × V) → Option V
lookup p [] = none
lookup p ((k, v) ∷ m) = if p k then some v else lookup p m

-- `DEL` of a key
pub remove {ℓ κ} : {K : Type ℓ} {V : Type κ} → (K → Bool) → List (K × V) → List (K × V)
remove p [] = []
remove p ((k, v) ∷ m) = let rest = remove p m in if p k then rest else (k, v) ∷ rest

-- A field that is written replaces the old one; the others stay.
pub over {ℓ} : {A : Type ℓ} → Option A → Option A → Option A
over (some a) old = some a
over none old = old

unfoldable pub over_payload : Payload → Option Payload → Payload
unfolding over
over_payload new none = new
over_payload new (some old) = record {
  task_id = over new.task_id old.task_id;
  user_id = over new.user_id old.user_id;
  status = over new.status old.status;
  x = over new.x old.x;
  y = over new.y old.y;
  result = over new.result old.result;
  cost = over new.cost old.cost;
  tb_transfer_id = over new.tb_transfer_id old.tb_transfer_id;
  idempotency_key = over new.idempotency_key old.idempotency_key;
}

pub over_auth : AuthPayload → Option AuthPayload → AuthPayload
unfolding over
over_auth new none = new
over_auth new (some old) = record {
  user_id = over new.user_id old.user_id;
  name = over new.name old.name;
  role = over new.role old.role;
}

-- `HSET` of the hash of a task
pub hset_task : ℕ → Payload → List (ℕ × Payload) → List (ℕ × Payload)
unfolding over_payload lookup remove
hset_task k p m = (k, over_payload p (lookup (λ j. j == k) m)) ∷ remove (λ j. j == k) m

hset_auth : String → AuthPayload → List (String × AuthPayload) → List (String × AuthPayload)
unfolding over_auth lookup remove
hset_auth k p m = (k, over_auth p (lookup (λ j. str_eq j k) m)) ∷ remove (λ j. str_eq j k) m

-- A row as a payload: a column that is `NULL` has no field.
unfoldable pub normalize_task_payload : Task → Payload
normalize_task_payload t = record {
  task_id = some t.task_id;
  user_id = some t.user_id;
  status = some t.status;
  x = some t.x;
  y = some t.y;
  result = t.result;
  cost = some t.cost;
  tb_transfer_id = some t.tb_transfer_id;
  idempotency_key = t.idempotency_key;
}

module _ ⦃rt : Runtime⦄ where
  unfoldable pub cache_auth : String → User → Action (Unit {0})
  unfolding await hset_auth
  cache_auth api_key user = await λ w.
      let p : AuthPayload = record {
        user_id = some user.user_id;
        name = some user.name;
        role = some user.role;
      } in
      (ok tt, record w { auth_cache = hset_auth api_key p w.auth_cache })

  unfoldable pub get_cached_auth : String → Action (Option AuthPayload)
  unfolding await lookup
  get_cached_auth api_key = await λ w. (ok (lookup (λ j. str_eq j api_key) w.auth_cache), w)

  unfoldable pub cache_task : ℕ → Payload → Action (Unit {0})
  unfolding await hset_task
  cache_task task_id p =
      await λ w. (ok tt, record w { task_cache = hset_task task_id p w.task_cache })

  unfoldable pub get_cached_task : ℕ → Action (Option Payload)
  unfolding await lookup
  get_cached_task task_id = await λ w. (ok (lookup (λ j. j == task_id) w.task_cache), w)

  unfoldable pub invalidate_task : ℕ → Action (Unit {0})
  unfolding await remove
  invalidate_task task_id =
      await λ w. (ok tt, record w { task_cache = remove (λ j. j == task_id) w.task_cache })
