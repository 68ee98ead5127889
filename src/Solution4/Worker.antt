-- ===== src/Solution4/Worker.antt =====
-- The compute worker: solutions/4_solution/src/solution4/workers/compute_worker.py. Times are
-- milliseconds, one argument for each reading of the clock. The digest that `_compute_payload`
-- computes and drops is left out.
pub mod Caching
use metered_compute.Base.{
  ℕ, ◌+◌, ◌*◌, String, Bool, true, false, Option, none, some, List, [], ◌∷◌, ltb, leb, str_eq,
  if◌then◌else◌,
}
use metered_compute.Int.{ℤ, ◌+ℤ◌, ◌*ℤ◌}
use metered_compute.Solution4.Gateway.{ComputeResult}

pub record CachedCompute : Type 0 where
  pub result : ComputeResult
  pub cached_at : ℕ

-- `_cache`, by task id
abbrev pub Cache : Type 0
Cache = List (String × CachedCompute)

abbrev pub cache_ttl_ms : ℕ
cache_ttl_ms = 3600 * 1000

-- `_cache.get(task_id)`
unfoldable pub get : String → Cache → Option CachedCompute
get k [] = none
get k ((j, v) ∷ c) = if str_eq j k then some v else get k c

-- `_cache.pop(task_id, None)`
unfoldable pub pop : String → Cache → Cache
pop k [] = []
pop k ((j, v) ∷ c) = let rest = pop k c in if str_eq j k then rest else (j, v) ∷ rest

-- `_cache[task_id] = …`
unfoldable pub put : String → CachedCompute → Cache → Cache
unfolding pop
put k v c = (k, v) ∷ pop k c

-- `time.time() - cached.cached_at > _CACHE_TTL_SECONDS`
abbrev pub expired : CachedCompute → ℕ → Bool
expired e now = ltb (e.cached_at + cache_ttl_ms) now

unfoldable pub compute_payload : ℤ → ℤ → ComputeResult
compute_payload x y = record { sum = x +ℤ y; product = x *ℤ y }

cached_entry : String → Option CachedCompute → ℕ → Cache → Option ComputeResult × Cache
cached_entry task_id none now c = (none, c)
cached_entry task_id (some e) now c =
    if expired e now then (none, pop task_id c) else (some e.result, c)

unfoldable pub is_cached : String → ℕ → Cache → Option ComputeResult × Cache
unfolding cached_entry get
is_cached task_id now c = cached_entry task_id (get task_id c) now c

store_over : String → ComputeResult → Option CachedCompute → (checked at : ℕ) → Cache → Cache
store_over task_id result none checked at c =
    put task_id (record { result = result; cached_at = at }) c
store_over task_id result (some e) checked at c =
    if expired e checked then put task_id (record { result = result; cached_at = at }) c else c

-- `_store_cache`; it reads the clock at `checked` and at `at`.
unfoldable pub store_cache : String → ComputeResult → (checked at : ℕ) → Cache → Cache
unfolding store_over get
store_cache task_id result checked at c = store_over task_id result (get task_id c) checked at c

-- The label that the request counter is given.
pub data Label : Type 0 where
  invalid cached computed : Label

pub record Response : Type 0 where
  pub status_code : ℕ
  pub result : Option ComputeResult
  pub label : Label

pub record Clock : Type 0 where
  pub looked_up : ℕ
  pub checked : ℕ
  pub stored : ℕ

answer : Option ComputeResult × Cache → String → ℤ → ℤ → Clock → (Cache → Cache) → Response × Cache
unfolding store_cache compute_payload
answer (some r, c) task_id x y t others =
    (record { status_code = 200; result = some r; label = cached }, c)
answer (none, c) task_id x y t others =
    let r = compute_payload x y in
    (
      record { status_code = 200; result = some r; label = computed },
      store_cache task_id r t.checked t.stored (others c),
    )

-- `POST /compute`. `others` is what other requests do to the cache during the 0.5 s of work.
unfoldable pub compute : String → ℤ → ℤ → Clock → (Cache → Cache) → Cache → Response × Cache
unfolding answer is_cached
compute task_id x y t others c =
    if str_eq task_id ""
    then (record { status_code = 422; result = none; label = invalid }, c)
    else answer (is_cached task_id t.looked_up c) task_id x y t others
