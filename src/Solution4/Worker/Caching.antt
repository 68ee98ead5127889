-- ===== src/Solution4/Worker/Caching.antt =====
-- The worker's cache: one result for each task within the time to live.
use metered_compute.Base.{
  ℕ, ◌+◌, ◌≤◌, ◌≡◌, ◌≢◌, String, Option, none, some, [], ◌∷◌, arith, str_eq, eq_iff, if◌then◌else◌,
}
use metered_compute.Int.{ℤ}
use metered_compute.Solution4.Gateway.{ComputeResult}
use metered_compute.Solution4.Worker.{
  CachedCompute, Cache, cache_ttl_ms, get, pop, put, compute_payload, is_cached, store_cache, Clock,
  compute, computed, cached,
}

get-pop : (k j : String) (c : Cache) → get j (pop k c) ≡ (if str_eq k j then none else get j c)
unfolding get pop
get-pop k j [] = ground arith
get-pop k j ((i, v) ∷ c) = ground (arith, get-pop k j c, eq_iff i k, eq_iff i j, eq_iff k j)

pub get-put :
    (k j : String) (v : CachedCompute) (c : Cache)
    → get j (put k v c) ≡ (if str_eq k j then some v else get j c)
unfolding get put
get-put k j v c = ground (arith, get-pop k j c)

-- What a request for a task finds at a time: an entry that has not expired.
abbrev pub live : String → ℕ → Cache → Option ComputeResult
live k now c = (is_cached k now c).0

-- The entry of a task whose result was computed and stored is that result, unless a live entry was
-- there first.
pub get-store_cache :
    (k : String) (r : ComputeResult) (checked at : ℕ) (c : Cache)
    → get k c ≡ none
    → get k (store_cache k r checked at c) ≡ some (record { result = r; cached_at = at })
unfolding store_cache
get-store_cache k r checked at c h =
    rw h (ground (arith, get-put k k (record { result = r; cached_at = at }) c, eq_iff k k))

-- A task that the worker has computed is answered from the cache until the entry is older than an
-- hour: a later request for the same task id, with any operands, has the first result, is counted
-- as cached, and leaves the cache alone. No entry was there, and other requests stored none, when
-- the first one ran.
pub compute-compute :
    (k : String) (x y x' y' : ℤ) (t t' : Clock) (others others' : Cache → Cache) (c : Cache)
    → k ≢ ""
    → get k c ≡ none
    → get k (others c) ≡ none
    → t'.looked_up ≤ t.stored + cache_ttl_ms
    → let (first, c') = compute k x y t others c in
      (first ≡ record { status_code = 200; result = some (compute_payload x y); label = computed })
      × (compute k x' y' t' others' c'
          ≡ (record { status_code = 200; result = some (compute_payload x y); label = cached }, c'))
unfolding compute
compute-compute k x y x' y' t t' others others' c named missing missing' fresh = rw missing (
    ground (
      arith,
      eq_iff k "",
      get-store_cache k (compute_payload x y) t.checked t.stored (others c) missing',
    ))
