-- ===== src/Solution4/Cache/Polling.antt =====
-- The entry of a task in the cache after a write.
use metered_compute.Base.{ℕ, ◌≡◌, some, List, arith, ◌==◌, true}
use metered_compute.Solution4.World.{Payload}
use metered_compute.Solution4.Cache.{lookup, hset_task, over_payload}

self_eq : (k : ℕ) → (k == k) ≡ true
self_eq k = ground arith

pub lookup-hset_task :
    (k : ℕ) (p : Payload) (m : List (ℕ × Payload))
    → lookup (λ j. j == k) (hset_task k p m) ≡ some (over_payload p (lookup (λ j. j == k) m))
unfolding hset_task lookup
lookup-hset_task k p m = rw (self_eq k)
