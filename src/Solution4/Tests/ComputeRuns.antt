-- ===== src/Solution4/Tests/ComputeRuns.antt =====
-- Runs of the compute request and of the worker's cache.
use metered_compute.Base.{
  ℕ, zero, suc, ap, ◌≢◌, ◌+◌, ◌≡◌, ◌↔◌, ◌<◌, refl, some, String, [], arith, str_eq,
}
use metered_compute.Int.{pos}
use metered_compute.Solution4.Gateway.{
  ok, Network, Exchange, timed_out, rounds, request_compute_sync,
}
use metered_compute.Solution4.Gateway.Outcomes.{FirstSuccess, request_compute_sync_iff}
use metered_compute.Solution4.Worker.{Clock, cached, computed, compute, compute_payload, get}
use metered_compute.Solution4.Worker.Caching.{compute-compute}
use metered_compute.Solution4.Tests.World4.{result, quick}

-- The first attempt times out, the second is answered.
abbrev flaky : Network
flaky = record { start = 0; now = λ i. i; exchange = exchanges }
  where
    exchanges : ℕ → Exchange
    exchanges zero = timed_out
    exchanges (suc i) = quick

request_compute_sync_iff_example :
    (request_compute_sync flaky 2000 2 ≡ ok result)
    ↔ ((k : ℕ) × (k < rounds 2) × FirstSuccess flaky (0 + 2000) 0 k result)
request_compute_sync_iff_example = request_compute_sync_iff flaky 2000 2 result

flaky_succeeds : request_compute_sync flaky 2000 2 ≡ ok result
unfolding request_compute_sync
flaky_succeeds = refl

abbrev task_name : String
task_name = "t1"

abbrev no_name : String
no_name = ""

abbrev at_start : Clock
at_start = record { looked_up = 0; checked = 500; stored = 500 }

abbrev later : Clock
later = record { looked_up = 60000; checked = 60500; stored = 60500 }

compute-compute_example :
    let (first, c) = compute task_name (pos 2) (pos 3) at_start (λ c. c) [] in
    (first ≡ record {
      status_code = 200;
      result = some (compute_payload (pos 2) (pos 3));
      label = computed;
    })
    × (compute task_name (pos 9) (pos 9) later (λ c. c) c ≡ (
      record { status_code = 200; result = some (compute_payload (pos 2) (pos 3)); label = cached },
      c,
    ))
unfolding get
compute-compute_example =
    compute-compute task_name (pos 2) (pos 3) (pos 9) (pos 9) at_start later (λ c. c) (λ c. c) []
      named refl refl (omega arith)
  where
    named : task_name ≢ no_name
    named e = cc (ap (λ (s : String). str_eq s no_name) e)
