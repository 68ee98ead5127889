-- ===== src/Solution4/Tests/World4.antt =====
-- A small world: one user, one task, the simulated ledger.
use Prim.Native.Nat.{◌+◌}
use metered_compute.Base.{
  Option, ℕ, ◌≡◌, ◌≢◌, refl, true, none, some, List, [], ◌∷◌, arith, ◌==◌, if◌then◌else◌,
}
use metered_compute.Int.{pos}
use metered_compute.TigerBeetle.{Phase, absent}
use metered_compute.TigerBeetle.Simulated.{Book, simulated, simulated_documented}
use metered_compute.Solution4.Gateway.{
  timed_out, ComputeResult, Json, number, object, end, field, Network, Exchange, response, Outcome,
  compute_outcome,
}
use metered_compute.Solution4.World.{
  Status, running, cancel_requested, Task, User, World, Settings, Step, mark_running,
  capture_credits, mark_completed, release_credits_for_cancel, Runtime,
}
use metered_compute.Solution4.Repository.{update_where, matches, write}
use metered_compute.Solution4.Repository.Rows.{status_of, update-hit, update-IsKeyed}
use metered_compute.Solution4.Workflow.{Request}
use metered_compute.Solution4.Workflow.Facts.{At, IsCalm}
use metered_compute.Solution4.Workflow.Steps.{LostOnce, Computes}

abbrev pub settings : Settings
settings = record {
  default_task_cost = 10;
  tb_transfer_timeout_secs = 300;
  revenue_id = 1000001;
  escrow_id = 1000002;
  compute_timeout_ms = 2000;
  compute_retry_attempts = 1;
}

abbrev pub result : ComputeResult
result = record { sum = pos 5; product = pos 6 }

-- The body of the worker's answer to x = 2 and y = 3.
abbrev pub body : Json
body = object (
    field "result" (object (field "sum" (number (pos 5)) (field "product" (number (pos 6)) end)))
      end)

abbrev pub answering : Exchange → Network
answering e = record { start = 0; now = λ i. i; exchange = λ i. e }

abbrev pub quick : Exchange
quick = response 200 (some body)

-- Restate is down where the worker times out.
abbrev pub handover : Exchange → Option ℕ
handover timed_out = none
handover e = some 202

-- A run in which the worker answers `e`, `meanwhile` happens to the tasks, and steps are lost.
abbrev pub runtime : Exchange → (List Task → List Task) → (Step → ℕ) → Runtime
runtime e meanwhile lost = record {
  tb = simulated;
  settings = settings;
  uuid7 = λ n. n + 5000;
  topup_uuid5 = λ admin key. 77;
  others = λ n w. w;
  lost = lost;
  network = λ n. answering e;
  during_compute = λ w. record w { tasks = meanwhile w.tasks };
  ingress = λ n. handover e;
  registration = λ n i. record { posted = some 200; listed = none };
}

abbrev pub calmly : List Task → List Task
calmly tasks = tasks

-- A cancellation of the running task 1.
abbrev pub cancelling : List Task → List Task
cancelling tasks = (update_where (matches 1 running) (write cancel_requested none) tasks).1

abbrev pub never : Step → ℕ
never step = 0

abbrev pub request : Request
request = record { task_id = 1; tb_transfer_id = 7 }

abbrev pub task : Status → Task
task s = record {
  task_id = 1;
  user_id = 3;
  status = s;
  x = pos 2;
  y = pos 3;
  result = none;
  cost = 10;
  tb_transfer_id = 7;
  idempotency_key = none;
}

abbrev pub alice : User
alice = record { user_id = 3; name = "alice"; credits = pos 1000; role = "admin" }

abbrev pub ledger : Phase → Book
ledger p = record {
  used = λ q. q == 7;
  phase = λ q. if q == 7 then p else absent;
  book = λ q. if q == 7 then (1, 100) else (0, 0);
  limit = 990;
  transfers = [];
}

abbrev pub world : Status → Phase → World Book
world s p = record {
  users = alice ∷ [];
  api_keys = [];
  tasks = task s ∷ [];
  auth_cache = [];
  task_cache = [];
  ledger = ledger p;
  metrics = [];
  uuids = 0;
  clock = 0;
  restate_ready = true;
}

module _ (e : Exchange) (meanwhile : List Task → List Task) (lost : Step → ℕ) where
  pub calm : IsCalm ⦃rt = runtime e meanwhile lost⦄ simulated_documented request
  calm = record { distinct = λ j k ne same. ne (omega arith); undisturbed = λ n s p w h. h }

  pub world-At :
      (s : Status) (p : Phase)
      → At ⦃rt = runtime e meanwhile lost⦄ simulated_documented request s p (world s p)
  unfolding status_of
  world-At s p = record {
    keyed = (refl, tt);
    row = refl;
    phase = refl;
    book = refl;
    fresh = λ k le. ground arith;
  }

-- While the worker computes, nothing happens.
pub computes :
    (e : Exchange) (lost : Step → ℕ) (p : Phase) (o : Outcome)
    → compute_outcome (answering e) 2000 1 ≡ o
    → Computes ⦃rt = runtime e calmly lost⦄ simulated_documented request p o running
computes e lost p o h = record {
  answers = λ n. h;
  meanwhile = λ w at_w. record {
    keyed = at_w.keyed;
    row = at_w.row;
    phase = at_w.phase;
    book = at_w.book;
    fresh = at_w.fresh;
  };
}

-- While the worker computes, the task is cancelled.
pub Computes-cancelled :
    (e : Exchange) (lost : Step → ℕ) (p : Phase) (o : Outcome)
    → compute_outcome (answering e) 2000 1 ≡ o
    → Computes ⦃rt = runtime e cancelling lost⦄ simulated_documented request p o cancel_requested
Computes-cancelled e lost p o h = record {
  answers = λ n. h;
  meanwhile = λ w at_w. record {
    keyed = update-IsKeyed 1 cancel_requested running none w.tasks at_w.keyed;
    row = (update-hit 1 cancel_requested running none w.tasks at_w.keyed at_w.row).1;
    phase = at_w.phase;
    book = at_w.book;
    fresh = at_w.fresh;
  };
}

abbrev pub lose_start : Step → ℕ
lose_start mark_running = 1
lose_start _ = 0

pub lose_start-LostOnce :
    (e : Exchange) (f : List Task → List Task) → LostOnce (runtime e f lose_start) mark_running
lose_start-LostOnce e f = (refl, others)
  where
    others : (other : Step) → other ≢ mark_running → lose_start other ≡ 0
    others mark_running ne = absurd (ne refl)
    others _ ne = refl

abbrev pub lose_capture : Step → ℕ
lose_capture capture_credits = 1
lose_capture _ = 0

pub lose_capture-LostOnce :
    (e : Exchange) (f : List Task → List Task) → LostOnce (runtime e f lose_capture) capture_credits
lose_capture-LostOnce e f = (refl, others)
  where
    others : (other : Step) → other ≢ capture_credits → lose_capture other ≡ 0
    others capture_credits ne = absurd (ne refl)
    others _ ne = refl

abbrev pub lose_store : Step → ℕ
lose_store mark_completed = 1
lose_store _ = 0

pub lose_store-LostOnce :
    (e : Exchange) (f : List Task → List Task) → LostOnce (runtime e f lose_store) mark_completed
lose_store-LostOnce e f = (refl, others)
  where
    others : (other : Step) → other ≢ mark_completed → lose_store other ≡ 0
    others mark_completed ne = absurd (ne refl)
    others _ ne = refl

abbrev pub lose_release : Step → ℕ
lose_release release_credits_for_cancel = 1
lose_release _ = 0

pub lose_release-LostOnce :
    (e : Exchange) (f : List Task → List Task)
    → LostOnce (runtime e f lose_release) release_credits_for_cancel
lose_release-LostOnce e f = (refl, others)
  where
    others : (other : Step) → other ≢ release_credits_for_cancel → lose_release other ≡ 0
    others release_credits_for_cancel ne = absurd (ne refl)
    others _ ne = refl
