-- ===== src/Solution4/Gateway.antt =====
-- The client of the compute worker: solutions/4_solution/src/solution4/workers/compute_gateway.py.
-- Times are milliseconds. What the network does is an argument, one exchange for each attempt.
pub mod Outcomes
use metered_compute.Base.{
  ℕ, zero, suc, ◌+◌, ◌-◌, String, Bool, true, false, Option, none, some, ltb, leb, ◌==◌, str_eq,
  if◌then◌else◌,
}
use metered_compute.Int.{ℤ, pos}

-- What `json.loads` returns. A list is not told apart from `null`, as no code looks into either.
mutual
  pub data Json : Type 0 where
    null : Json
    bool : Bool → Json
    number : ℤ → Json
    text : String → Json
    object : Fields → Json

  pub data Fields : Type 0 where
    end : Fields
    field : String → Json → Fields → Fields

-- `payload.get(key)`
unfoldable pub get : Fields → String → Json
get end key = null
get (field k v rest) key = if str_eq k key then v else get rest key

-- `isinstance(value, int)`: Python's `True` and `False` are the integers 1 and 0.
unfoldable pub as_int : Json → Option ℤ
as_int (number n) = some n
as_int (bool true) = some (pos 1)
as_int (bool false) = some (pos 0)
as_int _ = none

pub record ComputeResult : Type 0 where
  pub sum : ℤ
  pub product : ℤ

-- The exceptions of a request. `compute_timeout` is a `ComputeTimeoutError`.
pub data Fault : Type 0 where
  compute_timeout compute_error transport_error json_error no_error : Fault

pub data Reply : Type 0 where
  ok : ComputeResult → Reply
  failed : Fault → Reply

coerced : Option ℤ → Option ℤ → Reply
coerced (some s) (some p) = ok (record { sum = s; product = p })
coerced _ _ = failed compute_error

unfoldable pub coerce_compute_payload : Fields → Reply
unfolding coerced get as_int
coerce_compute_payload payload =
    coerced (as_int (get payload "sum")) (as_int (get payload "product"))

-- What one `client.post` does. The body of a response is absent where it is not valid JSON.
pub data Exchange : Type 0 where
  timed_out request_error : Exchange
  response : ℕ → Option Json → Exchange

body_result : Json → Reply
unfolding coerce_compute_payload
body_result (object fields) = coerce_compute_payload fields
body_result _ = failed compute_error

body_object : Option Json → Reply
unfolding body_result
body_object none = failed json_error
body_object (some (object body)) = body_result (get body "result")
body_object (some _) = failed compute_error

-- What the loop does after an attempt: return, raise, or keep the error and go on.
pub data Verdict : Type 0 where
  returned : ComputeResult → Verdict
  raised retry : Fault → Verdict

verdict_of : Reply → Verdict
verdict_of (ok r) = returned r
verdict_of (failed f) = raised f

-- The body of the `try` with its handlers. A compute error is retried where the response's status
-- is 500 or more.
unfoldable pub attempt : Exchange → Verdict
unfolding body_object verdict_of
attempt timed_out = retry compute_timeout
attempt request_error = retry transport_error
attempt (response status body) =
    if status == 200
    then verdict_of (body_object body)
    else if leb 500 status
    then retry compute_error
    else raised compute_error

-- `time.monotonic()` before each attempt, and the attempt's exchange.
pub record Network : Type 0 where
  pub start : ℕ
  pub now : ℕ → ℕ
  pub exchange : ℕ → Exchange

after_attempt : Verdict → (Fault → Reply) → Reply
after_attempt (returned r) next = ok r
after_attempt (raised f) next = failed f
after_attempt (retry f) next = next f

-- The `for` loop, with the attempts that are left, the number of the attempt and `last_error`.
attempts : ℕ → ℕ → ℕ → Network → Fault → Reply
unfolding after_attempt
attempts zero i end_time net last_error = failed last_error
attempts (suc left) i end_time net last_error =
    let rest : Fault → Reply = attempts left (suc i) end_time net in
    if leb (end_time - net.now i) 0
    then failed compute_timeout
    else after_attempt (attempt (net.exchange i)) rest

-- `max(1, retry_attempts)`
abbrev pub rounds : ℕ → ℕ
rounds zero = 1
rounds (suc n) = suc n

unfoldable pub request_compute_sync : Network → (timeout_ms retry_attempts : ℕ) → Reply
unfolding attempts attempt
request_compute_sync net timeout_ms retry_attempts =
    attempts (rounds retry_attempts) 0 (net.start + timeout_ms) net no_error

-- `_compute_outcome` of workflows.py: the dictionary that the step journals.
pub data Outcome : Type 0 where
  done : ComputeResult → Outcome
  timeout failure : Outcome

outcome_of : Reply → Outcome
outcome_of (ok r) = done r
outcome_of (failed compute_timeout) = timeout
outcome_of (failed _) = failure

unfoldable pub compute_outcome : Network → (timeout_ms retry_attempts : ℕ) → Outcome
unfolding outcome_of
compute_outcome net timeout_ms retry_attempts =
    outcome_of (request_compute_sync net timeout_ms retry_attempts)
