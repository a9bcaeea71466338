-- ===== src/Bedrock.antt =====
-- The circuit breaker and the retries of pdf_ingestion/pipeline/vlm/bedrock_client.py. Times are in
-- one unit of the clock; the answers of the service are arguments.
use smart_pdf_extractor.Prelude.{
  ℕ, zero, suc, ◌+◌, String, Bool, true, false, not, Option, none, some, List, [], ◌∷◌, leb,
  if◌then◌else◌,
}
pub mod Outage

pub data BreakerState : Type 0 where
  closed opened half_open : BreakerState

pub record CircuitBreaker : Type 0 where
  pub failure_threshold : ℕ
  pub recovery_window : ℕ
  pub failure_count : ℕ
  pub state : BreakerState
  pub last_failure_time : ℕ

-- `CircuitBreaker(failure_threshold=…, recovery_window_seconds=…)`
abbrev pub circuit_breaker : ℕ → ℕ → CircuitBreaker
circuit_breaker threshold window = record {
  failure_threshold = threshold;
  recovery_window = window;
  failure_count = 0;
  state = closed;
  last_failure_time = 0;
}

abbrev pub allowed_in : BreakerState → ℕ → CircuitBreaker → Bool × CircuitBreaker
allowed_in closed now b = (true, b)
allowed_in opened now b =
    if leb (b.last_failure_time + b.recovery_window) now
    then (true, record b { state = half_open })
    else (false, b)
allowed_in half_open now b = (true, b)

unfoldable pub is_call_allowed : ℕ → CircuitBreaker → Bool × CircuitBreaker
is_call_allowed now b = allowed_in b.state now b

unfoldable pub record_success : CircuitBreaker → CircuitBreaker
record_success b = record b { failure_count = 0; state = closed }

unfoldable pub record_failure : ℕ → CircuitBreaker → CircuitBreaker
record_failure now b = record b {
  failure_count = b.failure_count + 1;
  last_failure_time = now;
  state = if leb b.failure_threshold (b.failure_count + 1) then opened else b.state;
}

-- A field's result: a value, or the reason for none.
pub data FieldResult (A : Type 0) : Type 0 where
  value : A → FieldResult A
  disabled : FieldResult A
  breaker_open : FieldResult A
  retries_exhausted : FieldResult A
  raises : FieldResult A

-- What an attempt meets: a result; an exception of the service; or a client that cannot be made, so
-- that the service is not invoked, and the test of the handler raises too.
pub data Outcome (A : Type 0) : Type 0 where
  answered : A → Outcome A
  raised : Outcome A
  no_client : Outcome A

-- An attempt: when it ended, and what it met.
pub record Invocation (A : Type 0) : Type 0 where
  pub ended : ℕ
  pub outcome : Outcome A

-- A call: when it was made, and what its two attempts meet, where they take place.
pub record Call (A : Type 0) : Type 0 where
  pub asked : ℕ
  pub attempt : Invocation A
  pub retry : Invocation A

module _ {A : Type 0} where
  -- The second attempt: the result, the breaker and the number of invocations.
  abbrev pub retry_after : ℕ → Outcome A → CircuitBreaker → FieldResult A × CircuitBreaker × ℕ
  retry_after ended (answered a) b = (value a, record_success b, 1)
  retry_after ended raised b = (retries_exhausted, record_failure ended b, 1)
  retry_after ended no_client b = (raises, b, 0)

  abbrev pub one_more : FieldResult A × CircuitBreaker × ℕ → FieldResult A × CircuitBreaker × ℕ
  one_more (result, b, n) = (result, b, n + 1)

  -- A raised first attempt is retried whatever the breaker says by then.
  abbrev pub attempts :
      Invocation A → Outcome A → ℕ → CircuitBreaker → FieldResult A × CircuitBreaker × ℕ
  attempts retry (answered a) ended b = (value a, record_success b, 1)
  attempts retry raised ended b =
      one_more (retry_after retry.ended retry.outcome (record_failure ended b))
  attempts retry no_client ended b = (raises, b, 0)

  abbrev pub if_allowed : Call A → Bool × CircuitBreaker → FieldResult A × CircuitBreaker × ℕ
  if_allowed c (allowed, b) =
      let tried = attempts c.retry c.attempt.outcome c.attempt.ended b in
      if not allowed then (breaker_open, b, 0) else tried

  unfoldable pub extract_field : Bool → Call A → CircuitBreaker → FieldResult A × CircuitBreaker × ℕ
  extract_field vlm_enabled c b =
      let tried = if_allowed c (is_call_allowed c.asked b) in
      if not vlm_enabled then (disabled, b, 0) else tried
