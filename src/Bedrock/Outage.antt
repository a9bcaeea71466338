-- ===== src/Bedrock/Outage.antt =====
-- How often a service that fails is called by threads that share one client (CircuitBreaker and
-- extract_field of pdf_ingestion/pipeline/vlm/bedrock_client.py).
use smart_pdf_extractor.Prelude.{ℕ, ◌+◌, ◌*◌, ◌≤◌, ◌<◌, ◌≡◌, refl, true, false, Bool, arith}
use smart_pdf_extractor.Bedrock.{
  closed, opened, CircuitBreaker, is_call_allowed, record_failure, raised, Call, extract_field,
}

-- The breaker, the calls of extract_field in their first and in their second attempt, and how often
-- the service was invoked.
pub record Shared : Type 0 where
  pub breaker : CircuitBreaker
  pub firsts : ℕ
  pub seconds : ℕ
  pub invocations : ℕ

abbrev pub idle : CircuitBreaker → Shared
idle b = record { breaker = b; firsts = 0; seconds = 0; invocations = 0 }

-- One step of one of `limit` threads in an outage that begins at `since`: a call asks the breaker,
-- within the window, and goes on or is refused; an attempt ends, and raises, so that a first attempt
-- is retried; or an attempt has no client, so that extract_field raises and nothing is recorded.
pub data Moves (limit since window : ℕ) (s : Shared) : Shared → Type 0 where
  admitted :
      (now : ℕ) (after : CircuitBreaker)
      → s.firsts + s.seconds < limit
      → now < since + window
      → is_call_allowed now s.breaker ≡ (true, after)
      → Moves limit since window s (record s { breaker = after; firsts = s.firsts + 1 })
  refused :
      (now : ℕ) (after : CircuitBreaker)
      → is_call_allowed now s.breaker ≡ (false, after)
      → Moves limit since window s (record s { breaker = after })
  first_raised :
      (ended n : ℕ)
      → s.firsts ≡ n + 1
      → since ≤ ended
      → Moves limit since window s (record {
        breaker = record_failure ended s.breaker;
        firsts = n;
        seconds = s.seconds + 1;
        invocations = s.invocations + 1;
      })
  second_raised :
      (ended n : ℕ)
      → s.seconds ≡ n + 1
      → since ≤ ended
      → Moves limit since window s (record s {
        breaker = record_failure ended s.breaker;
        seconds = n;
        invocations = s.invocations + 1;
      })
  first_no_client :
      (n : ℕ) → s.firsts ≡ n + 1 → Moves limit since window s (record s { firsts = n })
  second_no_client :
      (n : ℕ) → s.seconds ≡ n + 1 → Moves limit since window s (record s { seconds = n })

-- Any steps, one after the other.
pub data Run (limit since window : ℕ) (s : Shared) : Shared → Type 0 where
  start : Run limit since window s s
  then_ :
      {mid end : Shared}
      → Moves limit since window mid end
      → Run limit since window s mid
      → Run limit since window s end

module _ {A : Type 0} where
  -- Both attempts raise, and end no sooner than the outage begins; the call is made in the window.
  abbrev pub FailsWithin : ℕ → ℕ → Call A → Type 0
  FailsWithin since window c =
      (c.attempt.outcome ≡ raised)
      × (c.retry.outcome ≡ raised)
      × (since ≤ c.attempt.ended)
      × (since ≤ c.retry.ended)
      × (c.asked < since + window)

  -- A call of extract_field by itself is such steps: the breaker and the invocations are the same.
  pub extract_field-Run :
      (since window : ℕ) (c : Call A) (b : CircuitBreaker)
      → FailsWithin since window c
      → let (result, after, n) = extract_field true c b in
        Run 1 since window (idle b) (record (idle after) { invocations = n })
  unfolding extract_field
  extract_field-Run since window c b (p, q, l, m, soon) =
      by_answer (is_call_allowed c.asked b).0 (is_call_allowed c.asked b).1 refl
    where
      by_answer :
          (allowed : Bool) (after : CircuitBreaker)
          → is_call_allowed c.asked b ≡ (allowed, after)
          → let (result, after, n) = extract_field true c b in
            Run 1 since window (idle b) (record (idle after) { invocations = n })
      by_answer true after e =
          simp (e, p, q)
            (then_ (second_raised c.retry.ended 0 refl m) (
              then_ (first_raised c.attempt.ended 0 refl l)
                (then_ (admitted c.asked after (omega arith) soon e) start)))
      by_answer false after e = simp e (then_ (refused c.asked after e) start)

-- The breaker is shut, with fewer failures than open it and each invocation counted among them; or
-- it is open, its last failure is not older than the outage, and the invocations made and still to
-- come are few.
data Holds (limit threshold since window : ℕ) (s : Shared) : Type 0 where
  shut :
      s.breaker.state ≡ closed
      → s.breaker.failure_threshold ≡ threshold
      → s.breaker.recovery_window ≡ window
      → s.breaker.failure_count < threshold
      → s.invocations ≡ s.breaker.failure_count
      → s.firsts + s.seconds ≤ limit
      → Holds limit threshold since window s
  tripped :
      s.breaker.state ≡ opened
      → s.breaker.failure_threshold ≡ threshold
      → s.breaker.recovery_window ≡ window
      → threshold ≤ s.breaker.failure_count
      → since ≤ s.breaker.last_failure_time
      → s.invocations + 2 * s.firsts + s.seconds + 1 ≤ threshold + 2 * limit
      → Holds limit threshold since window s
