-- ===== src/Tests/BedrockRuns.antt =====
-- Calls in an outage, one after the other and in two threads, and the theorem at them.
use smart_pdf_extractor.Prelude.{ℕ, ◌+◌, ◌≡◌, refl, String, true}
use smart_pdf_extractor.Bedrock.{
  Call, CircuitBreaker, circuit_breaker, raised, retries_exhausted, breaker_open, extract_field,
  is_call_allowed, record_failure,
}
use smart_pdf_extractor.Bedrock.Outage.{Shared, idle}

abbrev failing : ℕ → Call String
failing now = record {
  asked = now;
  attempt = record { ended = now + 1; outcome = raised };
  retry = record { ended = now + 3; outcome = raised };
}

abbrev fresh : CircuitBreaker
fresh = circuit_breaker 3 60

-- Two calls with their retries; the third is refused.
third_refused :
    let (first, b, n) = extract_field true (failing 100) fresh in
    let (second, c, m) = extract_field true (failing 110) b in
    let (third, d, k) = extract_field true (failing 120) c in
    (first ≡ retries_exhausted) × (n + m ≡ 4) × (third ≡ breaker_open) × (k ≡ 0)
unfolding extract_field is_call_allowed record_failure
third_refused = (refl, refl, refl, refl)

-- Two calls are let in before the first of them fails, and both are retried.
abbrev four_times : Shared
four_times =
    record (idle
      (record_failure 105 (record_failure 104 (record_failure 103 (record_failure 102 fresh))))) {
        invocations = 4;
      }
