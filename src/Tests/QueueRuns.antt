-- ===== src/Tests/QueueRuns.antt =====
-- Two jobs in the tables of pdf_ingestion/db/job_queue.py, and the queue's theorems at them.
use smart_pdf_extractor.Prelude.{
  ℕ, ◌≡◌, refl, String, true, false, none, some, [], ◌∷◌, All, string_eq,
}
use smart_pdf_extractor.Queue.{
  Job, Payload, Tables, queued, start, eligible, pick, claim_next_job, complete_job, delete_payload,
  retry_later, requeued,
}
use smart_pdf_extractor.Queue.Claim.{claimable, IsNext, after_claim, claim-IsNext, claim_idle}

abbrev pub job_at : String → ℕ → Job
job_at jid t = record {
  job_id = jid;
  tenant_id = "t1";
  status = queued;
  attempts = 0;
  claimed_at = none;
  claimed_by = none;
  available_at = t;
  completed_at = none;
  last_error = none;
  needs_review = false;
}

abbrev pub payload_of : String → Payload
payload_of jid = record {
  job_id = jid;
  tenant_id = "t1";
  content = 37 ∷ 80 ∷ [];
  filename = "a.pdf";
  doc_hash = "h";
  schema_type = none;
}

abbrev two_jobs : Tables
two_jobs = record {
  jobs = job_at "a" 20 ∷ job_at "b" 10 ∷ [];
  payloads = payload_of "a" ∷ payload_of "b" ∷ [];
}

abbrev b_claimed : Tables
b_claimed = record two_jobs { jobs = job_at "a" 20 ∷ start "w0" 30 (job_at "b" 10) ∷ [] }

-- The job that became available first is claimed first.
claims_b :
    claim_next_job (λ _. false) "w0" 900 30 two_jobs
    ≡ (some (start "w0" 30 (job_at "b" 10)), b_claimed)
unfolding claim_next_job pick eligible
claims_b = refl

claim-IsNext_example :
    (j : Job) × IsNext (λ _. false) 900 30 two_jobs j
    × (start "w0" 30 (job_at "b" 10) ≡ start "w0" 30 j)
    × (b_claimed ≡ after_claim "w0" 30 j two_jobs)
claim-IsNext_example =
    claim-IsNext (λ _. false) "w0" 900 30 two_jobs (start "w0" 30 (job_at "b" 10)) b_claimed
      claims_b

too_early : claim_next_job (λ _. false) "w0" 900 5 two_jobs ≡ (none, two_jobs)
unfolding claim_next_job pick eligible
too_early = refl

claim_idle_example :
    All (λ j. claimable (λ _. false) 900 5 j ≡ false) two_jobs.jobs × (two_jobs ≡ two_jobs)
claim_idle_example = claim_idle (λ _. false) "w0" 900 5 two_jobs two_jobs too_early

abbrev both_claimed : Tables
both_claimed = record two_jobs {
  jobs = start "w1" 40 (job_at "a" 20) ∷ start "w0" 30 (job_at "b" 10) ∷ [];
}

-- "a" is put back into the queue, to be tried again after two seconds.
abbrev a_again : Tables
a_again = retry_later "a" "t1" [] 2 50 both_claimed

abbrev a_waiting : Job
a_waiting = requeued [] 2 50 (start "w1" 40 (job_at "a" 20))

-- After the claim a worker completes "b", and its payload goes.
abbrev b_done : Tables
b_done = complete_job "b" "t1" true 50 (claim_next_job (λ _. false) "w0" 900 30 two_jobs).1

b_payload_gone : b_done.payloads ≡ payload_of "a" ∷ []
unfolding complete_job claim_next_job pick eligible delete_payload
b_payload_gone = refl
