-- ===== src/Worker/Retries.antt =====
-- A job whose pipeline always raises, alone in the queue of pdf_ingestion/api/worker.py: the retries
-- end. A job whose worker always dies: they do not.
use smart_pdf_extractor.Prelude.{
  Text, ℕ, zero, suc, ◌+◌, ◌≤◌, ◌<◌, String, ◌≡◌, refl, ap, ◌∙◌, true, false, some, List, [], ◌∷◌,
  arith, string_eq, ==_iff,
}
use smart_pdf_extractor.Queue.{
  queued, processing, failed, Job, Payload, Tables, payload_is, truncate, start, requeued,
  failed_with, eligible, pick, claim_next_job, find_payload, load_payload, claim, fail, retry_later,
  delete_payload,
}
use smart_pdf_extractor.Worker.{
  Faults, raised, System, backoff, on_exception, process, round, save_result, record_job_result,
}

-- The tables with one job and its payload.
abbrev pub alone : Job → Payload → System → System
alone j p s = record s { tables = record { jobs = j ∷ []; payloads = p ∷ [] } }

-- When the first job of the table becomes available.
abbrev pub wake : List Job → ℕ
wake [] = 0
wake (j ∷ _) = j.available_at

module _ (faults : Faults) (max_attempts : ℕ) (trace worker : String) (stale : ℕ) (e : Text) where
  -- One round at the time at which the job becomes available, with a pipeline that raises.
  unfoldable pub attempt : System → System
  attempt s =
      (round faults max_attempts trace (wake s.tables.jobs) (λ _ _. raised e) (λ _. false) worker
        stale s).1

  unfoldable pub attempts : ℕ → System → System
  attempts zero s = s
  attempts (suc n) s = attempts n (attempt s)

  attempt_again :
      (j : Job) (p : Payload) (s : System)
      → faults.tenant_raises ≡ false
      → faults.queue_raises ≡ false
      → j.status ≡ queued
      → payload_is j.job_id j.tenant_id p ≡ true
      → suc j.attempts < max_attempts
      → attempt (alone j p s)
        ≡ alone
            (requeued e (backoff (suc j.attempts)) j.available_at (start worker j.available_at j))
            p
            s
  unfolding attempt round claim claim_next_job pick eligible load_payload find_payload process
      on_exception retry_later
  attempt_again j p s u v q own more =
      ground (arith, ==_iff j.job_id j.job_id, ==_iff j.tenant_id j.tenant_id)

  attempt_last :
      (j : Job) (p : Payload) (s : System)
      → faults.tenant_raises ≡ false
      → faults.queue_raises ≡ false
      → j.status ≡ queued
      → payload_is j.job_id j.tenant_id p ≡ true
      → max_attempts ≤ suc j.attempts
      → (attempt (alone j p s)).tables ≡ record {
        jobs = failed_with e j.available_at (start worker j.available_at j) ∷ [];
        payloads = [];
      }
  unfolding attempt round claim claim_next_job pick eligible load_payload find_payload process
      on_exception fail delete_payload save_result record_job_result
  attempt_last j p s u v q own last =
      ground (arith, ==_iff j.job_id j.job_id, ==_iff j.tenant_id j.tenant_id)

  -- Where the database answers the read of the tenant and the calls of the queue, a job whose
  -- pipeline always raises, queued alone with its payload after fewer attempts than the
  -- maximum, is failed after exactly as many more rounds as attempts were left, with the maximum
  -- number of attempts made, its last error recorded and its payload deleted.
  pub retries_end :
      (n : ℕ) (j : Job) (p : Payload) (s : System)
      → faults.tenant_raises ≡ false
      → faults.queue_raises ≡ false
      → j.status ≡ queued
      → payload_is j.job_id j.tenant_id p ≡ true
      → j.attempts + suc n ≡ max_attempts
      → (j' : Job) × ((attempts (suc n) (alone j p s)).tables
          ≡ record { jobs = j' ∷ []; payloads = [] })
        × (j'.status ≡ failed)
        × (j'.attempts ≡ max_attempts)
        × (j'.last_error ≡ some (truncate e))
        × (j'.job_id ≡ j.job_id)
  unfolding attempts
  retries_end zero j p s u v q own total =
      let t = j.available_at in
      (
        failed_with e t (start worker t j),
        attempt_last j p s u v q own (omega arith),
        refl,
        omega arith,
        refl,
        refl,
      )
  retries_end (suc n) j p s u v q own total =
      let t = j.available_at in
      let j₁ : Job = requeued e (backoff (suc j.attempts)) t (start worker t j) in
      let (j', after, st, count, error, same) = retries_end n j₁ p s u v refl own (omega arith) in
      (
        j',
        ap (λ (t : System). (attempts (suc n) t).tables)
              (attempt_again j p s u v q own (omega arith))
            ∙ after,
        st,
        count,
        error,
        same,
      )

-- A worker that dies after its claim: the claim is made, and nothing else.
unfoldable pub crash : String → ℕ → ℕ → Tables → Tables
crash worker stale now db = (claim (λ _. false) worker stale now db).1

-- `n` workers that die one after the other, each claiming as soon as the last claim is stale.
unfoldable pub crashes : String → ℕ → ℕ → ℕ → Tables → Tables
crashes worker stale now zero db = db
crashes worker stale now (suc n) db =
    crashes worker stale (now + stale + 1) n (crash worker stale now db)

crash_once :
    (worker : String) (stale now : ℕ) (j : Job) (p : Payload)
    → eligible stale now j ≡ true
    → payload_is j.job_id j.tenant_id p ≡ true
    → crash worker stale now (record { jobs = j ∷ []; payloads = p ∷ [] })
      ≡ record { jobs = start worker now j ∷ []; payloads = p ∷ [] }
unfolding crash claim claim_next_job pick load_payload find_payload
crash_once worker stale now j p el own =
    ground (arith, ==_iff j.job_id j.job_id, ==_iff j.tenant_id j.tenant_id)

started-eligible :
    (worker : String) (stale now : ℕ) (j : Job)
    → eligible stale (now + stale + 1) (start worker now j) ≡ true
unfolding eligible
started-eligible worker stale now j = ground arith

-- Claims do not look at the number of attempts: a job whose worker dies every time is claimed again
-- each time its lease is over, so that its attempts pass every bound while it is still processing.
pub crashes_unbounded :
    (worker : String) (stale : ℕ) (n now : ℕ) (j : Job) (p : Payload)
    → eligible stale now j ≡ true
    → payload_is j.job_id j.tenant_id p ≡ true
    → (j' : Job) × (crashes worker stale now (suc n) (record { jobs = j ∷ []; payloads = p ∷ [] })
        ≡ record { jobs = j' ∷ []; payloads = p ∷ [] })
      × (j'.status ≡ processing)
      × (j'.attempts ≡ j.attempts + suc n)
unfolding crashes
crashes_unbounded worker stale zero now j p el own =
    (start worker now j, crash_once worker stale now j p el own, refl, refl)
crashes_unbounded worker stale (suc n) now j p el own =
    let (j', after, st, count) =
      crashes_unbounded worker stale n (now + stale + 1) (start worker now j) p
        (started-eligible worker stale now j) own in
    (j', rw (crash_once worker stale now j p el own) after, st, omega arith)
