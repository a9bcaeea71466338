-- ===== src/Worker/Outcomes.antt =====
-- What one call of `_process` of pdf_ingestion/api/worker.py does to the other jobs, and how it
-- ends.
use smart_pdf_extractor.Prelude.{
  ℕ, String, ◌≡◌, ◌≤◌, ◌↔◌, ◌⊎◌, refl, true, ==_iff, false, ◌&&◌, arith, ltb, if◌then◌else◌, ◌==◌,
  string_eq, Bool-cases, inl, inr,
}
use smart_pdf_extractor.Queue.{ClaimedJob, Tables, complete_job, fail, retry_later}
use smart_pdf_extractor.Queue.Find.{
  SameJob, SameJob-refl, SameJob-complete, SameJob-fail, SameJob-retry,
}
use smart_pdf_extractor.Worker.{
  Faults, Output, escaped, ErrorEntry, missing, null, text, Outcome, returned, raised,
  TenantContext, System, backoff, failed_text, build_tenant, save_result, record_job_result,
  on_exception, on_return, on_outcome, process,
}

-- What the queue's tables become: one operation of the queue, or none.
abbrev tables_of_entry : ℕ → ClaimedJob → ErrorEntry → Tables → Tables
tables_of_entry now c missing db = fail c.job_id c.tenant_id failed_text now db
tables_of_entry now c null db = db
tables_of_entry now c (text e) db = fail c.job_id c.tenant_id e now db

abbrev tables_after : ℕ → ℕ → ClaimedJob → Outcome → Tables → Tables
tables_after max_attempts now c (raised e) db =
    if ltb c.attempts max_attempts
    then retry_later c.job_id c.tenant_id e (backoff c.attempts) now db
    else fail c.job_id c.tenant_id e now db
tables_after max_attempts now c (returned status out abstentions) db =
    if status == "failed"
    then tables_of_entry now c out.error db
    else complete_job c.job_id c.tenant_id (ltb 0 abstentions) now db

SameJob-after :
    (max_attempts now : ℕ) (c : ClaimedJob) (o : Outcome) (db : Tables) (jid tid : String)
    → ((c.job_id == jid) && (c.tenant_id == tid)) ≡ false
    → SameJob jid tid db (tables_after max_attempts now c o db)
SameJob-after max_attempts now c (raised e) db jid tid other =
    elim (Bool-cases (ltb c.attempts max_attempts)) [
      | inl h ↦
          rw h (SameJob-retry c.job_id c.tenant_id jid tid other e (backoff c.attempts) now db)
      | inr h ↦ rw h (SameJob-fail c.job_id c.tenant_id jid tid other e now db)
    ]
SameJob-after max_attempts now c (returned status out n) db jid tid other =
    elim (Bool-cases (status == "failed")) [
      | inl h ↦ rw h (entry_same out.error)
      | inr h ↦ rw h (SameJob-complete c.job_id c.tenant_id jid tid other (ltb 0 n) now db)
    ]
  where
    entry_same : (x : ErrorEntry) → SameJob jid tid db (tables_of_entry now c x db)
    entry_same missing = SameJob-fail c.job_id c.tenant_id jid tid other failed_text now db
    entry_same null = SameJob-refl jid tid db
    entry_same (text e) = SameJob-fail c.job_id c.tenant_id jid tid other e now db

-- An exception leaves `_process`: the tenant cannot be read, the job's row cannot be written, a job
-- fails for good and its error result cannot be saved, or the pipeline reports a failure with a null
-- error.
abbrev pub Escapes : Faults → ℕ → ℕ → Outcome → Type 0
Escapes faults max_attempts attempts (raised e) =
    (faults.tenant_raises ≡ true)
    ⊎ (faults.queue_raises ≡ true)
    ⊎ ((max_attempts ≤ attempts) × (faults.save_raises ≡ true))
Escapes faults max_attempts attempts (returned status out abstentions) =
    (faults.tenant_raises ≡ true)
    ⊎ (faults.queue_raises ≡ true)
    ⊎ ((status ≡ "failed") × (out.error ≡ null))

module _ (faults : Faults) (max_attempts : ℕ) (trace : String) (now : ℕ) where
  outcome-tables :
      (c : ClaimedJob) (o : Outcome) (s : System)
      → (on_outcome faults max_attempts trace now c o s).1.tables
        ≡ (if faults.queue_raises then s.tables else tables_after max_attempts now c o s.tables)
  unfolding on_exception on_return record_job_result save_result
  outcome-tables c (raised e) s = ground arith
  outcome-tables c (returned status out n) s = ground arith

  -- The processing of one job leaves the row and the payload of every other job, of this tenant or
  -- of another, as they were.
  pub process-SameJob :
      (pipeline : ClaimedJob → TenantContext → Outcome) (c : ClaimedJob) (s : System)
      (jid tid : String)
      → ((c.job_id == jid) && (c.tenant_id == tid)) ≡ false
      → SameJob jid tid s.tables (process faults max_attempts trace now pipeline c s).1.tables
  unfolding process
  process-SameJob pipeline c s jid tid other =
      let o = pipeline c (build_tenant c.tenant_id s) in
      elim (Bool-cases faults.tenant_raises) [
        | inl e ↦ simp e (SameJob-refl jid tid s.tables)
        | inr e ↦
            simp (e, outcome-tables c o s)
              (elim (Bool-cases faults.queue_raises) [
                | inl f ↦ simp f (SameJob-refl jid tid s.tables)
                | inr f ↦ simp f (SameJob-after max_attempts now c o s.tables jid tid other)
              ])
      ]

  -- `_process` lets an exception through, which ends the worker's loop, exactly if the tenant's row
  -- cannot be read, the job's row cannot be written, a job fails for good and its error result
  -- cannot be saved, or the pipeline reports a failure whose error is null.
  pub process-Escapes :
      (pipeline : ClaimedJob → TenantContext → Outcome) (c : ClaimedJob) (s : System)
      → ((process faults max_attempts trace now pipeline c s).0 ≡ escaped)
        ↔ Escapes faults max_attempts c.attempts (pipeline c (build_tenant c.tenant_id s))
  unfolding process on_exception on_return record_job_result save_result
  process-Escapes pipeline c s = go (pipeline c (build_tenant c.tenant_id s))
    where
      by_error :
          (x : ErrorEntry) (status : String) (out : Output) (n : ℕ)
          → out.error ≡ x
          → ((if faults.tenant_raises
                then (escaped, s)
                else on_outcome faults max_attempts trace now c (returned status out n) s).0
              ≡ escaped)
            ↔ Escapes faults max_attempts c.attempts (returned status out n)
      by_error missing status out n h = ground (arith, h, ==_iff status "failed")
      by_error null status out n h = ground (arith, h, ==_iff status "failed")
      by_error (text e) status out n h = ground (arith, h, ==_iff status "failed")

      go :
          (o : Outcome)
          → ((if faults.tenant_raises
                then (escaped, s)
                else on_outcome faults max_attempts trace now c o s).0
              ≡ escaped)
            ↔ Escapes faults max_attempts c.attempts o
      go (raised e) = ground arith
      go (returned status out n) = by_error out.error status out n refl
