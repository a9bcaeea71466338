-- ===== src/Worker.antt =====
-- pdf_ingestion/api/worker.py: one worker of the pool, from a claimed job to its outcome, with the
-- result rows of JobRepo.save_result and the read caches of api/routes/extract.py. The extraction
-- pipeline is a function of the job and its tenant, which may return or raise. Which calls of the
-- database raise is a parameter; a claim that raises is one that finds nothing.
pub mod Outcomes
pub mod Retries
use smart_pdf_extractor.Prelude.{
  Text, ℕ, ◌^◌, min, String, Bool, true, false, not, Option, none, some, List, [], ◌∷◌, ◌++◌, ltb,
  if◌then◌else◌, ◌==◌, string_eq,
}
use smart_pdf_extractor.Dict
use smart_pdf_extractor.Dict.{Dict}
use smart_pdf_extractor.Queue.{Job, ClaimedJob, Tables, claim, complete_job, fail, retry_later}

pub record TenantRow : Type 0 where
  pub id : String
  pub name : String
  pub api_key_hash : Option String
  pub vlm_enabled : Bool

pub record TenantContext : Type 0 where
  pub id : String
  pub name : String
  pub api_key_hash : String
  pub vlm_enabled : Bool

-- The key "error" of an output dict: missing, null, or a text.
pub data ErrorEntry : Type 0 where
  missing null : ErrorEntry
  text : Text → ErrorEntry

pub record Output : Type 0 where
  pub error : ErrorEntry
  pub body : String

-- What `execute_pipeline` does: the status, the output and how many abstentions, or an exception.
pub data Outcome : Type 0 where
  returned : String → Output → ℕ → Outcome
  raised : Text → Outcome

pub record ResultRow : Type 0 where
  pub job_id : String
  pub tenant_id : String
  pub output : Output

-- An entry of `_JOBS`: the fields that a finished job changes.
pub record JobView : Type 0 where
  pub status : String
  pub completed_at : Option ℕ

-- An entry of `_RESULTS`.
pub record ResultView : Type 0 where
  pub tenant_id : String
  pub trace_id : String
  pub output : Output

pub record System : Type 0 where
  pub tables : Tables
  pub tenants : Dict String TenantRow
  pub results : List ResultRow
  pub job_views : Dict String JobView
  pub result_views : Dict String ResultView

-- `{"error": str(e)}`
abbrev pub error_output : Text → Output
error_output e = record { error = text e; body = "" }

-- JobRepo.save_result: one more row.
pub save_result : String → String → Output → System → System
save_result jid tid out s = record s {
  results = s.results ++ record { job_id = jid; tenant_id = tid; output = out } ∷ [];
}

abbrev pub finish_view :
    String → ℕ → Option JobView → Dict String JobView → String → Dict String JobView
finish_view jid now none views status = views
finish_view jid now (some v) views status =
    Dict.put jid (record { status = status; completed_at = some now }) views

unfoldable pub record_job_result : String → String → String → String → Output → ℕ → System → System
record_job_result jid tid trace status out now s = record s {
  job_views = finish_view jid now (Dict.lookup jid s.job_views) s.job_views status;
  result_views =
      Dict.put jid (record { tenant_id = tid; trace_id = trace; output = out }) s.result_views;
}

abbrev pub on_tables : (Tables → Tables) → System → System
on_tables f s = record s { tables = f s.tables }

-- `api_key_hash or ""`
abbrev pub or_empty : Option String → String
or_empty none = ""
or_empty (some h) = h

abbrev pub context_of : String → Option TenantRow → TenantContext
context_of tid none = record { id = tid; name = tid; api_key_hash = ""; vlm_enabled = false }
context_of tid (some r) = record {
  id = r.id;
  name = r.name;
  api_key_hash = or_empty r.api_key_hash;
  vlm_enabled = r.vlm_enabled;
}

-- A tenant whose row is missing is processed with the language model disabled.
unfoldable pub build_tenant : String → System → TenantContext
build_tenant tid s = context_of tid (Dict.lookup tid s.tenants)

-- `min(60, 2 ** attempts)`
pub backoff : ℕ → ℕ
backoff attempts = min 60 (2 ^ attempts)

-- "failed"
abbrev pub failed_text : Text
failed_text = 102 ∷ 97 ∷ 105 ∷ 108 ∷ 101 ∷ 100 ∷ []

-- How a call of `_process` ends: normally, or by an exception that leaves it.
pub data Ends : Type 0 where
  normally escaped : Ends

-- Which calls of the database raise: the read of the tenant, the operation that closes or requeues
-- the job, and save_result.
pub record Faults : Type 0 where
  pub tenant_raises : Bool
  pub queue_raises : Bool
  pub save_raises : Bool

module _ (faults : Faults) (max_attempts : ℕ) (trace : String) (now : ℕ) where
  -- `await JobRepo().save_result(…)`
  abbrev pub saving : String → String → Output → System → Ends × System
  saving jid tid out s =
      if faults.save_raises then (escaped, s) else (normally, save_result jid tid out s)

  -- `await queue.…(…)`
  abbrev pub queueing : (Tables → Tables) → System → Ends × System
  queueing f s = if faults.queue_raises then (escaped, s) else (normally, on_tables f s)

  -- What follows a call, unless the call raised.
  abbrev pub then_do : (System → Ends × System) → Ends × System → Ends × System
  then_do next (escaped, s) = (escaped, s)
  then_do next (normally, s) = next s

  -- The handler of an exception of the pipeline.
  unfoldable pub on_exception : ClaimedJob → Text → System → Ends × System
  unfolding backoff
  on_exception c e s =
      if ltb c.attempts max_attempts
      then queueing (retry_later c.job_id c.tenant_id e (backoff c.attempts) now) s
      else then_do
          (λ s'.
            saving c.job_id c.tenant_id (error_output e)
              (record_job_result c.job_id c.tenant_id trace "failed" (error_output e) now s'))
          (queueing (fail c.job_id c.tenant_id e now) s)

  -- `queue.fail(…, output_dict.get("error", "failed"))`: a null error cannot be sliced, and raises.
  abbrev pub fail_with_entry : ClaimedJob → ErrorEntry → System → Ends × System
  fail_with_entry c missing s = queueing (fail c.job_id c.tenant_id failed_text now) s
  fail_with_entry c null s = (escaped, s)
  fail_with_entry c (text e) s = queueing (fail c.job_id c.tenant_id e now) s

  abbrev pub close_entry : ClaimedJob → String → Output → ℕ → System → Ends × System
  close_entry c status out abstentions s =
      if status == "failed"
      then fail_with_entry c out.error s
      else queueing (complete_job c.job_id c.tenant_id (ltb 0 abstentions) now) s

  -- The result row is written if the database lets it; a failure to write it is only logged.
  unfoldable pub on_return : ClaimedJob → String → Output → ℕ → System → Ends × System
  on_return c status out abstentions s =
      let (_, s') = saving c.job_id c.tenant_id out s in
      then_do (λ s''. (normally, record_job_result c.job_id c.tenant_id trace status out now s''))
        (close_entry c status out abstentions s')

  abbrev pub on_outcome : ClaimedJob → Outcome → System → Ends × System
  on_outcome c (raised e) s = on_exception c e s
  on_outcome c (returned status out abstentions) s = on_return c status out abstentions s

  unfoldable pub process :
      (ClaimedJob → TenantContext → Outcome) → ClaimedJob → System → Ends × System
  process pipeline c s =
      if faults.tenant_raises
      then (escaped, s)
      else on_outcome c (pipeline c (build_tenant c.tenant_id s)) s

  abbrev pub process_claimed :
      (ClaimedJob → TenantContext → Outcome) → Option ClaimedJob × Tables → System → Ends × System
  process_claimed pipeline (none, db) s = (normally, record s { tables = db })
  process_claimed pipeline (some c, db) s = process pipeline c (record s { tables = db })

  -- One round of `_loop`: an idle claim waits for the next round, a claimed job is processed.
  unfoldable pub round :
      (ClaimedJob → TenantContext → Outcome) → (Job → Bool) → String → ℕ → System → Ends × System
  round pipeline locked worker stale s =
      process_claimed pipeline (claim locked worker stale now s.tables) s
