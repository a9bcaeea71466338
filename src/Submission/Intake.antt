-- ===== src/Submission/Intake.antt =====
-- What becomes of a document that is processed anew: the queue hands it to a worker, or the
-- process runs it itself.
use smart_pdf_extractor.Prelude.{ℕ, String, ◌≡◌, false, none, List, [], ◌∷◌, string_eq}
use smart_pdf_extractor.Queue.{Job, Tables, queued}
use smart_pdf_extractor.Submission.{Service, JobResponse, payload_of}
use smart_pdf_extractor.Submission.Duplicates.{Request}

abbrev empty : Tables
empty = record { jobs = []; payloads = [] }

-- The row of a job that was created and enqueued.
abbrev pub queued_job : String → String → ℕ → Job
queued_job jid tid now = record {
  job_id = jid;
  tenant_id = tid;
  status = queued;
  attempts = 0;
  claimed_at = none;
  claimed_by = none;
  available_at = now;
  completed_at = none;
  last_error = none;
  needs_review = false;
}

module _ (sha256 : List ℕ → String) where
  -- The answer and the tables of a document that the database took while the queue was empty.
  abbrev IsQueued : Request → JobResponse × Service → Type 0
  IsQueued r (answer, after) =
      (answer.status ≡ "queued")
      × (after.tables ≡ record {
        jobs = queued_job r.job_id r.tenant_id r.now ∷ [];
        payloads = payload_of sha256 r.job_id r.tenant_id r.upload ∷ [];
      })
