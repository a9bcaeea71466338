-- ===== src/Queue/Settled.antt =====
-- A job that has ended (complete or failed) holds no claim and keeps no input: what every
-- operation of pdf_ingestion/db/job_queue.py preserves.
use smart_pdf_extractor.Prelude.{
  Text, ℕ, String, ◌≡◌, Bool, true, false, none, List, [], ◌∷◌, ◌++◌, string_eq, any, All,
}
use smart_pdf_extractor.Queue.{
  Status, processing, complete, failed, Job, Payload, Tables, row_is, payload_is, create_job,
  enqueue, claim_next_job, complete_job, fail, retry_later, acknowledge_review, set_status,
}

abbrev pub is_terminal : Status → Bool
is_terminal complete = true
is_terminal failed = true
is_terminal _ = false

abbrev pub has_payload : String → String → List Payload → Bool
has_payload jid tid ps = any (payload_is jid tid) ps

abbrev pub Settled : List Payload → Job → Type 0
Settled ps j =
    is_terminal j.status ≡ true
    → (j.claimed_at ≡ none) × (has_payload j.job_id j.tenant_id ps ≡ false)

abbrev pub AllSettled : Tables → Type 0
AllSettled db = All (Settled db.payloads) db.jobs

pub All-snoc {ℓ} :
    (P : Job → Type ℓ) (js : List Job) (j : Job) → All P js → P j → All P (js ++ j ∷ [])
All-snoc P [] j h e = (e, tt)
All-snoc P (k ∷ js) j h e = (h.0, All-snoc P js j h.1 e)

-- A job that no worker holds and that has no input in the queue: its enqueueing failed, so that it
-- is run in the process.
abbrev pub RunsInProcess : String → String → Tables → Type 0
RunsInProcess jid tid db =
    All (λ j. row_is jid tid j ≡ true → j.claimed_at ≡ none) db.jobs
    × (has_payload jid tid db.payloads ≡ false)

-- One transaction on the queue's tables. The time, the worker and the locks are the environment's.
pub data Step (db : Tables) : Tables → Type 0 where
  created : (jid tid : String) (now : ℕ) → Step db (create_job jid tid processing now db)
  enqueued : (p : Payload) (now : ℕ) → Step db (enqueue p now db)
  claimed :
      (locked : Job → Bool) (worker : String) (stale now : ℕ)
      → Step db (claim_next_job locked worker stale now db).1
  done : (jid tid : String) (nr : Bool) (now : ℕ) → Step db (complete_job jid tid nr now db)
  gave_up : (jid tid : String) (error : Text) (now : ℕ) → Step db (fail jid tid error now db)
  retried :
      (jid tid : String) (error : Text) (delay now : ℕ)
      → Step db (retry_later jid tid error delay now db)
  acknowledged : (jid tid : String) → Step db (acknowledge_review jid tid db).1
  run_in_process :
      (jid tid : String) (st : Status) (now : ℕ)
      → RunsInProcess jid tid db
      → Step db (set_status jid tid st now db)

-- What the queue can become, by any interleaving of the transactions of its workers.
pub data Interleaved (db : Tables) : Tables → Type 0 where
  untouched : Interleaved db db
  after : {mid end : Tables} → Step mid end → Interleaved db mid → Interleaved db end
