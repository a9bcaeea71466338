-- ===== src/Queue.antt =====
-- pdf_ingestion/db/job_queue.py, the claim function of migration 0007 and the row operations of
-- pdf_ingestion/db/job_repo.py: the jobs table and the payload table, and each operation as a
-- function from the tables to the tables. `now` is the transaction's NOW(), in seconds.
mod Lemmas
pub mod Find
pub mod Claim
pub mod Settled
pub mod Lease
use smart_pdf_extractor.Prelude.{
  Text, ℕ, ◌+◌, String, Bool, true, false, ◌&&◌, ◌||◌, not, Option, none, some, List, [], ◌∷◌, ◌++◌,
  map, ltb, leb, if◌then◌else◌, ◌==◌, string_eq, any, select, take,
}

pub data Status : Type 0 where
  queued processing complete failed : Status

pub record Job : Type 0 where
  pub job_id : String
  pub tenant_id : String
  pub status : Status
  pub attempts : ℕ
  pub claimed_at : Option ℕ
  pub claimed_by : Option String
  pub available_at : ℕ
  pub completed_at : Option ℕ
  pub last_error : Option Text
  pub needs_review : Bool

pub record Payload : Type 0 where
  pub job_id : String
  pub tenant_id : String
  pub content : List ℕ
  pub filename : String
  pub doc_hash : String
  pub schema_type : Option String

pub record ClaimedJob : Type 0 where
  pub job_id : String
  pub tenant_id : String
  pub attempts : ℕ
  pub content : List ℕ
  pub filename : String
  pub doc_hash : String
  pub schema_type : Option String

pub record Tables : Type 0 where
  pub jobs : List Job
  pub payloads : List Payload

abbrev pub is_queued : Status → Bool
is_queued queued = true
is_queued _ = false

abbrev pub is_processing : Status → Bool
is_processing processing = true
is_processing _ = false

-- `WHERE id = :jid AND tenant_id = :tid`
abbrev pub row_is : String → String → Job → Bool
row_is jid tid j = j.job_id == jid && j.tenant_id == tid

abbrev pub payload_is : String → String → Payload → Bool
payload_is jid tid p = p.job_id == jid && p.tenant_id == tid

-- `UPDATE jobs SET … WHERE …`
abbrev pub update_where : (Job → Bool) → (Job → Job) → List Job → List Job
update_where p f [] = []
update_where p f (j ∷ js) = (if p j then f j else j) ∷ update_where p f js

-- `error[:1000]`
unfoldable pub truncate : Text → Text
truncate e = take 1000 e

-- `INSERT INTO job_payloads … ON CONFLICT (job_id) DO NOTHING`
unfoldable pub insert_payload : Payload → List Payload → List Payload
insert_payload p ps = if any (λ q. q.job_id == p.job_id) ps then ps else ps ++ p ∷ []

-- `DELETE FROM job_payloads WHERE job_id = :jid AND tenant_id = :tid`
unfoldable pub delete_payload : String → String → List Payload → List Payload
delete_payload jid tid ps = select (λ p. not (payload_is jid tid p)) ps

-- `INSERT INTO jobs … ON CONFLICT (id) DO NOTHING`, with the columns' server defaults.
unfoldable pub create_job : String → String → Status → ℕ → Tables → Tables
create_job jid tid st now db =
    let row : Job = record {
      job_id = jid;
      tenant_id = tid;
      status = st;
      attempts = 0;
      claimed_at = none;
      claimed_by = none;
      available_at = now;
      completed_at = none;
      last_error = none;
      needs_review = false;
    } in
    if any (λ j. j.job_id == jid) db.jobs then db else record db { jobs = db.jobs ++ row ∷ [] }

unfoldable pub enqueue : Payload → ℕ → Tables → Tables
unfolding insert_payload
enqueue p now db = record {
  payloads = insert_payload p db.payloads;
  jobs =
      update_where (row_is p.job_id p.tenant_id)
        (λ j. record j { status = queued; available_at = now }) db.jobs;
}

-- `claimed_at < NOW() - make_interval(secs => stale)`; a comparison with NULL does not hold.
abbrev pub is_stale : ℕ → ℕ → Option ℕ → Bool
is_stale stale now none = false
is_stale stale now (some t) = ltb (t + stale) now

-- The WHERE clause of the claim function's subquery.
unfoldable pub eligible : ℕ → ℕ → Job → Bool
eligible stale now j =
    is_queued j.status && leb j.available_at now
    || is_processing j.status && is_stale stale now j.claimed_at

abbrev pub earlier : Job → Option Job → Option Job
earlier j none = some j
earlier j (some k) = if leb j.available_at k.available_at then some j else some k

-- `ORDER BY available_at LIMIT 1`; of rows that tie, the first of the table.
unfoldable pub pick : (Job → Bool) → List Job → Option Job
pick p [] = none
pick p (j ∷ js) = let rest = pick p js in if p j then earlier j rest else rest

-- The SET clause of the claim function.
abbrev pub start : String → ℕ → Job → Job
start worker now j = record j {
  status = processing;
  attempts = j.attempts + 1;
  claimed_at = some now;
  claimed_by = some worker;
}

-- claim_next_job(worker, stale). `locked` are the rows that other transactions hold, which
-- FOR UPDATE SKIP LOCKED passes over.
unfoldable pub claim_next_job : (Job → Bool) → String → ℕ → ℕ → Tables → Option Job × Tables
claim_next_job locked worker stale now db =
    elim (pick (λ j. eligible stale now j && not (locked j)) db.jobs) [
      | none ↦ (none, db)
      | some j ↦ (
        some (start worker now j),
        record db { jobs = update_where (λ k. k.job_id == j.job_id) (start worker now) db.jobs },
      )
    ]

unfoldable pub find_payload : String → String → List Payload → Option Payload
find_payload jid tid [] = none
find_payload jid tid (p ∷ ps) = if payload_is jid tid p then some p else find_payload jid tid ps

-- A job leaves the queue: the SET clauses of `complete` and of `fail`.
abbrev pub completed : Bool → ℕ → Job → Job
completed nr now j = record j {
  status = complete;
  completed_at = some now;
  needs_review = nr;
  claimed_at = none;
}

abbrev pub failed_with : Text → ℕ → Job → Job
failed_with error now j = record j {
  status = failed;
  completed_at = some now;
  last_error = some (truncate error);
  claimed_at = none;
}

unfoldable pub complete_job : String → String → Bool → ℕ → Tables → Tables
complete_job jid tid nr now db = record {
  jobs = update_where (row_is jid tid) (completed nr now) db.jobs;
  payloads = delete_payload jid tid db.payloads;
}

unfoldable pub fail : String → String → Text → ℕ → Tables → Tables
fail jid tid error now db = record {
  jobs = update_where (row_is jid tid) (failed_with error now) db.jobs;
  payloads = delete_payload jid tid db.payloads;
}

-- `JobRepo.set_status`, by which a run in the process ends its job.
unfoldable pub set_status : String → String → Status → ℕ → Tables → Tables
set_status jid tid st now db = record db {
  jobs =
      update_where (row_is jid tid) (λ j. record j { status = st; completed_at = some now })
        db.jobs;
}

abbrev pub requeued : Text → ℕ → ℕ → Job → Job
requeued error delay now j = record j {
  status = queued;
  available_at = now + delay;
  last_error = some (truncate error);
  claimed_at = none;
}

unfoldable pub retry_later : String → String → Text → ℕ → ℕ → Tables → Tables
retry_later jid tid error delay now db = record db {
  jobs = update_where (row_is jid tid) (requeued error delay now) db.jobs;
}

-- "payload missing"
abbrev pub payload_missing : Text
payload_missing =
    112 ∷ 97 ∷ 121 ∷ 108 ∷ 111 ∷ 97 ∷ 100 ∷ 32 ∷ 109 ∷ 105 ∷ 115 ∷ 115 ∷ 105 ∷ 110 ∷ 103 ∷ []

abbrev pub with_payload : Job → Payload → ClaimedJob
with_payload j p = record {
  job_id = j.job_id;
  tenant_id = j.tenant_id;
  attempts = j.attempts;
  content = p.content;
  filename = p.filename;
  doc_hash = p.doc_hash;
  schema_type = p.schema_type;
}

-- The second half of `claim`: the payload is loaded, and a job without one fails at once.
unfoldable pub load_payload : Job → ℕ → Tables → Option ClaimedJob × Tables
load_payload j now db = elim (find_payload j.job_id j.tenant_id db.payloads) [
  | none ↦ (none, fail j.job_id j.tenant_id payload_missing now db)
  | some p ↦ (some (with_payload j p), db)
]

unfoldable pub claim : (Job → Bool) → String → ℕ → ℕ → Tables → Option ClaimedJob × Tables
unfolding claim_next_job load_payload
claim locked worker stale now db =
    let (row, db') = claim_next_job locked worker stale now db in
    elim row [ none ↦ (none, db') | some j ↦ load_payload j now db' ]

-- `acknowledge_review`: whether a row was flagged, and the flag cleared.
unfoldable pub acknowledge_review : String → String → Tables → Bool × Tables
acknowledge_review jid tid db =
    let flagged : (Job → Bool) = λ j. row_is jid tid j && j.needs_review in
    (
      any flagged db.jobs,
      record db { jobs = update_where flagged (λ j. record j { needs_review = false }) db.jobs },
    )
