-- ===== src/Queue/Find.antt =====
-- The row and the payload of one job, before and after the table operations of the queue.
use smart_pdf_extractor.Prelude.{
  Text, ℕ, String, ◌≡◌, refl, Bool, false, Option, none, some, List, [], ◌∷◌, arith, ◌==◌,
  string_eq, ==_iff, if◌then◌else◌, ◌&&◌, Bool-cases, inl, inr,
}
use smart_pdf_extractor.Queue.{
  Job, Payload, Tables, row_is, update_where, find_payload, delete_payload, completed, failed_with,
  requeued, complete_job, fail, retry_later,
}

-- The row with this id and tenant, as `WHERE id = :jid AND tenant_id = :tid` finds it.
unfoldable pub find_job : String → String → List Job → Option Job
find_job jid tid [] = none
find_job jid tid (j ∷ js) = if row_is jid tid j then some j else find_job jid tid js

-- An update of a row does not change its key.
pub record KeepsKey (f : Job → Job) : Type 0 where
  pub id : (j : Job) → (f j).job_id ≡ j.job_id
  pub tenant : (j : Job) → (f j).tenant_id ≡ j.tenant_id

module _ (jid tid : String) (f : Job → Job) (keeps : KeepsKey f) where
  -- An update of one job's row leaves the row of every other job alone.
  pub find_job-update_ne :
      (jid' tid' : String) (js : List Job)
      → ((jid == jid') && (tid == tid')) ≡ false
      → find_job jid' tid' (update_where (row_is jid tid) f js) ≡ find_job jid' tid' js
  unfolding find_job
  find_job-update_ne jid' tid' [] h = refl
  find_job-update_ne jid' tid' (j ∷ js) h = elim (Bool-cases (row_is jid tid j)) [
    | inl e ↦
        rw (e, keeps.id j, keeps.tenant j)
          (ground (
            arith,
            find_job-update_ne jid' tid' js h,
            ==_iff j.job_id jid,
            ==_iff j.tenant_id tid,
            ==_iff j.job_id jid',
            ==_iff j.tenant_id tid',
            ==_iff jid jid',
            ==_iff tid tid',
          ))
    | inr e ↦ rw e (ground (arith, find_job-update_ne jid' tid' js h))
  ]

module _ (jid tid : String) where
  pub find_payload-delete_ne :
      (jid' tid' : String) (ps : List Payload)
      → ((jid == jid') && (tid == tid')) ≡ false
      → find_payload jid' tid' (delete_payload jid tid ps) ≡ find_payload jid' tid' ps
  unfolding find_payload delete_payload
  find_payload-delete_ne jid' tid' [] h = refl
  find_payload-delete_ne jid' tid' (p ∷ ps) h = ground (
    arith,
    find_payload-delete_ne jid' tid' ps h,
    ==_iff p.job_id jid,
    ==_iff p.tenant_id tid,
    ==_iff p.job_id jid',
    ==_iff p.tenant_id tid',
    ==_iff jid jid',
    ==_iff tid tid',
  )

completed_keeps : (nr : Bool) (now : ℕ) → KeepsKey (completed nr now)
completed_keeps nr now = record { id = λ j. refl; tenant = λ j. refl }

failed_keeps : (e : Text) (now : ℕ) → KeepsKey (failed_with e now)
failed_keeps e now = record { id = λ j. refl; tenant = λ j. refl }

requeued_keeps : (e : Text) (delay now : ℕ) → KeepsKey (requeued e delay now)
requeued_keeps e delay now = record { id = λ j. refl; tenant = λ j. refl }

-- The rows and the payload of one job are the same in both tables.
pub record SameJob (jid tid : String) (db db' : Tables) : Type 0 where
  pub row : find_job jid tid db'.jobs ≡ find_job jid tid db.jobs
  pub payload : find_payload jid tid db'.payloads ≡ find_payload jid tid db.payloads

pub SameJob-refl : (jid tid : String) (db : Tables) → SameJob jid tid db db
SameJob-refl jid tid db = record { row = refl; payload = refl }

-- Each operation that ends or requeues a job, seen from any other job.
module _ (jid tid jid' tid' : String) (other : ((jid == jid') && (tid == tid')) ≡ false) where
  pub SameJob-complete :
      (nr : Bool) (now : ℕ) (db : Tables) → SameJob jid' tid' db (complete_job jid tid nr now db)
  unfolding complete_job
  SameJob-complete nr now db = record {
    row = find_job-update_ne jid tid _ (completed_keeps nr now) jid' tid' db.jobs other;
    payload = find_payload-delete_ne jid tid jid' tid' db.payloads other;
  }

  pub SameJob-fail :
      (e : Text) (now : ℕ) (db : Tables) → SameJob jid' tid' db (fail jid tid e now db)
  unfolding fail
  SameJob-fail e now db = record {
    row = find_job-update_ne jid tid _ (failed_keeps e now) jid' tid' db.jobs other;
    payload = find_payload-delete_ne jid tid jid' tid' db.payloads other;
  }

  pub SameJob-retry :
      (e : Text) (delay now : ℕ) (db : Tables)
      → SameJob jid' tid' db (retry_later jid tid e delay now db)
  unfolding retry_later
  SameJob-retry e delay now db = record {
    row = find_job-update_ne jid tid _ (requeued_keeps e delay now) jid' tid' db.jobs other;
    payload = refl;
  }
