-- ===== src/Submission.antt =====
-- The submission of a document (submit_extraction of pdf_ingestion/api/routes/extract.py) with the
-- store of hashes of pdf_ingestion/pipeline/dedup_store.py and the tables of the queue. SHA-256 is
-- a parameter; the new UUID, the clock and whether the database or the disk fails are arguments. The
-- tenant's own row and the log are left out.
use smart_pdf_extractor.Prelude.{
  ℕ, String, Bool, true, false, not, ◌&&◌, ◌||◌, Option, none, some, List, [], ◌∷◌, ◌++◌, ltb,
  length, ◌==◌, string_eq, list_eq, nat_eq, if◌then◌else◌, Text, lower, get_or,
}
use smart_pdf_extractor.Dict
use smart_pdf_extractor.Dict.{Dict}
use smart_pdf_extractor.Queue.{Tables, Payload, processing, create_job, enqueue}
pub mod Duplicates
pub mod Intake

-- The cache of hashes, and the file, if it is there and can be read.
pub record DedupStore : Type 0 where
  pub cache : Dict String String
  pub file : Option (Dict String String)

-- `__init__` with `_load`
unfoldable pub load : Option (Dict String String) → DedupStore
load file = record { cache = get_or file []; file = file }

-- `_save`, on a disk that takes the file or raises
abbrev pub save : Bool → DedupStore → DedupStore
save disk_raises d = if disk_raises then d else record d { file = some d.cache }

unfoldable pub lookup_hash : String → DedupStore → Option String
lookup_hash h d = Dict.lookup h d.cache

unfoldable pub store_hash : Bool → String → String → DedupStore → DedupStore
store_hash disk_raises h jid d = save disk_raises (record d { cache = Dict.put h jid d.cache })

unfoldable pub remove_hash : Bool → String → DedupStore → DedupStore
remove_hash disk_raises h d = save disk_raises (record d { cache = Dict.remove h d.cache })

-- An entry of `_JOBS`.
pub record JobEntry : Type 0 where
  pub tenant_id : String
  pub filename : String
  pub doc_hash : String
  pub schema_type : Option String
  pub batch_id : Option String
  pub status : String
  pub priority : String
  pub created_at : ℕ
  pub completed_at : Option ℕ

-- What the route keeps, and the jobs that run in the process itself.
pub record Service : Type 0 where
  pub jobs : Dict String JobEntry
  pub dedup_store : DedupStore
  pub pdf_store : Dict String (List ℕ)
  pub tables : Tables
  pub background : List String

pub record Upload : Type 0 where
  pub file_bytes : List ℕ
  pub filename : String
  pub schema_type : Option String
  pub batch_id : Option String
  pub force_reprocess : Option Text

pub record JobResponse : Type 0 where
  pub job_id : String
  pub status : String

-- What fails while a request is served.
pub record Faults : Type 0 where
  pub create_raises : Bool
  pub enqueue_raises : Bool
  pub disk_raises : Bool

-- "true", "1" and "yes"
abbrev pub is_yes : Text → Bool
is_yes s = s == b't' ∷ b'r' ∷ b'u' ∷ b'e' ∷ [] || s == b'1' ∷ [] || s == b'y' ∷ b'e' ∷ b's' ∷ []

abbrev pub should_force : Option Text → Bool
should_force none = false
should_force (some s) = is_yes (lower s)

module _ (sha256 : List ℕ → String) where
  abbrev pub payload_of : String → String → Upload → Payload
  payload_of jid tid u = record {
    job_id = jid;
    tenant_id = tid;
    content = u.file_bytes;
    filename = u.filename;
    doc_hash = sha256 u.file_bytes;
    schema_type = u.schema_type;
  }

  abbrev pub job_entry : String → ℕ → Upload → JobEntry
  job_entry tid now u = record {
    tenant_id = tid;
    filename = u.filename;
    doc_hash = sha256 u.file_bytes;
    schema_type = u.schema_type;
    batch_id = u.batch_id;
    status = "processing";
    priority = if ltb (length u.file_bytes) 1000000 then "high" else "normal";
    created_at = now;
    completed_at = none;
  }

  -- `_persist_job_create`
  unfoldable pub persist_job_create : Faults → String → String → ℕ → Tables → Tables
  persist_job_create f jid tid now db =
      if f.create_raises then db else create_job jid tid processing now db

  -- `_enqueue_job`
  unfoldable pub enqueue_job : Faults → String → String → ℕ → Upload → Tables → Bool × Tables
  enqueue_job f jid tid now u db =
      if f.enqueue_raises then (false, db) else (true, enqueue (payload_of jid tid u) now db)

  -- The job is noted, its hash and its bytes are kept, and it is queued, or else run in the process.
  unfoldable pub accept : Faults → String → String → ℕ → Upload → Service → JobResponse × Service
  unfolding persist_job_create enqueue_job store_hash
  accept f jid tid now u s =
      let (queued, db) = enqueue_job f jid tid now u (persist_job_create f jid tid now s.tables) in
      (
        record { job_id = jid; status = if queued then "queued" else "processing" },
        record {
          jobs = Dict.put jid (job_entry tid now u) s.jobs;
          dedup_store = store_hash f.disk_raises (sha256 u.file_bytes) jid s.dedup_store;
          pdf_store = Dict.put jid u.file_bytes s.pdf_store;
          tables = db;
          background = if queued then s.background else s.background ++ jid ∷ [];
        },
      )

  -- `if existing_job`: an entry that is not empty.
  abbrev pub existing : Option String → Option String
  existing none = none
  existing (some jid) = if jid == "" then none else some jid

  abbrev pub answer_or_accept :
      Option String → Faults → String → String → ℕ → Upload → Service → JobResponse × Service
  answer_or_accept none f jid tid now u s = accept f jid tid now u s
  answer_or_accept (some first) f jid tid now u s =
      (record { job_id = first; status = "duplicate" }, s)

  unfoldable pub submit_extraction :
      Faults → String → String → ℕ → Upload → Service → JobResponse × Service
  unfolding accept remove_hash
  submit_extraction f jid tid now u s =
      let h = sha256 u.file_bytes in
      if should_force u.force_reprocess
      then accept f jid tid now u
          (record s { dedup_store = remove_hash f.disk_raises h s.dedup_store })
      else answer_or_accept (existing (lookup_hash h s.dedup_store)) f jid tid now u s

-- The end of a run in the process, `_run_pipeline_background`: the hash of a document that failed is
-- forgotten.
unfoldable pub background_failed : Bool → String → Service → Service
unfolding remove_hash
background_failed disk_raises doc_hash s = record s {
  dedup_store = remove_hash disk_raises doc_hash s.dedup_store;
}
