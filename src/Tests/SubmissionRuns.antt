-- ===== src/Tests/SubmissionRuns.antt =====
-- A document submitted twice, and the theorems at it.
use smart_pdf_extractor.Prelude.{
  ℕ, ◌≡◌, refl, String, false, none, List, [], ◌∷◌, arith, ==_iff, string_eq, if◌then◌else◌, inl,
  inr, nat_beq,
}
use smart_pdf_extractor.Dict
use smart_pdf_extractor.Submission.{Service, Upload, load, lookup_hash}
use smart_pdf_extractor.Submission.Duplicates.{
  Request, Event, served, run_failed, submit, happen_all, processed_once,
}

-- A hash that tells the documents of this file apart.
abbrev sha256 : List ℕ → String
sha256 [] = "h0"
sha256 (b ∷ bs) = if nat_beq b 1 then "h1" else "h2"

abbrev upload : List ℕ → Upload
upload bytes = record {
  file_bytes = bytes;
  filename = "a.pdf";
  schema_type = none;
  batch_id = none;
  force_reprocess = none;
}

abbrev request : String → String → List ℕ → Request
request jid tid bytes = record {
  faults = record { create_raises = false; enqueue_raises = false; disk_raises = false };
  job_id = jid;
  tenant_id = tid;
  now = 50;
  upload = upload bytes;
}

abbrev fresh : Service
fresh = record {
  jobs = [];
  dedup_store = load none;
  pdf_store = [];
  tables = record { jobs = []; payloads = [] };
  background = [];
}

-- Another document is submitted and fails in the process; then another tenant is answered with the
-- first tenant's job.
abbrev events : List Event
events = served (request "j2" "t2" (2 ∷ [])) ∷ run_failed false "h2" ∷ []

processed_once_example :
    let before = happen_all sha256 events (submit sha256 (request "j1" "t1" (1 ∷ [])) fresh).1 in
    submit sha256 (request "j3" "t2" (1 ∷ [])) before
    ≡ (record { job_id = "j1"; status = "duplicate" }, before)
unfolding lookup_hash Dict.lookup load
processed_once_example =
    processed_once sha256 (request "j1" "t1" (1 ∷ [])) events (request "j3" "t2" (1 ∷ [])) fresh
      (ground (arith, ==_iff {K = String} "j1" "")) (inr refl)
      (inl refl, ((ground (arith, ==_iff {K = String} "h2" "h1")), tt)) refl refl
