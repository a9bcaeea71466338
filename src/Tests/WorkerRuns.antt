-- ===== src/Tests/WorkerRuns.antt =====
-- A claimed job at a worker of pdf_ingestion/api/worker.py, and the worker's theorems at it.
use smart_pdf_extractor.Prelude.{Text, ◌+◌, ◌≡◌, ◌↔◌, refl, true, false, some, [], ◌∷◌}
use smart_pdf_extractor.Queue.{
  Job, ClaimedJob, processing, failed, truncate, with_payload, start, eligible,
}
use smart_pdf_extractor.Queue.Find.{SameJob}
use smart_pdf_extractor.Worker.{Faults, escaped, System, Outcome, raised, TenantContext, process}
use smart_pdf_extractor.Worker.Outcomes.{process-SameJob, Escapes, process-Escapes}
use smart_pdf_extractor.Worker.Retries.{alone, attempts, retries_end, crashes, crashes_unbounded}
use smart_pdf_extractor.Tests.QueueRuns.{job_at, payload_of}

abbrev oops : Text
oops = 33 ∷ []

abbrev idle : System
idle = record {
  tables = record {
    jobs = start "w0" 30 (job_at "a" 20) ∷ job_at "b" 20 ∷ [];
    payloads = payload_of "a" ∷ payload_of "b" ∷ [];
  };
  tenants = [];
  results = [];
  job_views = [];
  result_views = [];
}

abbrev held : ClaimedJob
held = with_payload (start "w0" 30 (job_at "a" 20)) (payload_of "a")

abbrev broken : ClaimedJob → TenantContext → Outcome
broken _ _ = raised oops

abbrev answering : Faults
answering = record { tenant_raises = false; queue_raises = false; save_raises = false }

-- The last attempt fails, and its result cannot be saved.
process-Escapes_example :
    ((process (record answering { save_raises = true }) 1 "x" 40 broken held idle).0 ≡ escaped)
    ↔ Escapes (record answering { save_raises = true }) 1 1 (raised oops)
process-Escapes_example =
    process-Escapes (record answering { save_raises = true }) 1 "x" 40 broken held idle

process-SameJob_run :
    SameJob "b" "t1" idle.tables (process answering 3 "x" 40 broken held idle).1.tables
process-SameJob_run = process-SameJob answering 3 "x" 40 broken held idle "b" "t1" refl

retries_end_example :
    (j' : Job) × ((attempts answering 3 "x" "w0" 900 oops 3
        (alone (job_at "a" 20) (payload_of "a") idle)).tables
      ≡ record { jobs = j' ∷ []; payloads = [] })
    × (j'.status ≡ failed)
    × (j'.attempts ≡ 3)
    × (j'.last_error ≡ some (truncate oops))
    × (j'.job_id ≡ "a")
retries_end_example =
    retries_end answering 3 "x" "w0" 900 oops 2 (job_at "a" 20) (payload_of "a") idle refl refl refl
      refl refl

available : eligible 900 30 (job_at "a" 20) ≡ true
unfolding eligible
available = refl

-- Seven claims of a job, though a worker gives up after three.
crashes_unbounded_example :
    (j' : Job) × (crashes "w0" 900 30 7
        (record { jobs = job_at "a" 20 ∷ []; payloads = payload_of "a" ∷ [] })
      ≡ record { jobs = j' ∷ []; payloads = payload_of "a" ∷ [] })
    × (j'.status ≡ processing)
    × (j'.attempts ≡ 0 + 7)
crashes_unbounded_example =
    crashes_unbounded "w0" 900 6 30 (job_at "a" 20) (payload_of "a") available refl
