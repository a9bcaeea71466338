-- ===== src/Queue/Lease.antt =====
-- The lease of a claimed job (pdf_ingestion/db/job_queue.py and migration 0007), whatever else
-- happens to the queue.
use smart_pdf_extractor.Prelude.{ℕ, ◌≤◌, String, ◌≡◌, ◌≢◌, false, Option, none, some, string_eq}
use smart_pdf_extractor.Queue.{is_queued, Job, Tables}
use smart_pdf_extractor.Queue.Settled.{
  Step, created, enqueued, claimed, done, gave_up, retried, acknowledged, run_in_process,
}

-- The claim of this row, if it has one, is not older than `since`.
abbrev pub ClaimedSince : ℕ → Option ℕ → Type 0
ClaimedSince since none = Unit
ClaimedSince since (some t) = since ≤ t

-- A row with this id is not queued, and was not claimed before `since`.
abbrev pub Leased : String → ℕ → Job → Type 0
Leased jid since k = k.job_id ≡ jid → (is_queued k.status ≡ false) × ClaimedSince since k.claimed_at

-- A transaction that does not put this job back into the queue; a claim is not made before `since`.
abbrev pub Leaves : String → ℕ → {db db' : Tables} → Step db db' → Type 0
Leaves jid since (created i t now) = Unit
Leaves jid since (enqueued p now) = p.job_id ≢ jid
Leaves jid since (claimed locked worker stale now) = since ≤ now
Leaves jid since (done i t nr now) = Unit
Leaves jid since (gave_up i t error now) = Unit
Leaves jid since (retried i t error delay now) = i ≢ jid
Leaves jid since (acknowledged i t) = Unit
Leaves jid since (run_in_process i t st now alone) = is_queued st ≡ false

-- Any transactions of that kind, one after the other.
pub data Meanwhile (jid : String) (since : ℕ) (db : Tables) : Tables → Type 0 where
  nothing : Meanwhile jid since db db
  then_ :
      {mid end : Tables} (st : Step mid end)
      → Leaves jid since st
      → Meanwhile jid since db mid
      → Meanwhile jid since db end
