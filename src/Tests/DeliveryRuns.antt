-- ===== src/Tests/DeliveryRuns.antt =====
-- A delivery that succeeds at the third attempt, and a batch of two jobs.
use smart_pdf_extractor.Prelude.{
  ℕ, ◌≡◌, refl, String, Bool, true, Option, none, some, List, [], ◌∷◌, if◌then◌else◌, ltb, length,
  All, inl, inr,
}
use smart_pdf_extractor.Delivery.{
  Reply, answered, raised, Job, Batch, DeliveryConfig, Delivered, on_job_complete,
}
use smart_pdf_extractor.Delivery.Batches.{HasEnded, check_at, Reports, redelivered}

abbrev reply : ℕ → Reply
reply n = if ltb n 2 then raised "timeout" else if ltb n 3 then answered 503 else answered 200

abbrev jitter : ℕ → ℕ
jitter n = 250

abbrev job : String → String → Job
job id status = record {
  id = id;
  batch_id = some "b1";
  status = status;
  result = none;
  delivery_status = "pending";
}

abbrev batch : Batch
batch = record {
  batch_id = "b1";
  tenant_id = "t1";
  status = "processing";
  completed_at = none;
  delivery_status = "pending";
}

abbrev jobs : List Job
jobs = job "j1" "complete" ∷ job "j2" "partial" ∷ []

abbrev to_url : DeliveryConfig
to_url = record { enabled = true; callback_url = "https://t1.example"; auth_header = none }

abbrev config : Option DeliveryConfig
config = some to_url

abbrev accepts : Delivered → Bool
accepts d = true

-- The last job of a batch is complete: nothing is delivered.
batch_undelivered : on_job_complete accepts config (job "j2" "partial") 9 ≡ (job "j2" "partial", [])
unfolding on_job_complete
batch_undelivered = refl

jobs-HasEnded : All (HasEnded accepts) jobs
jobs-HasEnded = (inl refl, (inr (inr refl), tt))

-- Three checks deliver three times.
redelivered_example :
    let (b, ds) = check_at accepts config jobs (9 ∷ 10 ∷ 11 ∷ []) (some batch) in
    (length ds ≡ 3) × All (Reports accepts to_url jobs) ds
redelivered_example =
    redelivered accepts config to_url jobs (9 ∷ 10 ∷ 11 ∷ []) (some batch) refl jobs-HasEnded
