-- ===== src/Delivery/Batches.antt =====
-- When a batch is delivered (check_and_deliver_batch and on_job_complete of
-- pdf_ingestion/pipeline/delivery.py).
use smart_pdf_extractor.Prelude.{
  ℕ, ◌+◌, ◌≡◌, refl, String, Bool, true, Option, some, List, [], ◌∷◌, arith, if◌then◌else◌,
  count_if, length, ◌==◌, ◌⊎◌, suc, string_eq, ==_iff, ◌++◌, map, All, ap,
}
use smart_pdf_extractor.Delivery.{
  Job, Batch, DeliveryConfig, Delivered, Payload, is_terminal, all_terminal, callback,
  assemble_batch_payload, check_and_deliver_batch, mark_delivery, mark_complete, BatchPayload,
}

abbrev pub is_status : String → Job → Bool
is_status s j = j.status == s

terminal_first : (j : Job) (jobs : List Job) → all_terminal (j ∷ jobs) ≡ true → is_terminal j ≡ true
terminal_first j jobs h = ground (arith, h)

terminal_rest :
    (j : Job) (jobs : List Job) → all_terminal (j ∷ jobs) ≡ true → all_terminal jobs ≡ true
terminal_rest j jobs h = ground (arith, h)

abbrev one : Bool → ℕ
one b = if b then 1 else 0

one_status :
    (j : Job)
    → is_terminal j ≡ true
    → one (is_status "complete" j) + one (is_status "failed" j) + one (is_status "partial" j) ≡ 1
one_status j h = ground (
  arith,
  h,
  ==_iff j.status "complete",
  ==_iff j.status "failed",
  ==_iff j.status "partial",
  ==_iff {K = String} "complete" "failed",
  ==_iff {K = String} "complete" "partial",
  ==_iff {K = String} "failed" "partial",
)

terminal_counts :
    (jobs : List Job)
    → all_terminal jobs ≡ true
    → count_if (is_status "complete") jobs
        + count_if (is_status "failed") jobs
        + count_if (is_status "partial") jobs
      ≡ length jobs
terminal_counts [] h = omega arith
terminal_counts (j ∷ jobs) h =
    omega
      (arith, one_status j (terminal_first j jobs h), terminal_counts jobs (terminal_rest j jobs h))

module _ (deliver_to : Delivered → Bool) where
  -- The check is made at these times, one after the other, with the same jobs: what is delivered.
  abbrev pub check_at :
      Option DeliveryConfig → List Job → List ℕ → Option Batch → Option Batch × List Delivered
  check_at config jobs [] b = (b, [])
  check_at config jobs (now ∷ times) b =
      let (b', ds) = check_and_deliver_batch deliver_to config b (some jobs) now in
      let (b'', rest) = check_at config jobs times b' in (b'', ds ++ rest)

  -- The job is complete, failed or partial.
  abbrev pub HasEnded : Job → Type 0
  HasEnded j = (j.status ≡ "complete") ⊎ (j.status ≡ "failed") ⊎ (j.status ≡ "partial")

  terminal-of : (jobs : List Job) → All HasEnded jobs → all_terminal jobs ≡ true
  terminal-of [] h = refl
  terminal-of (j ∷ jobs) h = ground (
    arith,
    h.0,
    terminal-of jobs h.1,
    ==_iff j.status "complete",
    ==_iff j.status "failed",
    ==_iff j.status "partial",
  )

  -- What one check of an ended batch hands over: its payload, whose counts add up.
  abbrev pub Reports : DeliveryConfig → List Job → Delivered → Type 0
  Reports c jobs d =
      (d.callback_url ≡ c.callback_url)
      × (d.auth_header ≡ c.auth_header)
      × ((p : BatchPayload) × (d.payload ≡ Payload.batch p)
          × (p.results ≡ map (λ (j : Job). (j.id, j.status, j.result)) jobs)
          × (p.jobs_complete + p.jobs_failed + count_if (is_status "partial") jobs ≡ length jobs))

  one_check :
      (config : Option DeliveryConfig) (c : DeliveryConfig) (b : Option Batch) (jobs : List Job)
      (now : ℕ)
      → callback config ≡ some c
      → all_terminal jobs ≡ true
      → (b' : Option Batch) × (d : Delivered) × (check_and_deliver_batch deliver_to config b
            (some jobs)
            now
          ≡ (b', d ∷ []))
        × Reports c jobs d
  unfolding check_and_deliver_batch assemble_batch_payload
  one_check config c b jobs now h e =
      let p = assemble_batch_payload (mark_complete deliver_to now b) jobs now in
      let d : Delivered = record {
        payload = Payload.batch p;
        callback_url = c.callback_url;
        auth_header = c.auth_header;
      } in
      let after = mark_delivery deliver_to (deliver_to d) (mark_complete deliver_to now b) in
      (after, d, simp (h, e) refl, (refl, refl, (p, refl, refl, terminal_counts jobs e)))

  -- Nothing remembers that a batch was delivered: once each of its jobs is complete, failed or
  -- partial, and delivery is enabled and has a URL, every check delivers the batch, as often as it
  -- is made. What is delivered goes to that URL with its header, lists each job with its status and
  -- result, and counts the jobs: those complete, those failed and the partial ones are all of them.
  pub redelivered :
      (config : Option DeliveryConfig) (c : DeliveryConfig) (jobs : List Job) (times : List ℕ)
      (b : Option Batch)
      → callback config ≡ some c
      → All HasEnded jobs
      → let (b', ds) = check_at config jobs times b in
        (length ds ≡ length times) × All (Reports c jobs) ds
  redelivered config c jobs [] b h ended = (refl, tt)
  redelivered config c jobs (now ∷ times) b h ended =
      let (b', d, same, reports) = one_check config c b jobs now h (terminal-of jobs ended) in
      let (counts, all) = redelivered config c jobs times b' h ended in
      rw same (ap suc counts, (reports, all))
