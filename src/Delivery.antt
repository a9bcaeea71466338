-- ===== src/Delivery.antt =====
-- The delivery of results to a tenant's webhook (WebhookDeliveryClient, on_job_complete and
-- check_and_deliver_batch of pdf_ingestion/pipeline/delivery.py). What the endpoint answers to an
-- attempt, and the jitter of a delay, are arguments; delays are whole milliseconds.
pub mod Attempts
pub mod Batches
use smart_pdf_extractor.Prelude.{
  ℕ, zero, suc, ◌+◌, ◌-◌, ◌*◌, ◌^◌, String, Bool, true, false, not, ◌&&◌, ◌||◌, Option, none, some,
  List, [], ◌∷◌, ◌++◌, min, ltb, ◌==◌, string_eq, if◌then◌else◌, any, count_if, length, map,
  is_some,
}

pub record DeliveryAttemptResult : Type 0 where
  pub success : Bool
  pub status_code : Option ℕ
  pub error : Option String
  pub attempt_number : ℕ

-- An attempt is answered with a status code, or raises.
pub data Reply : Type 0 where
  answered : ℕ → Reply
  raised : String → Reply

-- What the client does: a POST with its number, or a pause in milliseconds.
pub data Action : Type 0 where
  post : ℕ → Action
  sleep : ℕ → Action

abbrev pub max_retries : ℕ
max_retries = 3

abbrev pub base_delay_ms : ℕ
base_delay_ms = 1000

abbrev pub max_delay_ms : ℕ
max_delay_ms = 30000

unfoldable pub compute_backoff_with_jitter : ℕ → ℕ → ℕ → ℕ → ℕ
compute_backoff_with_jitter attempt base_delay max_delay jitter =
    min (base_delay * 2 ^ attempt + jitter) max_delay

abbrev pub result_of : ℕ → Reply → DeliveryAttemptResult
result_of attempt (answered code) = record {
  success = ltb code 400;
  status_code = some code;
  error = none;
  attempt_number = attempt;
}
result_of attempt (raised e) = record {
  success = false;
  status_code = none;
  error = some e;
  attempt_number = attempt;
}

abbrev pub exhausted : DeliveryAttemptResult
exhausted = record {
  success = false;
  status_code = none;
  error = some "max_retries_exceeded";
  attempt_number = max_retries;
}

module _ (reply : ℕ → Reply) (jitter : ℕ → ℕ) where
  abbrev pub pause : ℕ → List Action
  pause attempt =
      if ltb attempt max_retries
      then sleep (compute_backoff_with_jitter attempt base_delay_ms max_delay_ms (jitter attempt))
        ∷ []
      else []

  -- The loop, with the attempts that are left.
  unfoldable pub attempts_from : ℕ → ℕ → DeliveryAttemptResult × List Action
  attempts_from zero attempt = (exhausted, [])
  attempts_from (suc left) attempt =
      let result = result_of attempt (reply attempt) in
      let (final, actions) = attempts_from left (attempt + 1) in
      if result.success
      then (result, post attempt ∷ [])
      else (final, post attempt ∷ pause attempt ++ actions)

  unfoldable pub deliver : DeliveryAttemptResult × List Action
  unfolding attempts_from
  deliver = attempts_from max_retries 1

pub record DeliveryConfig : Type 0 where
  pub enabled : Bool
  pub callback_url : String
  pub auth_header : Option String

pub record Job : Type 0 where
  pub id : String
  pub batch_id : Option String
  pub status : String
  pub result : Option String
  pub delivery_status : String

pub record Batch : Type 0 where
  pub batch_id : String
  pub tenant_id : String
  pub status : String
  pub completed_at : Option ℕ
  pub delivery_status : String

pub record BatchPayload : Type 0 where
  pub batch_id : String
  pub tenant_id : String
  pub completed_at : ℕ
  pub jobs_total : ℕ
  pub jobs_complete : ℕ
  pub jobs_failed : ℕ
  pub results : List (String × String × Option String)

pub data Payload : Type 0 where
  standalone : Job → Payload
  batch : BatchPayload → Payload

-- What is handed to the delivery client.
pub record Delivered : Type 0 where
  pub payload : Payload
  pub callback_url : String
  pub auth_header : Option String

-- The URL to deliver to, if delivery is configured, enabled and has one.
abbrev pub callback : Option DeliveryConfig → Option DeliveryConfig
callback none = none
callback (some c) = if not c.enabled then none else if c.callback_url == "" then none else some c

abbrev pub is_terminal : Job → Bool
is_terminal j = (j.status == "complete") || (j.status == "failed") || (j.status == "partial")

abbrev pub all_terminal : List Job → Bool
all_terminal jobs = not (any (λ j. not (is_terminal j)) jobs)

unfoldable pub assemble_batch_payload : Option Batch → List Job → ℕ → BatchPayload
assemble_batch_payload b jobs now = record {
  batch_id = elim b [ none ↦ "" | some b' ↦ b'.batch_id ];
  tenant_id = elim b [ none ↦ "" | some b' ↦ b'.tenant_id ];
  completed_at = now;
  jobs_total = length jobs;
  jobs_complete = count_if (λ j. j.status == "complete") jobs;
  jobs_failed = count_if (λ j. j.status == "failed") jobs;
  results = map (λ (j : Job). (j.id, j.status, j.result)) jobs;
}

-- `deliver_to` is the delivery client: whether it succeeded.
module _ (deliver_to : Delivered → Bool) where
  abbrev pub mark_complete : ℕ → Option Batch → Option Batch
  mark_complete now none = none
  mark_complete now (some b) = some (record b { status = "complete"; completed_at = some now })

  abbrev pub mark_delivery : Bool → Option Batch → Option Batch
  mark_delivery ok none = none
  mark_delivery ok (some b) =
      some (record b { delivery_status = if ok then "delivered" else "delivery_failed" })

  abbrev pub deliver_batch :
      Option DeliveryConfig → Option Batch → List Job → ℕ → Option Batch × List Delivered
  deliver_batch none b jobs now = (b, [])
  deliver_batch (some c) b jobs now =
      let d : Delivered = record {
        payload = Payload.batch (assemble_batch_payload b jobs now);
        callback_url = c.callback_url;
        auth_header = c.auth_header;
      } in
      (mark_delivery (deliver_to d) b, d ∷ [])

  -- `jobs` is None unless the caller has loaded them.
  unfoldable pub check_and_deliver_batch :
      Option DeliveryConfig → Option Batch → Option (List Job) → ℕ → Option Batch × List Delivered
  check_and_deliver_batch config b none now = (b, [])
  check_and_deliver_batch config b (some jobs) now =
      if not (all_terminal jobs)
      then (b, [])
      else deliver_batch (callback config) (mark_complete now b) jobs now

  abbrev pub deliver_standalone : DeliveryConfig → Job → Job × List Delivered
  deliver_standalone c j =
      let d : Delivered = record {
        payload = standalone j;
        callback_url = c.callback_url;
        auth_header = c.auth_header;
      } in
      (if deliver_to d then j else record j { delivery_status = "delivery_failed" }, d ∷ [])

  abbrev pub complete_with :
      Option DeliveryConfig → Option DeliveryConfig → Job → Option String → ℕ → Job × List Delivered
  complete_with config none j b now = (j, [])
  complete_with config (some c) j none now = deliver_standalone c j
  complete_with config (some c) j (some b) now =
      (j, (check_and_deliver_batch config none none now).1)

  unfoldable pub on_job_complete : Option DeliveryConfig → Job → ℕ → Job × List Delivered
  unfolding check_and_deliver_batch
  on_job_complete config j now = complete_with config (callback config) j j.batch_id now
