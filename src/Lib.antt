-- ===== src/Lib.antt =====
-- Smart PDF Extractor is a service that takes financial documents as PDF files, extracts their
-- fields and tables with rules and with a language model, and serves the results to its tenants.
-- This library models the parts that keep the service's state and those whose answers the rest
-- relies on, translated from the Python sources and the SQL of the migrations. Paths are those of
-- the repository.
--
-- A document is submitted as a job. The job and its payload go to the tables of the queue; a
-- worker claims a job, runs the pipeline on it, and completes it, fails it or requeues it. The
-- pipeline looks for a template of the document, or for a schema that was discovered and approved
-- before, and sends large documents to the language model in windows of pages, under a budget of
-- tokens and behind a circuit breaker. A document of several kinds is cut into sections first. The
-- pages of a section are assembled into one document first, and a value that a model returns is
-- looked up in it. What the sections give is merged, validated, packaged and delivered. Dashboard
-- users log in, and set rules that raise alerts on use and on failures.
--
-- The files, and the code that each is about:
-- - Queue.antt: pdf_ingestion/db/job_queue.py (JobQueue: enqueue, claim, complete, retry_later,
--   fail), the claim function of
--   pdf_ingestion/db/migrations/versions/20250107_0000_0007_durable_job_queue.py, and create_job,
--   set_status and acknowledge_review of pdf_ingestion/db/job_repo.py. The tables are lists of
--   rows, each operation is a function of the tables, and a lock is a test on rows.
--   Queue/Claim.antt is about claims, Queue/Lease.antt about the lease of a claimed job,
--   Queue/Settled.antt about interleavings of transactions.
-- - Submission.antt: submit_extraction of pdf_ingestion/api/routes/extract.py and
--   pdf_ingestion/pipeline/dedup_store.py. SHA-256 is a parameter, and what fails while a request
--   is served is an argument. Requests are served one after the other; of the run in the process,
--   the start and the removal of the hash after a failure are there. Submission/Duplicates.antt is
--   about documents that were submitted before, Submission/Intake.antt about the way to a worker.
-- - Worker.antt: pdf_ingestion/api/worker.py (_process, _loop, _build_tenant), save_result of the
--   job repository and record_job_result of pdf_ingestion/api/routes/extract.py. The pipeline is a
--   function of the job and its tenant that returns or raises, and which calls of the database
--   raise is a parameter. Worker/Outcomes.antt is about one job, Worker/Retries.antt about its
--   rounds.
-- - Alerts.antt: pdf_ingestion/pipeline/alerts/engine.py and notifier.py. Alerts/Periods.antt has
--   the billing periods, Alerts/History.antt the history and the notifications, Alerts/Engine.antt
--   the rules, the evaluation cycle and the breaker events.
-- - Templates.antt: pdf_ingestion/pipeline/schemas/template_store.py and the template of
--   template_extractor.py. Templates/Postgres.antt is pg_template_store.py, with the order of rows
--   that a query leaves open as a parameter, Templates/Refinement.antt and Templates/Runs.antt
--   compare the two stores. Templates/Choice.antt is a template at work
--   (TemplateExtractor.extract) and the choice among those of a theme (_try_theme_templates of
--   pdf_ingestion/pipeline/schemas/router.py).
-- - Discovery.antt: the fingerprints and schemas of pdf_ingestion/pipeline/models.py
--   (Discovery/Fingerprint.antt), pdf_ingestion/pipeline/discovery/schema_cache.py
--   (Discovery/Cache.antt), pending_schema_store.py (Discovery/Pending.antt), and the route
--   approve_schema of pdf_ingestion/api/routes/chat.py (Discovery/Approval.antt).
-- - Chunked.antt: pdf_ingestion/pipeline/vlm/token_budget.py (Chunked/Budget.antt) and
--   chunked_extractor.py: the tier choice and the windows (Chunked/Windows.antt), the pages that
--   tier 1 asks for (Chunked/Targets.antt), the windows that run at once as a step relation
--   (Chunked/Concurrent.antt), and the merge of the answers (Chunked/Merge.antt).
-- - Bedrock.antt: the circuit breaker and extract_field of
--   pdf_ingestion/pipeline/vlm/bedrock_client.py. What an attempt meets is an argument.
--   Bedrock/Outage.antt is about a service that fails, called by threads that share one client and
--   its breaker, as a step relation.
-- - Segmenter.antt: pdf_ingestion/pipeline/section_segmenter.py, with exact scores; the keyword
--   lists of pdf_ingestion/pipeline/schemas/router.py are parameters.
-- - Checksums.antt: validate_iban, _is_valid_iban, _is_valid_isin and _luhn_check of
--   pdf_ingestion/pipeline/validator.py. Checksums/Iban.antt and Luhn.antt are about misprints.
-- - Validator.antt: the other validators of pdf_ingestion/pipeline/validator.py: those of balances
--   (Validator/Balances.antt), of single fields (Validator/Fields.antt) and of columns
--   (Validator/Columns.antt), on the accounts and amounts of Validator/Amounts.antt, and
--   run_validators (Validator/Report.antt). Validator/Chains.antt is about what the checks of
--   balances find.
-- - Assembler.antt: pdf_ingestion/pipeline/assembler.py: the reading order of the text blocks
--   (Assembler/ReadingOrder.antt), the stitching of tables (Assembler/Stitching.antt) and assemble
--   (Assembler/Whole.antt), on the pages of pdf_ingestion/pipeline/models.py
--   (Assembler/Documents.antt). Assembler/NoBlockLost.antt, NoRowLost.antt and Kept.antt are about
--   what a document keeps of its pages.
-- - Runner.antt: the end of run_pipeline of pdf_ingestion/pipeline/runner.py: the merge of the
--   sections (Runner/Merging.antt), the deduplication of the accounts (Runner/Accounts.antt), and
--   the abstentions that are left, with pdf_ingestion/pipeline/packager.py
--   (Runner/Packaging.antt). Runner/OneAccount.antt and NothingLost.antt count transactions
--   through them. Runner/Healing.antt is the second try of run_pipeline with
--   pdf_ingestion/pipeline/self_healing/diagnostic_retry.py, and Runner/SecondTry.antt is about
--   it. Runner/FirstValue.antt is about the other fields, Runner/Complete.antt about the result.
-- - Verifier.antt: pdf_ingestion/pipeline/vlm/verifier.py, which looks a value from a model up in
--   the document. The ratio of difflib is a parameter. Verifier/Infix.antt is about parts of a
--   text, Verifier/Windows.antt about the searches, Verifier/Grounded.antt about the verdict.
-- - Delivery.antt: pdf_ingestion/pipeline/delivery.py. The HTTP client and the jitter are
--   parameters, and an attempt to deliver is a list of requests and pauses. Delivery/Attempts.antt
--   is about one delivery, Delivery/Batches.antt about batches.
-- - Alerts/Rules.antt: the alert rules of pdf_ingestion/api/routes/admin_alerts.py
--   (create_alert_rule, update_alert_rule, delete_alert_rule); their validation is
--   Alerts/Validation.antt. Alerts/RulesKept.antt is about all requests.
-- - Router.antt: pdf_ingestion/pipeline/schemas/router.py, themes.py and learn_lock.py: the
--   keyword lists (Router/Keywords.antt), the float arithmetic (Router/Floats.antt), the detection
--   of a schema and a theme (Router/Detection.antt), the cascade of extractors, templates and
--   discovery (Router/Cascade.antt), and the callers that wait for the lock of a layout as a step
--   relation (Router/LearnLock.antt). The extractors, the discovery and the synthesis of a
--   template are parameters. Router/Preferred.antt is about the answers, Router/Asked.antt about
--   when the discovery is entered, Router/LearnOnce.antt about the number of discoveries.
-- - Triangulation.antt: pdf_ingestion/pipeline/triangulation.py, with the ratio of difflib as a
--   parameter. Triangulation/Agreement.antt is about the verdicts.
-- - Quality.antt: pdf_ingestion/pipeline/quality_scorer.py, in which an exception is a value. The
--   parsers of dates and numbers are parameters. Quality/Blind.antt is about the rows that the
--   runner scores.
-- - Access.antt: login, logout and refresh of pdf_ingestion/api/routes/admin_auth.py,
--   require_permission of pdf_ingestion/api/middleware/rbac.py, and create_access_token of
--   pdf_ingestion/api/admin/auth_utils.py. The JWT and bcrypt libraries are parameters.
-- - Dict.antt is Python's dict; Prelude.antt has the helpers that all files share; Tests.antt has
--   runs of the model at concrete inputs.
--
-- Conventions. A handler takes the state and returns its answer with the new state. The clock, a
-- new UUID and a lock of another transaction are arguments. Numbers are natural numbers without a
-- bound, as Python's are; times are seconds, amounts, rates, confidences and coordinates are exact
-- where the code has floats: numbers of parts of a unit, of the ℤ of Prelude/Int.antt where they
-- may be negative. Only the scores of Router/Detection.antt are rounded as the code rounds them.
-- The exceptions that a theorem depends on are values. Text whose characters matter is a list of
-- character codes, and letters and white space are those of ASCII.
--
-- Fuel. Three loops are on fuel. The one that makes the sliding windows has the number of pages;
-- every round starts at least one page further, so that this is enough, and more changes nothing.
-- The recursion that orders the text blocks of a page has the number of blocks; both halves of a
-- cut are shorter than the whole, so that it never runs out. The doubling of a number before it is
-- rounded to 53 bits has 200 rounds, enough for all that is 0 or not below 2^-148; the scores are
-- multiples of about 2^-65.
--
-- Not modelled: the calls of the pipeline to its clients for PDF files, OCR and language models,
-- the extraction by regular expressions, the discovery of schemas and the synthesis of templates,
-- the request handling of the other routes, the declarations of the database, and the frontend.
pub mod Access
pub mod Alerts
pub mod Assembler
pub mod Bedrock
pub mod Checksums
pub mod Chunked
pub mod Delivery
pub mod Dict
pub mod Discovery
pub mod Prelude
pub mod Quality
pub mod Queue
pub mod Router
pub mod Runner
pub mod Segmenter
pub mod Submission
pub mod Templates
pub mod Tests
pub mod Triangulation
pub mod Validator
pub mod Verifier
pub mod Worker
