-- ===== src/Discovery.antt =====
-- pdf_ingestion/pipeline/discovery and the approval of pdf_ingestion/api/routes/chat.py: schemas
-- that a language model discovered wait for a user's approval, and then serve later documents.
pub mod Fingerprint
pub mod Cache
pub mod Pending
pub mod CacheLaws
pub mod PendingLaws
pub mod Approval
