-- ===== src/Router.antt =====
-- pdf_ingestion/pipeline/schemas/router.py: how a document finds its extractor.
pub mod Keywords
pub mod Floats
pub mod Detection
pub mod Cascade
pub mod Preferred
pub mod Asked
pub mod LearnLock
pub mod LearnOnce
