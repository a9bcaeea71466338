-- ===== src/Chunked.antt =====
-- pdf_ingestion/pipeline/vlm: large documents are read by the language model in windows of pages,
-- under a budget of tokens.
pub mod Budget
pub mod Concurrent
pub mod Windows
pub mod Targets
pub mod Asked
pub mod Coverage
pub mod Merge
pub mod Dedup
