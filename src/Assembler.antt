-- ===== src/Assembler.antt =====
-- The assembler of pages (pdf_ingestion/pipeline/assembler.py).
pub mod Documents
pub mod ReadingOrder
pub mod NoBlockLost
pub mod Stitching
pub mod Whole
pub mod NoRowLost
pub mod Kept
