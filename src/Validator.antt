-- ===== src/Validator.antt =====
-- The validator of extracted accounts (pdf_ingestion/pipeline/validator.py).
pub mod Amounts
pub mod Balances
pub mod Chains
pub mod Fields
pub mod Columns
pub mod Report
