-- ===== src/Runner.antt =====
-- How the runner makes one result of the sections of a document (phase 3 of process_document of
-- pdf_ingestion/pipeline/runner.py) and how the result is packaged
-- (pdf_ingestion/pipeline/packager.py).
pub mod Merging
pub mod Accounts
pub mod Packaging
pub mod OneAccount
pub mod NothingLost
pub mod FirstValue
pub mod Complete
pub mod Healing
pub mod SecondTry
