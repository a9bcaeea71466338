-- ===== src/Alerts.antt =====
-- pdf_ingestion/pipeline/alerts: the alert engine. Periods has the billing periods, History the
-- notifications and the alert history, Engine the rules, their evaluation and the breaker events.
pub mod Periods
pub mod History
pub mod Engine
pub mod OneOpen
pub mod Breaker
pub mod Validation
pub mod Rules
pub mod RulesKept
