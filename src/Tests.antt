-- ===== src/Tests.antt =====
-- Runs of the model at concrete inputs, and the instances of the theorems at them.
mod QueueRuns
mod WorkerRuns
mod AlertRuns
mod TemplateRuns
mod DiscoveryRuns
mod ChunkedRuns
mod ChecksumRuns
mod AccessRuns
mod SegmenterRuns
mod BedrockRuns
mod SubmissionRuns
mod AssemblerRuns
mod RouterRuns
mod QualityRuns
mod ReportRuns
mod HealingRuns
mod TriangulationRuns
mod RunnerRuns
mod VerifierRuns
mod ValidatorRuns
mod DeliveryRuns
mod RuleRuns
