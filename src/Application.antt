-- ===== src/Application.antt =====
-- The application layer, src/researchd/application.
pub mod DecisionGate
pub mod EvidenceValidation
pub mod Audit
pub mod Commands
pub mod Paths
pub mod Registration
pub mod ApplyResult
