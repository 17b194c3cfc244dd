-- ===== src/Application/ApplyResult.antt =====
-- src/researchd/application/apply_result.py: a worker's result is applied to the tables.
pub mod Data
pub mod ArtifactRows
pub mod EvidenceRows
pub mod ClaimRows
pub mod Whole
pub mod Saved
pub mod Backing
pub mod Parts
pub mod Replay
pub mod ForeignClaims
pub mod Untouched
pub mod Unverified
