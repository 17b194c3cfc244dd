-- ===== src/Application/Audit.antt =====
-- The auditor gate, src/researchd/application/audit_gate.py.
pub mod Data
pub mod Candidates
pub mod Gate
pub mod Verdicts
pub mod Outcomes
pub mod Soundness
pub mod SoundRows
