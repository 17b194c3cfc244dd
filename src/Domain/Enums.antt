-- ===== src/Domain/Enums.antt =====
-- The fixed vocabularies of src/researchd/domain/enums.py. Types that share a constructor's name stand in
-- modules of their own.
pub mod Work
pub mod Run
pub mod Claim
pub mod Evidence
pub mod Issue
pub mod Decision
pub mod Outbox
pub mod Values
