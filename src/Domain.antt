-- ===== src/Domain.antt =====
-- The domain objects, src/researchd/domain.
pub mod Enums
pub mod StateMachine
pub mod Machines
pub mod Task
pub mod Evidence
pub mod Claim
pub mod Issue
pub mod Decision
pub mod Run
pub mod Project
pub mod Event
pub mod Base
