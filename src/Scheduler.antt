-- ===== src/Scheduler.antt =====
-- The scheduler, src/researchd/scheduler.
pub mod Leases
pub mod Locks
pub mod Readiness
pub mod Delivery
pub mod Dispatch
pub mod Collect
pub mod Sender
pub mod Success
pub mod Auditing
pub mod Loop
