-- ===== src/Persistence.antt =====
-- Tables and the repositories over them, src/researchd/persistence.
pub mod Table
pub mod Outbox
pub mod Repository
pub mod Rows
