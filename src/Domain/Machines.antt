-- ===== src/Domain/Machines.antt =====
-- The concrete machines of src/researchd/domain/state_machine.py, and what their tables allow.
pub mod Tables
pub mod Paths
