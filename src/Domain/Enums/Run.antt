-- ===== src/Domain/Enums/Run.antt =====
-- src/researchd/domain/enums.py: runs, with `==` on each.
use researchd_agent.Prelude.{Eq, ◌≡◌, ◌↔◌, Bool, true, false, arith}

pub data RunStatus : Type 0 where
  queued starting running succeeded failed interrupted orphaned : RunStatus

abbrev pub run_status_beq : RunStatus → RunStatus → Bool
run_status_beq queued queued = true
run_status_beq starting starting = true
run_status_beq running running = true
run_status_beq succeeded succeeded = true
run_status_beq failed failed = true
run_status_beq interrupted interrupted = true
run_status_beq orphaned orphaned = true
run_status_beq _ _ = false

pub run_status_beq_iff : (a b : RunStatus) → (run_status_beq a b ≡ true) ↔ (a ≡ b)
run_status_beq_iff a b = ground arith

instance abbrev pub run_status_eq : Eq RunStatus
run_status_eq = record { beq = run_status_beq; beq_iff = run_status_beq_iff }
