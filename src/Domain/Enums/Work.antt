-- ===== src/Domain/Enums/Work.antt =====
-- src/researchd/domain/enums.py: tasks, projects and verdicts, with `==` on each.
use researchd_agent.Prelude.{Eq, ◌≡◌, ◌↔◌, Bool, true, false, arith}

pub data TaskStatus : Type 0 where
  proposed ready running blocked review completed failed cancelled : TaskStatus

abbrev pub task_status_beq : TaskStatus → TaskStatus → Bool
task_status_beq proposed proposed = true
task_status_beq ready ready = true
task_status_beq running running = true
task_status_beq blocked blocked = true
task_status_beq review review = true
task_status_beq completed completed = true
task_status_beq failed failed = true
task_status_beq cancelled cancelled = true
task_status_beq _ _ = false

pub task_status_beq_iff : (a b : TaskStatus) → (task_status_beq a b ≡ true) ↔ (a ≡ b)
task_status_beq_iff a b = ground arith

instance abbrev pub task_status_eq : Eq TaskStatus
task_status_eq = record { beq = task_status_beq; beq_iff = task_status_beq_iff }

pub data ProjectStatus : Type 0 where
  active paused cancelled archived : ProjectStatus

abbrev pub project_status_beq : ProjectStatus → ProjectStatus → Bool
project_status_beq active active = true
project_status_beq paused paused = true
project_status_beq cancelled cancelled = true
project_status_beq archived archived = true
project_status_beq _ _ = false

pub project_status_beq_iff : (a b : ProjectStatus) → (project_status_beq a b ≡ true) ↔ (a ≡ b)
project_status_beq_iff a b = ground arith

instance abbrev pub project_status_eq : Eq ProjectStatus
project_status_eq = record { beq = project_status_beq; beq_iff = project_status_beq_iff }

pub data AuditVerdict : Type 0 where
  accept revise block reject : AuditVerdict

abbrev pub audit_verdict_beq : AuditVerdict → AuditVerdict → Bool
audit_verdict_beq accept accept = true
audit_verdict_beq revise revise = true
audit_verdict_beq block block = true
audit_verdict_beq reject reject = true
audit_verdict_beq _ _ = false

pub audit_verdict_beq_iff : (a b : AuditVerdict) → (audit_verdict_beq a b ≡ true) ↔ (a ≡ b)
audit_verdict_beq_iff a b = ground arith

instance abbrev pub audit_verdict_eq : Eq AuditVerdict
audit_verdict_eq = record { beq = audit_verdict_beq; beq_iff = audit_verdict_beq_iff }

pub data TaskRole : Type 0 where
  interaction planner worker_default literature_worker analysis_worker auditor cross_model_reviewer
        report_compressor manuscript_writer :
      TaskRole

abbrev pub task_role_beq : TaskRole → TaskRole → Bool
task_role_beq interaction interaction = true
task_role_beq planner planner = true
task_role_beq worker_default worker_default = true
task_role_beq literature_worker literature_worker = true
task_role_beq analysis_worker analysis_worker = true
task_role_beq auditor auditor = true
task_role_beq cross_model_reviewer cross_model_reviewer = true
task_role_beq report_compressor report_compressor = true
task_role_beq manuscript_writer manuscript_writer = true
task_role_beq _ _ = false

pub task_role_beq_iff : (a b : TaskRole) → (task_role_beq a b ≡ true) ↔ (a ≡ b)
task_role_beq_iff a b = ground arith

instance abbrev pub task_role_eq : Eq TaskRole
task_role_eq = record { beq = task_role_beq; beq_iff = task_role_beq_iff }
