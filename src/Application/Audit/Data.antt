-- ===== src/Application/Audit/Data.antt =====
-- What src/researchd/application/audit_gate.py reads and writes: its tables, the auditor's result as
-- executors/base.py declares it, its counters and its errors.
use Prim.Native.String.{◌++◌ as str_append}
use researchd_agent.Application.EvidenceValidation.{Records, ValidationError, sought_run}
use researchd_agent.Domain.Base.{DomainModel}
use researchd_agent.Domain.Enums.Work.{TaskStatus, AuditVerdict, task_status_eq, audit_verdict_eq}
use researchd_agent.Domain.Evidence.{Evidence, EvidenceError}
use researchd_agent.Domain.Run.{Run}
use researchd_agent.Domain.StateMachine.{InvalidTransition}
use researchd_agent.Domain.Task.{Task}
use researchd_agent.Persistence.Repository.{StaleVersion}
use researchd_agent.Prelude.{
  if◌then◌else◌, ◌==◌, nat_eq, string_eq, any, given, ℕ, zero, suc, String, Bool, true, false,
  Option, none, some, List, [], ◌∷◌, option_eq,
}

-- the tables, by domain object, and the events that audits append
pub record AuditEvent : Type 0 where
  pub idempotency_key : String
  pub aggregate_id : String
  pub aggregate_version : ℕ
  pub event_run_id : String
  pub event_worker_run_id : String
  pub event_verdict : AuditVerdict

pub record AuditDb : Type 0 where
  pub records : Records
  pub tasks : List Task
  pub evidence : List Evidence
  pub events : List AuditEvent

-- the fields of executors/base.py that the gate reads
pub data CheckStatus : Type 0 where
  check_pass check_fail check_warn : CheckStatus

pub record AuditCheck : Type 0 where
  pub check_status : CheckStatus
  pub summary : String

pub data ToStatus : Type 0 where
  to_verified to_contested to_invalid to_superseded : ToStatus

pub record EvidenceStatusChange : Type 0 where
  pub changed_id : String
  pub to_status : ToStatus

-- `revision_request` is what `str(...)` makes of a request that is not empty
pub record AuditResult : Type 0 where
  pub verdict : AuditVerdict
  pub checks : List AuditCheck
  pub evidence_status_changes : List EvidenceStatusChange
  pub revision_request : Option String

pub record Counts : Type 0 where
  pub verified_evidence : ℕ
  pub revised : ℕ
  pub blocked : ℕ
  pub rejected : ℕ
  pub completed : ℕ

pub data AuditError : Type 0 where
  worker_run_missing not_in_review : AuditError
  task_refused : InvalidTransition TaskStatus → AuditError
  evidence_refused : EvidenceError → AuditError
  validation_failed : ValidationError → AuditError
  stale_version : StaleVersion → AuditError

pub data Outcome : Type 0 where
  replayed : Outcome
  applied : Counts → Outcome

abbrev pub no_counts : Counts
no_counts = record { verified_evidence = 0; revised = 0; blocked = 0; rejected = 0; completed = 0 }

unfoldable pub audit_key : String → String
audit_key run_id = str_append "audit-applied:" run_id

abbrev pub already_applied : AuditDb → String → Bool
already_applied db run_id = any (λ ev. ev.idempotency_key == audit_key run_id) db.events

abbrev pub base_of_task : Task → DomainModel
base_of_task t = t.base

abbrev pub with_task_base : DomainModel → Task → Task
with_task_base b t = record t { base = b }

abbrev pub base_of_evidence : Evidence → DomainModel
base_of_evidence e = e.base

abbrev pub with_evidence_base : DomainModel → Evidence → Evidence
with_evidence_base b e = record e { base = b }

-- `a or b` for texts that may be `None`
abbrev pub or_else : Option String → Option String → Option String
or_else a b = if given a then a else b

abbrev pub worker_run_id_of : Run → Task → Option String
worker_run_id_of audit_run t = or_else audit_run.metadata.worker_run_id t.current_run_id

unfoldable pub worker_run_of : AuditDb → Run → Task → Option Run
worker_run_of db audit_run t = sought_run db.records (worker_run_id_of audit_run t)

abbrev pub is_fail : CheckStatus → Bool
is_fail check_fail = true
is_fail _ = false

abbrev pub failing : AuditCheck → Bool
failing c = is_fail c.check_status

-- `s[:n]`
unfoldable pub first_chars : ℕ → String → String
first_chars zero s = ""
first_chars (suc n) String.[] = ""
first_chars (suc n) (String.◌∷◌ c s) = String.◌∷◌ c (first_chars n s)

unfoldable pub first_failure : List AuditCheck → String
first_failure [] = ""
first_failure (c ∷ cs) = let rest = first_failure cs in if failing c then c.summary else rest

abbrev pub failed_check_reason : List AuditCheck → String
failed_check_reason cs =
    str_append "auditor ACCEPT but check FAIL: " (first_chars 200 (first_failure cs))

abbrev pub with_request : String → Option String → String
with_request reason none = reason
with_request reason (some text) = str_append reason (str_append ": " (first_chars 300 text))
