-- ===== src/Scheduler/Auditing.antt =====
-- `RunDispatcher.dispatch_audit_run` and `collect_audit` of src/researchd/scheduler/dispatch.py. The rows that one call
-- writes are stamped with one reading of the clock.
pub mod Announced
pub mod Opened
use Prim.Native.String.{◌++◌ as str_append}
use researchd_agent.Application.Audit.Data.{
  AuditEvent, AuditDb, AuditResult, Counts, AuditError, Outcome, or_else, replayed, applied,
}
use researchd_agent.Application.Audit.Gate.{apply_audit_result}
use researchd_agent.Domain.Enums.Run.{RunStatus, run_status_eq}
use researchd_agent.Domain.Enums.Work.{AuditVerdict, audit_verdict_eq}
use researchd_agent.Domain.Evidence.{Artifact, Evidence}
use researchd_agent.Domain.Run.{Run, transition_run}
use researchd_agent.Domain.Task.{Task}
use researchd_agent.Persistence.Repository.{save}
use researchd_agent.Prelude.{
  if◌then◌else◌, ◌==◌, nat_eq, string_eq, Result, ok, raise, ◌>>=◌, ◌>>◌, ℕ, String, Bool, not,
  ◌||◌, Option, none, some, List, [], ◌∷◌, ◌++◌, option_eq, require_some,
}
use researchd_agent.Scheduler.Collect.{get_by_task_id, close_run}
use researchd_agent.Scheduler.Dispatch.{
  DispatchDb, DispatchError, Profile, new_run, or_refused, save_run, move_run, lease_request,
  lease_failed,
}
use researchd_agent.Scheduler.Leases.{Leases, MultipleRows, LeaseRequest, Draw, acquire}

-- the auditor's result with what the executor says of its session
pub record Audited : Type 0 where
  pub audit : AuditResult
  pub session_id : Option String
  pub turn_id : Option String

-- The audit events of the two are kept apart: those that the dispatcher emits, and those that the gate reads.
pub record AuditingDb : Type 0 where
  pub runs_db : DispatchDb
  pub artifacts : List Artifact
  pub evidence : List Evidence
  pub audit_events : List AuditEvent

pub data CollectAuditError : Type 0 where
  audit_not_closed : DispatchError → CollectAuditError
  audit_task_missing : CollectAuditError
  gate_refused : AuditError → CollectAuditError

abbrev pub verdict_value : AuditVerdict → String
verdict_value AuditVerdict.accept = "ACCEPT"
verdict_value AuditVerdict.revise = "REVISE"
verdict_value AuditVerdict.block = "BLOCK"
verdict_value AuditVerdict.reject = "REJECT"

-- an auditor's result has no `criteria_results`
abbrev pub audited_run : Run → Audited → Run
audited_run r c = record r {
  result = some (record { criteria_results = [] });
  session_id = c.session_id;
  turn_id = c.turn_id;
  outcome = some (verdict_value c.audit.verdict);
}

-- the tables that the gate reads
abbrev pub gate_db : DispatchDb → AuditingDb → AuditDb
gate_db d db = record {
  records = record { runs = d.runs; artifacts = db.artifacts };
  tasks = d.tasks;
  evidence = db.evidence;
  events = db.audit_events;
}

abbrev pub counted : ℕ → Bool
counted n = not (n == 0)

-- the event that the counts ask for
abbrev pub announced_for : Counts → Option String
announced_for c =
    if counted c.completed
    then some "task.completed"
    else if counted c.revised || counted c.blocked
    then some "task.ready"
    else if counted c.rejected
    then some "task.failed"
    else none

abbrev pub announced : Outcome → Option String
announced replayed = none
announced (applied c) = announced_for c

abbrev pub event_if_any : Option String → String → List (String × String)
event_if_any none k = []
event_if_any (some event_type) k = (event_type, k) ∷ []

unfoldable pub collect_audit :
    ℕ → Run → Audited → AuditingDb → Result CollectAuditError (Run × AuditingDb)
unfolding close_run get_by_task_id apply_audit_result
collect_audit now r c db = do
  closed ←
      or_refused audit_not_closed (close_run now RunStatus.succeeded (audited_run r c) db.runs_db)
  t ← require_some (get_by_task_id r.task_id closed.1.tasks) audit_task_missing
  judged ← or_refused gate_refused (apply_audit_result now closed.0 t c.audit (gate_db closed.1 db))
  ok (
    closed.0,
    record db {
      runs_db = record closed.1 {
        tasks = judged.2.tasks;
        events =
            closed.1.events
            ++ ("run.succeeded", closed.0.run_id)
              ∷ event_if_any (announced judged.0) judged.1.task_id;
      };
      evidence = judged.2.evidence;
      audit_events = judged.2.events;
    },
  )

-- the auditor's run is about the worker's
abbrev pub audit_run_of : String → Profile → String → Option String → Task → ℕ → Run
audit_run_of executor profile run_id worker_run_id t now =
    record (new_run executor profile run_id t now) {
      metadata = record { worker_run_id = or_else worker_run_id t.current_run_id };
    }

abbrev pub audit_request : String → String → Task → LeaseRequest
audit_request executor run_id t = record (lease_request executor run_id t) {
  owner = str_append "auditor:" executor;
}

-- once the lease was asked for
unfoldable pub after_audit_lease :
    ℕ
    → Run
    → List Run
    → DispatchDb
    → Result MultipleRows (Option String) × Leases
    → Result DispatchError (Option Run × DispatchDb)
unfolding transition_run save
after_audit_lease now r runs db (raise e, leases) = raise (lease_failed e)
after_audit_lease now r runs db (ok none, leases) =
    ok (none, record db { runs = runs; leases = leases })
after_audit_lease now r runs db (ok (some token), leases) = do
  running ← move_run now RunStatus.running (record r { lease_token = some token })
  saved ← save_run now running runs
  ok (
    some saved.0,
    record db {
      runs = saved.1;
      leases = leases;
      events = db.events ++ ("run.running", saved.0.run_id) ∷ [];
    },
  )

unfoldable pub dispatch_audit_run :
    (matches : String → String → Bool)
    → String
    → Profile
    → String
    → Option String
    → ℕ
    → Draw
    → Task
    → DispatchDb
    → Result DispatchError (Option Run × DispatchDb)
unfolding after_audit_lease transition_run save acquire
dispatch_audit_run matches executor profile run_id worker_run_id now d t db = do
  starting ←
      move_run now RunStatus.starting (audit_run_of executor profile run_id worker_run_id t now)
  saved ← save_run now starting db.runs
  after_audit_lease now saved.0 saved.1 db
      (acquire matches (audit_request executor run_id t) d db.leases)
