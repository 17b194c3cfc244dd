-- ===== src/Samples/Announcing.antt =====
-- An audit, from its dispatch to its collection.
use researchd_agent.Application.Audit.Candidates.{judge_all}
use researchd_agent.Application.Audit.Data.{worker_run_of}
use researchd_agent.Application.Audit.Gate.{close_task, accept_work, apply_verdict}
use researchd_agent.Application.EvidenceValidation.{
  get_by_run_id, get_by_artifact_id, verify_evidence,
}
use researchd_agent.Domain.Enums.Run.{RunStatus, run_status_eq}
use researchd_agent.Domain.Evidence.{provenance_ok, verify}
use researchd_agent.Domain.Machines.Tables.{task_transitions, run_transitions, evidence_transitions}
use researchd_agent.Domain.Run.{Run}
use researchd_agent.Domain.StateMachine.{can, transition}
use researchd_agent.Domain.Task.{result_from}
use researchd_agent.Persistence.Repository.{list_by_project, bumped, save}
use researchd_agent.Persistence.Table.{update_where, count_where, select_where, execute}
use researchd_agent.Persistence.Table.Keyed.{find}
use researchd_agent.Prelude.{nat_eq, string_eq, ok, ◌≡◌, refl, none, some, [], ◌∷◌, ◌++◌, option_eq}
use researchd_agent.Samples.Auditing.{
  worker, reviewed, audit_db, accepted, finished, verified_row, audit_db_after,
}
use researchd_agent.Samples.Data.{any_owner, draw_at}
use researchd_agent.Scheduler.Auditing.{
  Audited, AuditingDb, audited_run, collect_audit, audit_run_of, audit_request, dispatch_audit_run,
}
use researchd_agent.Scheduler.Auditing.Announced.{AuditSettled, audit_announces_status}
use researchd_agent.Scheduler.Auditing.Opened.{audit_keeps_task}
use researchd_agent.Scheduler.Collect.{give_up}
use researchd_agent.Scheduler.Dispatch.{DispatchDb, Profile, base_of_run, with_run_base}
use researchd_agent.Scheduler.Leases.{LeaseRow, scalar_one_or_none, new_lease}

abbrev no_profile : Profile
no_profile = record { profile_name = none; model = none }

abbrev before_audit : DispatchDb
before_audit = record { runs = worker ∷ []; tasks = reviewed ∷ []; leases = []; events = [] }

abbrev auditing : Run
auditing = record (audit_run_of "reasonix" no_profile "R-2" none reviewed 8) {
  base = record {
    id = "R-2";
    project_id = some "P-1";
    version = 2;
    created_at = 8;
    updated_at = 8;
    created_by = "system";
  };
  status = RunStatus.running;
  lease_token = some "tok-2";
}

abbrev audit_lease : LeaseRow
audit_lease = new_lease any_owner (audit_request "reasonix" "R-2" reviewed) (draw_at 8 "tok-2")

abbrev in_audit : DispatchDb
in_audit = record {
  runs = worker ∷ auditing ∷ [];
  tasks = reviewed ∷ [];
  leases = audit_lease ∷ [];
  events = ("run.running", "R-2") ∷ [];
}

audit_opened :
    dispatch_audit_run any_owner "reasonix" no_profile "R-2" none 8
      (draw_at 8 "tok-2")
      reviewed
      before_audit
    ≡ ok (some auditing, in_audit)
unfolding dispatch_audit_run transition can run_transitions find scalar_one_or_none select_where
    count_where update_where
audit_opened = refl

audit_keeps_task_example :
    (in_audit.tasks ≡ before_audit.tasks)
    × (RunStatus.running ≡ RunStatus.running)
    × (auditing.lease_token ≡ some "tok-2")
    × (in_audit.leases
        ≡ []
          ++ new_lease any_owner (audit_request "reasonix" "R-2" reviewed) (draw_at 8 "tok-2") ∷ [])
audit_keeps_task_example =
    audit_keeps_task any_owner "reasonix" no_profile "R-2" none 8 (draw_at 8 "tok-2") reviewed
      auditing before_audit in_audit audit_opened

abbrev verdict_in : Audited
verdict_in = record { audit = accepted; session_id = some "S-2"; turn_id = none }

abbrev audited_db : AuditingDb
audited_db = record {
  runs_db = in_audit;
  artifacts = audit_db.records.artifacts;
  evidence = audit_db.evidence;
  audit_events = [];
}

abbrev audited : Run
audited =
    bumped base_of_run with_run_base 9
      (record (audited_run auditing verdict_in) { status = RunStatus.succeeded })

abbrev settled : AuditingDb
settled = record audited_db {
  runs_db = record {
    runs = worker ∷ audited ∷ [];
    tasks = finished ∷ [];
    leases = record audit_lease { released_at = some 9 } ∷ [];
    events = ("run.running", "R-2") ∷ ("run.succeeded", "R-2") ∷ ("task.completed", "T-1") ∷ [];
  };
  evidence = verified_row ∷ [];
  audit_events = audit_db_after.events;
}

audit_collected : collect_audit 9 auditing verdict_in audited_db ≡ ok (audited, settled)
unfolding collect_audit worker_run_of get_by_run_id get_by_artifact_id find apply_verdict
    accept_work close_task judge_all list_by_project select_where result_from can task_transitions
    save count_where verify_evidence update_where provenance_ok verify evidence_transitions
    transition run_transitions execute
audit_collected = refl

audit_announces_status_example :
    (audited.status ≡ RunStatus.succeeded)
    × (settled.runs_db.leases ≡ give_up 9 (some "tok-2") in_audit.leases)
    × AuditSettled 9 auditing verdict_in audited_db (audited, settled)
audit_announces_status_example =
    audit_announces_status 9 auditing verdict_in audited_db (audited, settled) audit_collected
