-- ===== src/Samples/Auditing.antt =====
-- An audit that was applied.
use researchd_agent.Application.Audit.Candidates.{judge_all}
use researchd_agent.Application.Audit.Data.{
  AuditDb, AuditResult, Counts, no_counts, base_of_task, with_task_base, base_of_evidence,
  with_evidence_base, worker_run_of, check_pass, replayed, applied,
}
use researchd_agent.Application.Audit.Gate.{
  close_task, accept_work, apply_verdict, audit_event, append_event, apply_audit_result,
}
use researchd_agent.Application.Audit.Outcomes.{audit_completes_exactly, replay_changes_nothing}
use researchd_agent.Application.Audit.SoundRows.{Sound}
use researchd_agent.Application.Audit.Soundness.{audit_keeps_provenance}
use researchd_agent.Application.EvidenceValidation.{
  get_by_run_id, get_by_artifact_id, verify_evidence,
}
use researchd_agent.Domain.Enums.Evidence.{EvidenceStatus, evidence_status_eq}
use researchd_agent.Domain.Enums.Work.{TaskStatus, AuditVerdict, task_status_eq, audit_verdict_eq}
use researchd_agent.Domain.Evidence.{Evidence, provenance_ok, set_evidence_status, verify}
use researchd_agent.Domain.Machines.Tables.{task_transitions, evidence_transitions}
use researchd_agent.Domain.Run.{Run}
use researchd_agent.Domain.StateMachine.{can}
use researchd_agent.Domain.Task.{Task, enter, result_from}
use researchd_agent.Domain.Task.Completion.{AllPass}
use researchd_agent.Persistence.Repository.{list_by_project, bumped, save}
use researchd_agent.Persistence.Table.{update_where, count_where, select_where}
use researchd_agent.Persistence.Table.Keyed.{find}
use researchd_agent.Prelude.{
  nat_eq, string_eq, ok, ◌≡◌, refl, ◌≢◌, ◌↔◌, inl, true, false, none, some, [], ◌∷◌, All, option_eq,
}
use researchd_agent.Samples.Data.{one_criterion, task_in, passing, run_of, artifact_one, computed}

abbrev pub worker : Run
worker = run_of "R-1" (some (record { criteria_results = passing }))

abbrev pub audit_run : Run
audit_run = run_of "R-2" none

abbrev pub reviewed : Task
reviewed = task_in TaskStatus.review

abbrev pub audit_db : AuditDb
audit_db = record {
  records = record { runs = worker ∷ audit_run ∷ []; artifacts = artifact_one ∷ [] };
  tasks = reviewed ∷ [];
  evidence = computed EvidenceStatus.candidate ∷ [];
  events = [];
}

abbrev pub accepted : AuditResult
accepted = record {
  verdict = AuditVerdict.accept;
  checks = record { check_status = check_pass; summary = "reruns" } ∷ [];
  evidence_status_changes = [];
  revision_request = none;
}

abbrev pub first_counts : Counts
first_counts = record no_counts { verified_evidence = 1; completed = 1 }

abbrev pub finished : Task
finished = bumped base_of_task with_task_base 9 (enter 9 TaskStatus.completed reviewed)

abbrev pub verified_row : Evidence
verified_row =
    bumped base_of_evidence with_evidence_base 9
      (set_evidence_status 9 EvidenceStatus.verified (computed EvidenceStatus.candidate))

abbrev pub audit_db_after : AuditDb
audit_db_after =
    append_event (audit_event audit_run worker finished accepted)
      (record audit_db { tasks = finished ∷ []; evidence = verified_row ∷ [] })

worker_found : worker_run_of audit_db audit_run reviewed ≡ some worker
unfolding worker_run_of get_by_run_id find
worker_found = refl

audit_applied :
    apply_audit_result 9 audit_run reviewed accepted audit_db
    ≡ ok (applied first_counts, finished, audit_db_after)
unfolding apply_audit_result worker_run_of get_by_run_id get_by_artifact_id find apply_verdict
    accept_work close_task judge_all list_by_project select_where result_from can task_transitions
    save count_where verify_evidence update_where provenance_ok verify evidence_transitions
audit_applied = refl

audit_completes_exactly_example : (TaskStatus.completed ≡ TaskStatus.completed) ↔ (
    (AuditVerdict.accept ≡ AuditVerdict.accept)
    × (false ≡ false)
    × (true ≡ true)
    × AllPass one_criterion passing)
audit_completes_exactly_example =
    audit_completes_exactly 9 audit_run worker reviewed accepted audit_db first_counts finished
      audit_db_after worker_found audit_applied

replay_changes_nothing_example :
    apply_audit_result 10 audit_run finished accepted audit_db_after
    ≡ ok (replayed, finished, audit_db_after)
replay_changes_nothing_example =
    replay_changes_nothing 9 10 audit_run worker reviewed finished accepted accepted audit_db
      first_counts finished audit_db_after worker_found audit_applied

candidate-ne-verified : EvidenceStatus.candidate ≢ EvidenceStatus.verified
candidate-ne-verified h = cc

audit_keeps_provenance_example : All Sound audit_db_after.evidence
audit_keeps_provenance_example =
    audit_keeps_provenance 9 audit_run worker reviewed accepted audit_db first_counts finished
      audit_db_after worker_found (inl candidate-ne-verified, tt) audit_applied
