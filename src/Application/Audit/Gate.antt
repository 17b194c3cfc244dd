-- ===== src/Application/Audit/Gate.antt =====
-- `apply_audit_result` of src/researchd/application/audit_gate.py. A call that raises commits nothing: the session
-- that the caller opened is closed without a commit. The rows that one call writes are stamped with one reading
-- of the clock.
use researchd_agent.Application.Audit.Candidates.{judge_all}
use researchd_agent.Application.Audit.Data.{
  AuditEvent, AuditDb, AuditResult, Counts, AuditError, Outcome, no_counts, audit_key,
  already_applied, base_of_task, with_task_base, base_of_evidence, worker_run_of, failing,
  failed_check_reason, with_request, worker_run_missing, not_in_review, task_refused, stale_version,
  replayed, applied,
}
use researchd_agent.Domain.Enums.Work.{TaskStatus, AuditVerdict, task_status_eq, audit_verdict_eq}
use researchd_agent.Domain.Run.{RunResult, Run}
use researchd_agent.Domain.StateMachine.{InvalidTransition}
use researchd_agent.Domain.Task.{
  SuccessCriterion, Task, CriterionResult, criterion_passes, complete, fail, requeue,
}
use researchd_agent.Persistence.Repository.{StaleVersion, list_by_project, save}
use researchd_agent.Prelude.{
  if◌then◌else◌, ◌==◌, nat_eq, string_eq, any, all, Result, ok, raise, ◌>>=◌, ℕ, Bool, true, false,
  not, ◌&&◌, Option, none, some, List, [], ◌∷◌, ◌++◌, option_eq, require, require_some,
}

abbrev pub task_saved :
    AuditDb → Result StaleVersion (Task × List Task) → Result AuditError (Task × AuditDb)
task_saved db (raise x) = raise (stale_version x)
task_saved db (ok (t, rows)) = ok (t, record db { tasks = rows })

-- a method of the task, and `TaskRepo(session).save(task)` once it returned
abbrev pub save_task :
    ℕ
    → Result (InvalidTransition TaskStatus) TaskStatus × Task
    → AuditDb
    → Result AuditError (Task × AuditDb)
save_task now (raise x, t) db = raise (task_refused x)
save_task now (ok s, t) db = task_saved db (save base_of_task with_task_base now t db.tasks)

abbrev pub criteria_in : Option RunResult → List CriterionResult
criteria_in none = []
criteria_in (some r) = r.criteria_results

abbrev pub criteria_of : Run → List CriterionResult
criteria_of worker = criteria_in worker.result

abbrev pub has_criteria : List SuccessCriterion → Bool
has_criteria [] = false
has_criteria (_ ∷ _) = true

abbrev pub all_pass : Run → Task → Bool
all_pass worker t =
    has_criteria t.contract.success_criteria
    && all (criterion_passes (criteria_of worker)) t.contract.success_criteria

-- the task after the evidence was judged
unfoldable pub close_task :
    ℕ → Run → Task → ℕ → AuditDb → Result AuditError (Counts × Task × AuditDb)
unfolding complete fail
close_task now worker t n db =
    if not (all_pass worker t)
    then (do
      saved ← save_task now (fail now "auditor ACCEPT but success criteria not all PASS" t) db
      ok (record no_counts { verified_evidence = n; rejected = 1 }, saved.0, saved.1))
    else (do
      saved ← save_task now (complete now (some (criteria_of worker)) t) db
      ok (record no_counts { verified_evidence = n; completed = 1 }, saved.0, saved.1))

unfoldable pub accept_work :
    ℕ → Run → Task → AuditResult → AuditDb → Result AuditError (Counts × Task × AuditDb)
unfolding close_task judge_all
accept_work now worker t result db =
    if any failing result.checks
    then (do
      saved ← save_task now (requeue now (failed_check_reason result.checks) t) db
      ok (record no_counts { revised = 1 }, saved.0, saved.1))
    else (do
      p ←
          judge_all now db.records worker result.evidence_status_changes
            (list_by_project base_of_evidence worker.project_id db.evidence) (db.evidence, 0)
      close_task now worker t p.1 (record db { evidence = p.0 }))

unfoldable pub apply_verdict :
    ℕ
    → AuditVerdict
    → Run
    → Task
    → AuditResult
    → AuditDb
    → Result AuditError (Counts × Task × AuditDb)
unfolding accept_work
apply_verdict now AuditVerdict.accept worker t result db = accept_work now worker t result db
apply_verdict now AuditVerdict.revise worker t result db = do
  saved ← save_task now (requeue now (with_request "auditor REVISE" result.revision_request) t) db
  ok (record no_counts { revised = 1 }, saved.0, saved.1)
apply_verdict now AuditVerdict.block worker t result db = do
  saved ← save_task now (requeue now "auditor BLOCK: needs PI decision" t) db
  ok (record no_counts { blocked = 1 }, saved.0, saved.1)
apply_verdict now AuditVerdict.reject worker t result db = do
  saved ← save_task now (fail now (with_request "auditor REJECT" result.revision_request) t) db
  ok (record no_counts { rejected = 1 }, saved.0, saved.1)

abbrev pub audit_event : Run → Run → Task → AuditResult → AuditEvent
audit_event audit_run worker t result = record {
  idempotency_key = audit_key audit_run.run_id;
  aggregate_id = t.id;
  aggregate_version = t.version;
  event_run_id = audit_run.run_id;
  event_worker_run_id = worker.run_id;
  event_verdict = result.verdict;
}

-- `EventRepo(session).append`
abbrev pub append_event : AuditEvent → AuditDb → AuditDb
append_event ev db = record db { events = db.events ++ ev ∷ [] }

unfoldable pub apply_audit_result :
    ℕ → Run → Task → AuditResult → AuditDb → Result AuditError (Outcome × Task × AuditDb)
unfolding worker_run_of apply_verdict
apply_audit_result now audit_run t result db =
    if already_applied db audit_run.run_id then ok (replayed, t, db) else (do
      worker ← require_some (worker_run_of db audit_run t) worker_run_missing
      require (t.status == TaskStatus.review) not_in_review (do
        (counts, u, after) ← apply_verdict now result.verdict worker t result db
        ok (applied counts, u, append_event (audit_event audit_run worker u result) after)))
