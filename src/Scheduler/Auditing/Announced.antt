-- ===== src/Scheduler/Auditing/Announced.antt =====
-- What `RunDispatcher.collect_audit` of src/researchd/scheduler/dispatch.py announces.
use researchd_agent.Application.Audit.Candidates.{judge_all}
use researchd_agent.Application.Audit.Data.{
  AuditDb, AuditResult, Counts, Outcome, no_counts, already_applied, base_of_evidence,
  worker_run_of, failing, failed_check_reason, with_request, worker_run_missing, not_in_review,
  replayed,
}
use researchd_agent.Application.Audit.Gate.{
  save_task, criteria_of, all_pass, close_task, accept_work, apply_verdict, apply_audit_result,
}
use researchd_agent.Application.Audit.Verdicts.{
  Lands, transition_task-Lands, complete-Lands, closing, closing-status, with_worker,
}
use researchd_agent.Domain.Enums.Run.{RunStatus, run_status_eq}
use researchd_agent.Domain.Enums.Work.{
  TaskStatus, task_status_beq_iff, AuditVerdict, task_status_eq, audit_verdict_eq,
}
use researchd_agent.Domain.Run.{Run}
use researchd_agent.Domain.StateMachine.{InvalidTransition}
use researchd_agent.Domain.Task.{Task, complete, fail, requeue}
use researchd_agent.Persistence.Repository.{list_by_project}
use researchd_agent.Prelude.{
  Bool-cases, ◌==◌, nat_eq, string_eq, any, Result, ok, ℕ, String, ◌≡◌, refl, sym, ap, subst, ◌∙◌,
  ◌⊎◌, inl, inr, Option, none, some, List, ◌∷◌, ◌++◌, ok-injective, option_eq, require_some,
  require-ok, bind-ok, require_some-ok,
}
use researchd_agent.Scheduler.Auditing.{
  Audited, AuditingDb, audited_run, gate_db, announced_for, announced, event_if_any, collect_audit,
  audit_not_closed, audit_task_missing, gate_refused,
}
use researchd_agent.Scheduler.Collect.{get_by_task_id, give_up, close_run}
use researchd_agent.Scheduler.Collect.Released.{close_run-ok, close_run-keeps}
use researchd_agent.Scheduler.Dispatch.{or_refused}
use researchd_agent.Scheduler.Dispatch.Leased.{or_refused-ok}

-- the event that says of a task that it is in this status
abbrev pub event_for : TaskStatus → Option String
event_for TaskStatus.completed = some "task.completed"
event_for TaskStatus.ready = some "task.ready"
event_for TaskStatus.failed = some "task.failed"
event_for _ = none

closing-announced :
    (now : ℕ) (counts : Counts) (target : TaskStatus) (t : Task)
    (m : Result (InvalidTransition TaskStatus) TaskStatus × Task) (db : AuditDb)
    (q : Counts × Task × AuditDb)
    → ((s : TaskStatus) → m.0 ≡ ok s → Lands target t m)
    → announced_for counts ≡ event_for target
    → closing now counts m db ≡ ok q
    → announced_for q.0 ≡ event_for q.1.status
closing-announced now counts target t m db q lands e h =
    let (p, _, hq) = bind-ok (save_task now m db) h in
    let (status, _) = closing-status now counts target t m db q lands h in
    ap (λ z. announced_for z.0) (sym (ok-injective hq)) ∙ e ∙ ap event_for (sym status)

close_task-announced :
    (now : ℕ) (worker : Run) (t : Task) (n : ℕ) (db : AuditDb) (q : Counts × Task × AuditDb)
    → close_task now worker t n db ≡ ok q
    → announced_for q.0 ≡ event_for q.1.status
unfolding close_task fail
close_task-announced now worker t n db q h = elim (Bool-cases (all_pass worker t)) [
  | inl y ↦
      closing-announced now (record no_counts { verified_evidence = n; completed = 1 })
        TaskStatus.completed t (complete now (some (criteria_of worker)) t) db q
        (complete-Lands now (criteria_of worker) t) refl (rw y at h)
  | inr n' ↦
      closing-announced now (record no_counts { verified_evidence = n; rejected = 1 })
        TaskStatus.failed t (fail now "auditor ACCEPT but success criteria not all PASS" t) db q
        (transition_task-Lands now TaskStatus.failed _) refl (rw n' at h)
]

accept_work-announced :
    (now : ℕ) (worker : Run) (t : Task) (result : AuditResult) (db : AuditDb)
    (q : Counts × Task × AuditDb)
    → accept_work now worker t result db ≡ ok q
    → announced_for q.0 ≡ event_for q.1.status
unfolding accept_work requeue
accept_work-announced now worker t result db q h = elim (Bool-cases (any failing result.checks)) [
  | inl y ↦
      closing-announced now (record no_counts { revised = 1 }) TaskStatus.ready t
        (requeue now (failed_check_reason result.checks) t) db q
        (transition_task-Lands now TaskStatus.ready _) refl (rw y at h)
  | inr n ↦
      let (p, _, hp) =
        bind-ok {f = λ p. close_task now worker t p.1 (record db { evidence = p.0 })}
          (judge_all now db.records worker result.evidence_status_changes
            (list_by_project base_of_evidence worker.project_id db.evidence) (db.evidence, 0))
          (rw n at h) in
      close_task-announced now worker t p.1 (record db { evidence = p.0 }) q hp
]

apply_verdict-announced :
    (now : ℕ) (v : AuditVerdict) (worker : Run) (t : Task) (result : AuditResult) (db : AuditDb)
    (q : Counts × Task × AuditDb)
    → apply_verdict now v worker t result db ≡ ok q
    → announced_for q.0 ≡ event_for q.1.status
unfolding apply_verdict requeue fail
apply_verdict-announced now AuditVerdict.accept worker t result db q h =
    accept_work-announced now worker t result db q h
apply_verdict-announced now AuditVerdict.revise worker t result db q h =
    closing-announced now (record no_counts { revised = 1 }) TaskStatus.ready t
      (requeue now (with_request "auditor REVISE" result.revision_request) t) db q
      (transition_task-Lands now TaskStatus.ready _) refl h
apply_verdict-announced now AuditVerdict.block worker t result db q h =
    closing-announced now (record no_counts { blocked = 1 }) TaskStatus.ready t
      (requeue now "auditor BLOCK: needs PI decision" t) db q
      (transition_task-Lands now TaskStatus.ready _) refl h
apply_verdict-announced now AuditVerdict.reject worker t result db q h =
    closing-announced now (record no_counts { rejected = 1 }) TaskStatus.failed t
      (fail now (with_request "auditor REJECT" result.revision_request) t) db q
      (transition_task-Lands now TaskStatus.failed _) refl h

-- a replay that changed nothing, or a verdict over a task in REVIEW whose event says what became of the task
abbrev pub Announces : Outcome → Task → Task → AuditDb → AuditDb → Type 0
Announces o t u db after =
    (o ≡ replayed) × (u ≡ t) × (after ≡ db)
    ⊎ (t.status ≡ TaskStatus.review) × (announced o ≡ event_for u.status)

apply_audit_result-Announces :
    (now : ℕ) (audit_run : Run) (t : Task) (result : AuditResult) (db : AuditDb)
    (p : Outcome × Task × AuditDb)
    → apply_audit_result now audit_run t result db ≡ ok p
    → Announces p.0 t p.1 db p.2
unfolding apply_audit_result
apply_audit_result-Announces now audit_run t result db p h =
    elim (Bool-cases (already_applied db audit_run.run_id)) [
      | inl y ↦
          let out = sym (ok-injective (rw y at h)) in
          inl (ap (λ z. z.0) out, ap (λ z. z.1) out, ap (λ z. z.2) out)
      | inr n ↦
          let (worker, _, g) =
            bind-ok {f = with_worker now audit_run t result db}
              (require_some (worker_run_of db audit_run t) worker_run_missing) (rw n at h) in
          let (r, g1) = require-ok (t.status == TaskStatus.review) not_in_review g in
          let (q, hq, g2) = bind-ok (apply_verdict now result.verdict worker t result db) g1 in
          let out = sym (ok-injective g2) in
          inr (
            (task_status_beq_iff t.status TaskStatus.review).0 r,
            ap (λ z. announced z.0) out
                ∙ apply_verdict-announced now result.verdict worker t result db q hq
                ∙ ap (λ z. event_for z.1.status) (sym out),
          )
    ]

-- The task of the run was found, the gate judged it over the tables as they were, the tables are those that the gate
-- left, and the dispatcher's events grew by the run's and by the one of the gate's outcome.
abbrev pub AuditSettled : ℕ → Run → Audited → AuditingDb → Run × AuditingDb → Type 0
AuditSettled now r c db out =
    (runs : List Run) × (t : Task) × (o : Outcome) × (u : Task) × (after : AuditDb)
    × (get_by_task_id r.task_id db.runs_db.tasks ≡ some t)
    × (apply_audit_result now out.0 t c.audit (gate_db (record db.runs_db { runs = runs }) db)
        ≡ ok (o, u, after))
    × Announces o t u (gate_db (record db.runs_db { runs = runs }) db) after
    × (out.1.runs_db.tasks ≡ after.tasks)
    × (out.1.evidence ≡ after.evidence)
    × (out.1.runs_db.events
        ≡ db.runs_db.events
          ++ ("run.succeeded", out.0.run_id) ∷ event_if_any (announced o) u.task_id)

-- Where `collect_audit` returns, the run is SUCCEEDED and its lease is given up. The task of the run was found, and
-- the gate judged it over the tables as they were: either the audit was a replay, which changes no task and announces
-- nothing of it, or the task was in REVIEW, and the event that is announced is the one of the status that the gate left
-- it in: task.completed, task.ready or task.failed.
pub audit_announces_status :
    (now : ℕ) (r : Run) (c : Audited) (db : AuditingDb) (out : Run × AuditingDb)
    → collect_audit now r c db ≡ ok out
    → (out.0.status ≡ RunStatus.succeeded)
      × (out.1.runs_db.leases ≡ give_up now r.lease_token db.runs_db.leases)
      × AuditSettled now r c db out
unfolding collect_audit
audit_announces_status now r c db out h =
    let done = audited_run r c in
    let (closed, h1, g1) =
      bind-ok (or_refused audit_not_closed (close_run now RunStatus.succeeded done db.runs_db)) h in
    let (t, h2, g2) =
      bind-ok (require_some (get_by_task_id r.task_id closed.1.tasks) audit_task_missing) g1 in
    let (judged, h3, g3) =
      bind-ok
        (or_refused gate_refused (apply_audit_result now closed.0 t c.audit (gate_db closed.1 db)))
        g2 in
    let ran =
      or_refused-ok audit_not_closed (close_run now RunStatus.succeeded done db.runs_db) closed
        h1 in
    let (status, leases) = close_run-ok now RunStatus.succeeded done db.runs_db closed ran in
    let (tasks, events) = close_run-keeps now RunStatus.succeeded done db.runs_db closed ran in
    let view = λ (ts : List Task). gate_db (record closed.1 { tasks = ts }) db in
    let applies =
      subst (λ ts. apply_audit_result now closed.0 t c.audit (view ts) ≡ ok judged) tasks
        (or_refused-ok gate_refused
          (apply_audit_result now closed.0 t c.audit (gate_db closed.1 db)) judged h3) in
    subst
      (λ z.
        (z.0.status ≡ RunStatus.succeeded)
        × (z.1.runs_db.leases ≡ give_up now r.lease_token db.runs_db.leases)
        × AuditSettled now r c db z)
      (ok-injective g3)
      (
        status,
        leases,
        (
          closed.1.runs,
          t,
          judged.0,
          judged.1,
          judged.2,
          subst (λ ts. get_by_task_id r.task_id ts ≡ some t) tasks
              (require_some-ok (get_by_task_id r.task_id closed.1.tasks) audit_task_missing h2),
          applies,
          apply_audit_result-Announces now closed.0 t c.audit (view db.runs_db.tasks) judged
              applies,
          refl,
          refl,
          ap
              (λ es.
                es
                ++ ("run.succeeded", closed.0.run_id)
                  ∷ event_if_any (announced judged.0) judged.1.task_id)
              events,
        ),
      )
