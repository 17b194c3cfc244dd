-- ===== src/Application/Audit/Verdicts.antt =====
-- What a verdict does to the task.
use researchd_agent.Application.Audit.Candidates.{judge_all}
use researchd_agent.Application.Audit.Data.{
  AuditDb, AuditResult, Counts, AuditError, Outcome, no_counts, already_applied, base_of_task,
  with_task_base, base_of_evidence, worker_run_of, failing, not_in_review, replayed, applied,
}
use researchd_agent.Application.Audit.Gate.{
  task_saved, save_task, criteria_of, all_pass, close_task, accept_work, apply_verdict, audit_event,
  append_event, apply_audit_result,
}
use researchd_agent.Domain.Enums.Work.{
  TaskStatus, task_status_beq_iff, AuditVerdict, task_status_eq, audit_verdict_eq,
}
use researchd_agent.Domain.Machines.Tables.{task_transitions}
use researchd_agent.Domain.Run.{Run}
use researchd_agent.Domain.StateMachine.{InvalidTransition, can, transition}
use researchd_agent.Domain.Task.{
  Task, transition_task, CriterionResult, criterion_passes, complete, fail, requeue,
}
use researchd_agent.Persistence.Repository.{
  StaleVersion, object_id, addressed, list_by_project, update_row, save_over, save,
}
use researchd_agent.Persistence.Table.{count_where}
use researchd_agent.Persistence.Table.Keyed.{find}
use researchd_agent.Prelude.{
  Bool-cases, ◌==◌, nat_eq, string_eq, any, all, Result, ok, raise, ◌>>=◌, ℕ, ◌≡◌, refl, sym, ap,
  ◌∙◌, ◌≢◌, ◌↔◌, inl, inr, Bool, true, false, Option, none, some, List, arith, ok-injective,
  raise-ne-ok, option_eq, require, require-ok, bind-ok,
}

-- a method that returned, and the object it left
abbrev pub Lands :
    TaskStatus → Task → Result (InvalidTransition TaskStatus) TaskStatus × Task → Type 0
Lands s t m = (m.1.status ≡ s) × (m.1.contract ≡ t.contract)

pub transition_task-Lands :
    (now : ℕ) (target : TaskStatus) (t : Task) (s : TaskStatus)
    → (transition_task now target true "" t).0 ≡ ok s
    → Lands target t (transition_task now target true "" t)
unfolding transition_task transition
transition_task-Lands now target t s h = elim (Bool-cases (target == TaskStatus.completed)) [
  | inl y ↦ absurd (raise-ne-ok (rw y at h))
  | inr n ↦ elim (Bool-cases (can task_transitions t.status target true)) [
    | inl c ↦ rw (n, c) (refl, refl)
    | inr d ↦ absurd (raise-ne-ok (rw (n, d) at h))
  ]
]

pub complete-Lands :
    (now : ℕ) (rs : List CriterionResult) (t : Task) (s : TaskStatus)
    → (complete now (some rs) t).0 ≡ ok s
    → Lands TaskStatus.completed t (complete now (some rs) t)
unfolding complete
complete-Lands now rs t s h =
    elim (Bool-cases (all (criterion_passes rs) t.contract.success_criteria)) [
      | inl p ↦ elim (Bool-cases (can task_transitions t.status TaskStatus.completed true)) [
        | inl c ↦ rw (p, c) (refl, refl)
        | inr d ↦ absurd (raise-ne-ok (rw (p, d) at h))
      ]
      | inr n ↦ absurd (raise-ne-ok (rw n at h))
    ]

-- a save writes the object as it is, or with the next version
save-status :
    (now : ℕ) (t u : Task) (rows rows' : List Task) (found : Option Task)
    → save_over base_of_task with_task_base found now t rows ≡ ok (u, rows')
    → u.status ≡ t.status
unfolding update_row
save-status now t u rows rows' none h = ap (λ p. p.0.status) (sym (ok-injective h))
save-status now t u rows rows' (some x) h =
    elim (Bool-cases (count_where (addressed base_of_task t) rows == 0)) [
      | inl y ↦ absurd (raise-ne-ok (rw y at h))
      | inr n ↦ ap (λ p. p.0.status) (sym (ok-injective (rw n at h)))
    ]

task_saved-ok :
    (db : AuditDb) (r : Result StaleVersion (Task × List Task)) (p : Task × AuditDb)
    → task_saved db r ≡ ok p
    → (r ≡ ok (p.0, p.1.tasks)) × (p.1.evidence ≡ db.evidence)
task_saved-ok db (raise x) p h = absurd (raise-ne-ok h)
task_saved-ok db (ok (u, rows)) p h =
    let same = ok-injective h in
    (ap (λ q. ok (q.0, q.1.tasks)) same, ap (λ q. q.1.evidence) (sym same))

pub save_task-ok :
    (now : ℕ) (m : Result (InvalidTransition TaskStatus) TaskStatus × Task) (db : AuditDb)
    (p : Task × AuditDb)
    → save_task now m db ≡ ok p
    → (s : TaskStatus) × (m.0 ≡ ok s) × (p.0.status ≡ m.1.status) × (p.1.evidence ≡ db.evidence)
unfolding save
save_task-ok now (raise x, t) db p h = absurd (raise-ne-ok h)
save_task-ok now (ok s, t) db p h =
    let (r, e) = task_saved-ok db (save base_of_task with_task_base now t db.tasks) p h in
    (
      s,
      refl,
      save-status now t p.0 db.tasks p.1.tasks
          (find (object_id base_of_task) (object_id base_of_task t) db.tasks) r,
      e,
    )

-- a block of the gate: a method of the task, its save, and the counters
abbrev pub closing :
    ℕ
    → Counts
    → Result (InvalidTransition TaskStatus) TaskStatus × Task
    → AuditDb
    → Result AuditError (Counts × Task × AuditDb)
closing now counts m db = do saved ← save_task now m db; ok (counts, saved.0, saved.1)

pub closing-status :
    (now : ℕ) (counts : Counts) (target : TaskStatus) (t : Task)
    (m : Result (InvalidTransition TaskStatus) TaskStatus × Task) (db : AuditDb)
    (q : Counts × Task × AuditDb)
    → ((s : TaskStatus) → m.0 ≡ ok s → Lands target t m)
    → closing now counts m db ≡ ok q
    → (q.1.status ≡ target) × (q.2.evidence ≡ db.evidence)
closing-status now counts target t m db q lands h =
    let (p, hp, hq) = bind-ok (save_task now m db) h in
    let (s, hs, same, e) = save_task-ok now m db p hp in
    (
      ap (λ z. z.1.status) (sym (ok-injective hq)) ∙ same ∙ (lands s hs).0,
      ap (λ z. z.2.evidence) (sym (ok-injective hq)) ∙ e,
    )

-- the state that a task in REVIEW is left in
abbrev pub ruling : AuditVerdict → (some_check_fails all_criteria_pass : Bool) → TaskStatus
ruling AuditVerdict.accept true pass = TaskStatus.ready
ruling AuditVerdict.accept false true = TaskStatus.completed
ruling AuditVerdict.accept false false = TaskStatus.failed
ruling AuditVerdict.revise _ _ = TaskStatus.ready
ruling AuditVerdict.block _ _ = TaskStatus.ready
ruling AuditVerdict.reject _ _ = TaskStatus.failed

close_task-ruling :
    (now : ℕ) (worker : Run) (t : Task) (n : ℕ) (db : AuditDb) (q : Counts × Task × AuditDb)
    → close_task now worker t n db ≡ ok q
    → q.1.status ≡ ruling AuditVerdict.accept false (all_pass worker t)
unfolding close_task fail
close_task-ruling now worker t n db q h = elim (Bool-cases (all_pass worker t)) [
  | inl y ↦
      rw y
        (closing-status now _ TaskStatus.completed t (complete now (some (criteria_of worker)) t) db
          q (complete-Lands now (criteria_of worker) t) (rw y at h)).0
  | inr n ↦
      rw n
        (closing-status now _ TaskStatus.failed t (fail now _ t) db q
          (transition_task-Lands now TaskStatus.failed _) (rw n at h)).0
]

accept_work-ruling :
    (now : ℕ) (worker : Run) (t : Task) (result : AuditResult) (db : AuditDb)
    (q : Counts × Task × AuditDb)
    → accept_work now worker t result db ≡ ok q
    → q.1.status ≡ ruling AuditVerdict.accept (any failing result.checks) (all_pass worker t)
unfolding accept_work requeue
accept_work-ruling now worker t result db q h = elim (Bool-cases (any failing result.checks)) [
  | inl y ↦
      rw y
        (closing-status now _ TaskStatus.ready t (requeue now _ t) db q
          (transition_task-Lands now TaskStatus.ready _) (rw y at h)).0
  | inr n ↦
      let (p, _, hp) =
        bind-ok {f = λ p. close_task now worker t p.1 (record db { evidence = p.0 })}
          (judge_all now db.records worker result.evidence_status_changes
            (list_by_project base_of_evidence worker.project_id db.evidence) (db.evidence, 0))
          (rw n at h) in
      rw n (close_task-ruling now worker t p.1 (record db { evidence = p.0 }) q hp)
]

pub apply_verdict-ruling :
    (now : ℕ) (v : AuditVerdict) (worker : Run) (t : Task) (result : AuditResult) (db : AuditDb)
    (q : Counts × Task × AuditDb)
    → apply_verdict now v worker t result db ≡ ok q
    → q.1.status ≡ ruling v (any failing result.checks) (all_pass worker t)
unfolding apply_verdict requeue fail
apply_verdict-ruling now AuditVerdict.accept worker t result db q h =
    accept_work-ruling now worker t result db q h
apply_verdict-ruling now AuditVerdict.revise worker t result db q h =
    (closing-status now _ TaskStatus.ready t (requeue now _ t) db q
      (transition_task-Lands now TaskStatus.ready _) h).0
apply_verdict-ruling now AuditVerdict.block worker t result db q h =
    (closing-status now (record no_counts { blocked = 1 }) TaskStatus.ready t
      (requeue now "auditor BLOCK: needs PI decision" t) db q
      (transition_task-Lands now TaskStatus.ready _) h).0
apply_verdict-ruling now AuditVerdict.reject worker t result db q h =
    (closing-status now _ TaskStatus.failed t (fail now _ t) db q
      (transition_task-Lands now TaskStatus.failed _) h).0

replayed-ne-applied : {c : Counts} → replayed ≢ applied c
replayed-ne-applied h = cc

-- `apply_audit_result` past its lookup of the worker's run
abbrev pub with_worker :
    ℕ → Run → Task → AuditResult → AuditDb → Run → Result AuditError (Outcome × Task × AuditDb)
with_worker now audit_run t result db worker =
    require (t.status == TaskStatus.review) not_in_review (do
      (counts, u, after) ← apply_verdict now result.verdict worker t result db
      ok (applied counts, u, append_event (audit_event audit_run worker u result) after))

with_worker-ok :
    (now : ℕ) (audit_run worker : Run) (t : Task) (result : AuditResult) (db : AuditDb)
    (o : Outcome) (u : Task) (after : AuditDb)
    → with_worker now audit_run t result db worker ≡ ok (o, u, after)
    → (t.status ≡ TaskStatus.review)
      × ((q : Counts × Task × AuditDb) × (apply_verdict now result.verdict worker t result db
            ≡ ok q)
          × (u ≡ q.1)
          × (after ≡ append_event (audit_event audit_run worker q.1 result) q.2))
with_worker-ok now audit_run worker t result db o u after h =
    let (r, h1) = require-ok (t.status == TaskStatus.review) not_in_review h in
    let (q, hq, h2) =
      bind-ok
        {f = λ q. ok (applied q.0, q.1, append_event (audit_event audit_run worker q.1 result) q.2)}
        (apply_verdict now result.verdict worker t result db) h1 in
    (
      (task_status_beq_iff t.status TaskStatus.review).0 r,
      (q, hq, ap (λ z. z.1) (sym (ok-injective h2)), ap (λ z. z.2) (sym (ok-injective h2))),
    )

-- a call that applied the verdict
pub applied_verdict :
    (now : ℕ) (audit_run worker : Run) (t : Task) (result : AuditResult) (db : AuditDb)
    (counts : Counts) (u : Task) (after : AuditDb)
    → worker_run_of db audit_run t ≡ some worker
    → apply_audit_result now audit_run t result db ≡ ok (applied counts, u, after)
    → (t.status ≡ TaskStatus.review)
      × ((q : Counts × Task × AuditDb) × (apply_verdict now result.verdict worker t result db
            ≡ ok q)
          × (u ≡ q.1)
          × (after ≡ append_event (audit_event audit_run worker q.1 result) q.2))
unfolding apply_audit_result
applied_verdict now audit_run worker t result db counts u after w h =
    elim (Bool-cases (already_applied db audit_run.run_id)) [
      | inl y ↦ absurd (replayed-ne-applied (ap (λ z. z.0) (ok-injective (rw y at h))))
      | inr n ↦
          with_worker-ok now audit_run worker t result db (applied counts) u after (rw (n, w) at h)
    ]

pub ruling_completes :
    (v : AuditVerdict) (fails pass : Bool)
    → (ruling v fails pass ≡ TaskStatus.completed)
      ↔ ((v ≡ AuditVerdict.accept) × (fails ≡ false) × (pass ≡ true))
ruling_completes v fails pass = ground arith
