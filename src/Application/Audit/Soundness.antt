-- ===== src/Application/Audit/Soundness.antt =====
-- The provenance of VERIFIED evidence through an audit.
use researchd_agent.Application.Audit.Candidates.{
  save_evidence, Progress, moved_on, wanted_from, is_explicit, judge_evidence, under_review,
  judge_all,
}
use researchd_agent.Application.Audit.Data.{
  AuditDb, ToStatus, EvidenceStatusChange, AuditResult, Counts, no_counts, base_of_evidence,
  worker_run_of, failing, failed_check_reason, with_request, to_verified, to_contested, to_invalid,
  to_superseded, applied,
}
use researchd_agent.Application.Audit.Gate.{
  save_task, criteria_of, all_pass, close_task, accept_work, apply_verdict, apply_audit_result,
}
use researchd_agent.Application.Audit.SoundRows.{Sound, save_evidence-AllSound, try_verify-AllSound}
use researchd_agent.Application.Audit.Verdicts.{save_task-ok, closing, applied_verdict}
use researchd_agent.Application.EvidenceValidation.{Records}
use researchd_agent.Domain.Enums.Evidence.{EvidenceStatus, evidence_status_eq}
use researchd_agent.Domain.Enums.Work.{TaskStatus, AuditVerdict, task_status_eq, audit_verdict_eq}
use researchd_agent.Domain.Evidence.{Evidence, EvidenceError, transition_evidence}
use researchd_agent.Domain.Evidence.Gate.{transition_evidence-ok}
use researchd_agent.Domain.Run.{Run}
use researchd_agent.Domain.StateMachine.{InvalidTransition}
use researchd_agent.Domain.Task.{Task, complete, fail, requeue}
use researchd_agent.Persistence.Repository.{list_by_project}
use researchd_agent.Prelude.{
  Bool-cases, any, Result, ok, raise, ℕ, ◌≡◌, refl, sym, ap, subst, ◌∙◌, inl, inr, Bool, true,
  false, Option, none, some, List, [], ◌∷◌, All, ok-injective, raise-ne-ok, bind-ok,
}

moved_on-AllSound :
    (now : ℕ) (target : EvidenceStatus) (e : Evidence) (p q : Progress)
    (r : Result EvidenceError Evidence)
    → transition_evidence now target e ≡ r
    → All Sound p.0
    → moved_on now p r ≡ ok q
    → All Sound q.0
moved_on-AllSound now target e p q (raise x) t a h = absurd (raise-ne-ok h)
moved_on-AllSound now target e p q (ok f) t a h =
    let (other, same) = transition_evidence-ok now target e f t in
    let (rows, h1, h2) = bind-ok (save_evidence now f p.0) h in
    subst (λ z. All Sound z.0) (ok-injective h2)
      (save_evidence-AllSound now f p.0 rows (inl (λ v. other (sym (ap (λ x. x.status) same) ∙ v)))
        a h1)

judge_evidence-AllSound :
    (now : ℕ) (db : Records) (explicit : Bool) (w : Option ToStatus) (e : Evidence) (p q : Progress)
    → All Sound p.0
    → judge_evidence now db explicit w e p ≡ ok q
    → All Sound q.0
unfolding judge_evidence
judge_evidence-AllSound now db explicit (some to_verified) e p q a h =
    subst (λ z. All Sound z.0) (ok-injective h) (try_verify-AllSound now db e p a)
judge_evidence-AllSound now db explicit (some to_contested) e p q a h =
    moved_on-AllSound now EvidenceStatus.contested e p q _ refl a h
judge_evidence-AllSound now db explicit (some to_invalid) e p q a h =
    moved_on-AllSound now EvidenceStatus.invalid e p q _ refl a h
judge_evidence-AllSound now db explicit (some to_superseded) e p q a h =
    moved_on-AllSound now EvidenceStatus.superseded e p q _ refl a h
judge_evidence-AllSound now db true none e p q a h = subst (λ z. All Sound z.0) (ok-injective h) a
judge_evidence-AllSound now db false none e p q a h =
    subst (λ z. All Sound z.0) (ok-injective h) (try_verify-AllSound now db e p a)

judge_all-AllSound :
    (now : ℕ) (db : Records) (worker : Run) (changes : List EvidenceStatusChange)
    (es : List Evidence) (p q : Progress)
    → All Sound p.0
    → judge_all now db worker changes es p ≡ ok q
    → All Sound q.0
unfolding judge_all
judge_all-AllSound now db worker changes [] p q a h = subst (λ z. All Sound z.0) (ok-injective h) a
judge_all-AllSound now db worker changes (e ∷ es) p q a h =
    elim (Bool-cases (under_review worker e)) [
      | inr n ↦ judge_all-AllSound now db worker changes es p q a (rw n at h)
      | inl y ↦
          let wanted = wanted_from none e.evidence_id changes in
          let (m, h1, h2) =
            bind-ok (judge_evidence now db (is_explicit changes) wanted e p) (rw y at h) in
          judge_all-AllSound now db worker changes es m q
            (judge_evidence-AllSound now db (is_explicit changes) wanted e p m a h1) h2
    ]

closing-evidence :
    (now : ℕ) (counts : Counts) (m : Result (InvalidTransition TaskStatus) TaskStatus × Task)
    (db : AuditDb) (q : Counts × Task × AuditDb)
    → closing now counts m db ≡ ok q
    → q.2.evidence ≡ db.evidence
closing-evidence now counts m db q h =
    let (p, hp, hq) = bind-ok (save_task now m db) h in
    let (_, _, _, same) = save_task-ok now m db p hp in
    ap (λ z. z.2.evidence) (sym (ok-injective hq)) ∙ same

close_task-evidence :
    (now : ℕ) (worker : Run) (t : Task) (n : ℕ) (db : AuditDb) (q : Counts × Task × AuditDb)
    → close_task now worker t n db ≡ ok q
    → q.2.evidence ≡ db.evidence
unfolding close_task
close_task-evidence now worker t n db q h = elim (Bool-cases (all_pass worker t)) [
  | inl y ↦
      closing-evidence now (record no_counts { verified_evidence = n; completed = 1 })
        (complete now (some (criteria_of worker)) t) db q (rw y at h)
  | inr m ↦
      closing-evidence now (record no_counts { verified_evidence = n; rejected = 1 })
        (fail now "auditor ACCEPT but success criteria not all PASS" t) db q (rw m at h)
]

accept_work-AllSound :
    (now : ℕ) (worker : Run) (t : Task) (result : AuditResult) (db : AuditDb)
    (q : Counts × Task × AuditDb)
    → All Sound db.evidence
    → accept_work now worker t result db ≡ ok q
    → All Sound q.2.evidence
unfolding accept_work
accept_work-AllSound now worker t result db q a h = elim (Bool-cases (any failing result.checks)) [
  | inl y ↦
      subst (All Sound)
        (sym (
          closing-evidence now (record no_counts { revised = 1 })
            (requeue now (failed_check_reason result.checks) t) db q (rw y at h)))
        a
  | inr n ↦
      let listed = list_by_project base_of_evidence worker.project_id db.evidence in
      let (p, hj, hp) =
        bind-ok {f = λ p. close_task now worker t p.1 (record db { evidence = p.0 })}
          (judge_all now db.records worker result.evidence_status_changes listed (db.evidence, 0))
          (rw n at h) in
      subst (All Sound)
        (sym (close_task-evidence now worker t p.1 (record db { evidence = p.0 }) q hp))
        (judge_all-AllSound now db.records worker result.evidence_status_changes listed
          (db.evidence, 0) p a hj)
]

apply_verdict-AllSound :
    (now : ℕ) (v : AuditVerdict) (worker : Run) (t : Task) (result : AuditResult) (db : AuditDb)
    (q : Counts × Task × AuditDb)
    → All Sound db.evidence
    → apply_verdict now v worker t result db ≡ ok q
    → All Sound q.2.evidence
unfolding apply_verdict
apply_verdict-AllSound now AuditVerdict.accept worker t result db q a h =
    accept_work-AllSound now worker t result db q a h
apply_verdict-AllSound now AuditVerdict.revise worker t result db q a h =
    subst (All Sound)
      (sym (
        closing-evidence now (record no_counts { revised = 1 })
          (requeue now (with_request "auditor REVISE" result.revision_request) t) db q h))
      a
apply_verdict-AllSound now AuditVerdict.block worker t result db q a h =
    subst (All Sound)
      (sym (
        closing-evidence now (record no_counts { blocked = 1 })
          (requeue now "auditor BLOCK: needs PI decision" t) db q h))
      a
apply_verdict-AllSound now AuditVerdict.reject worker t result db q a h =
    subst (All Sound)
      (sym (
        closing-evidence now (record no_counts { rejected = 1 })
          (fail now (with_request "auditor REJECT" result.revision_request) t) db q h))
      a

-- Where every VERIFIED row of evidence has the provenance of its type, this holds again once an audit was applied,
-- whatever the auditor answered.
pub audit_keeps_provenance :
    (now : ℕ) (audit_run worker : Run) (t : Task) (result : AuditResult) (db : AuditDb)
    (counts : Counts) (u : Task) (after : AuditDb)
    → worker_run_of db audit_run t ≡ some worker
    → All Sound db.evidence
    → apply_audit_result now audit_run t result db ≡ ok (applied counts, u, after)
    → All Sound after.evidence
audit_keeps_provenance now audit_run worker t result db counts u after w a h =
    let (_, (q, hq, _, logged)) =
      applied_verdict now audit_run worker t result db counts u after w h in
    subst (λ d. All Sound d.evidence) (sym logged)
      (apply_verdict-AllSound now result.verdict worker t result db q a hq)
