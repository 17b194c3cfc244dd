-- ===== src/Application/Audit/Outcomes.antt =====
-- What holds once an audit was applied.
use mathlib.Core.Bool.{false≢true}
use text.Mathlib.TextPositions.{eq_refl}
use researchd_agent.Application.Audit.Data.{
  AuditDb, AuditResult, Counts, audit_key, already_applied, worker_run_of, failing, replayed,
  applied,
}
use researchd_agent.Application.Audit.Gate.{
  criteria_of, has_criteria, all_pass, audit_event, apply_audit_result,
}
use researchd_agent.Application.Audit.Verdicts.{
  apply_verdict-ruling, applied_verdict, ruling_completes,
}
use researchd_agent.Domain.Enums.Work.{TaskStatus, AuditVerdict, task_status_eq, audit_verdict_eq}
use researchd_agent.Domain.Run.{Run}
use researchd_agent.Domain.Task.{Task}
use researchd_agent.Domain.Task.Completion.{AllPass, passes→AllPass, AllPass→passes}
use researchd_agent.Prelude.{
  Bool-cases, ◌==◌, nat_eq, string_eq, any, ok, ℕ, ◌≡◌, refl, sym, ap, ◌∙◌, ◌↔◌, inl, inr, true,
  false, some, option_eq, any-append,
}

all_pass_iff :
    (worker : Run) (t : Task)
    → (all_pass worker t ≡ true) ↔ (
        (has_criteria t.contract.success_criteria ≡ true) × AllPass t.contract (criteria_of worker))
all_pass_iff worker t = elim (Bool-cases (has_criteria t.contract.success_criteria)) [
  | inl y ↦ (
    (λ h. (y, passes→AllPass t.contract.success_criteria (criteria_of worker) (rw y at h))),
    (λ a. rw y (AllPass→passes t.contract.success_criteria (criteria_of worker) a.1)),
  )
  | inr n ↦ ((λ h. absurd (false≢true (rw n at h))), (λ a. absurd (false≢true (sym n ∙ a.0))))
]

-- An audit that was applied completes its task exactly when the auditor accepted the work, none of the
-- auditor's checks failed, the contract has a success criterion, and for every criterion the last of the
-- worker's results that name it is PASS.
pub audit_completes_exactly :
    (now : ℕ) (audit_run worker : Run) (t : Task) (result : AuditResult) (db : AuditDb)
    (counts : Counts) (u : Task) (after : AuditDb)
    → worker_run_of db audit_run t ≡ some worker
    → apply_audit_result now audit_run t result db ≡ ok (applied counts, u, after)
    → (u.status ≡ TaskStatus.completed) ↔ (
        (result.verdict ≡ AuditVerdict.accept)
        × (any failing result.checks ≡ false)
        × (has_criteria t.contract.success_criteria ≡ true)
        × AllPass t.contract (criteria_of worker))
audit_completes_exactly now audit_run worker t result db counts u after w h =
    let (_, (q, hq, same, _)) =
      applied_verdict now audit_run worker t result db counts u after w h in
    let ruled =
      ap (λ x. x.status) same ∙ apply_verdict-ruling now result.verdict worker t result db q hq in
    let (to, from) =
      ruling_completes result.verdict (any failing result.checks) (all_pass worker t) in
    let (passes, granted) = all_pass_iff worker t in
    (
      (λ c. let (v, f, p) = to (sym ruled ∙ c) in (v, f, (passes p).0, (passes p).1)),
      (λ k. ruled ∙ from (k.0, k.1, granted (k.2, k.3))),
    )

-- Once an audit was applied, a second collection of the same audit run, whatever it carries, changes nothing.
pub replay_changes_nothing :
    (now again : ℕ) (audit_run worker : Run) (t t' : Task) (result result' : AuditResult)
    (db : AuditDb) (counts : Counts) (u : Task) (after : AuditDb)
    → worker_run_of db audit_run t ≡ some worker
    → apply_audit_result now audit_run t result db ≡ ok (applied counts, u, after)
    → apply_audit_result again audit_run t' result' after ≡ ok (replayed, t', after)
unfolding apply_audit_result
replay_changes_nothing now again audit_run worker t t' result result' db counts u after w h =
    let (_, (q, _, _, logged)) =
      applied_verdict now audit_run worker t result db counts u after w h in
    let known =
      ap (λ d. already_applied d audit_run.run_id) logged
      ∙ any-append (λ ev. ev.idempotency_key == audit_key audit_run.run_id)
          (audit_event audit_run worker q.1 result) q.2.events
          (eq_refl (audit_key audit_run.run_id)) in
    rw known refl
