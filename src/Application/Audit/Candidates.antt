-- ===== src/Application/Audit/Candidates.antt =====
-- src/researchd/application/audit_gate.py: the loop over the evidence of the worker's run.
use researchd_agent.Application.Audit.Data.{
  ToStatus, EvidenceStatusChange, AuditError, base_of_evidence, with_evidence_base, to_verified,
  to_contested, to_invalid, to_superseded, evidence_refused, validation_failed, stale_version,
}
use researchd_agent.Application.EvidenceValidation.{Records, ValidationError, verify_evidence}
use researchd_agent.Domain.Enums.Evidence.{EvidenceStatus, evidence_status_eq}
use researchd_agent.Domain.Evidence.{Evidence, EvidenceError, transition_evidence}
use researchd_agent.Domain.Run.{Run}
use researchd_agent.Persistence.Repository.{StaleVersion, save}
use researchd_agent.Prelude.{
  if◌then◌else◌, ◌==◌, nat_eq, string_eq, Result, ok, raise, ◌>>=◌, ℕ, suc, String, Bool, true,
  false, ◌&&◌, Option, none, some, List, [], ◌∷◌, option_eq,
}

abbrev pub evidence_saved :
    Result StaleVersion (Evidence × List Evidence) → Result AuditError (List Evidence)
evidence_saved (raise x) = raise (stale_version x)
evidence_saved (ok (e, rows)) = ok rows

abbrev pub save_evidence : ℕ → Evidence → List Evidence → Result AuditError (List Evidence)
save_evidence now e rows = evidence_saved (save base_of_evidence with_evidence_base now e rows)

-- the rows of evidence and `counts["verified_evidence"]`
abbrev pub Progress : Type 0
Progress = List Evidence × ℕ

-- `try: ... except Exception`: a failure leaves the rows as they were
abbrev pub or_kept : Progress → Result AuditError (List Evidence) → Progress
or_kept (rows, n) (raise x) = (rows, n)
or_kept (rows, n) (ok saved) = (saved, suc n)

abbrev pub save_verified :
    ℕ → List Evidence → Result ValidationError Evidence → Result AuditError (List Evidence)
save_verified now rows (raise x) = raise (validation_failed x)
save_verified now rows (ok v) = save_evidence now v rows

unfoldable pub try_verify : ℕ → Records → Evidence → Progress → Progress
try_verify now records e p = or_kept p (save_verified now p.0 (verify_evidence now records e))

abbrev pub moved_on : ℕ → Progress → Result EvidenceError Evidence → Result AuditError Progress
moved_on now p (raise x) = raise (evidence_refused x)
moved_on now p (ok e) = do rows ← save_evidence now e p.0; ok (rows, p.1)

-- `wanted.get(k)`, the last one wins
unfoldable pub wanted_from : Option ToStatus → String → List EvidenceStatusChange → Option ToStatus
wanted_from found k [] = found
wanted_from found k (c ∷ cs) =
    wanted_from (if c.changed_id == k then some c.to_status else found) k cs

abbrev pub is_explicit : List EvidenceStatusChange → Bool
is_explicit [] = false
is_explicit (_ ∷ _) = true

unfoldable pub judge_evidence :
    ℕ → Records → Bool → Option ToStatus → Evidence → Progress → Result AuditError Progress
unfolding try_verify
judge_evidence now records explicit (some to_verified) e p = ok (try_verify now records e p)
judge_evidence now records explicit (some to_contested) e p =
    moved_on now p (transition_evidence now EvidenceStatus.contested e)
judge_evidence now records explicit (some to_invalid) e p =
    moved_on now p (transition_evidence now EvidenceStatus.invalid e)
judge_evidence now records explicit (some to_superseded) e p =
    moved_on now p (transition_evidence now EvidenceStatus.superseded e)
judge_evidence now records explicit none e p =
    if explicit then ok p else ok (try_verify now records e p)

-- the candidates of the worker's run
abbrev pub under_review : Run → Evidence → Bool
under_review worker e = e.run_id == some worker.run_id && e.status == EvidenceStatus.candidate

unfoldable pub judge_all :
    ℕ
    → Records
    → Run
    → List EvidenceStatusChange
    → List Evidence
    → Progress
    → Result AuditError Progress
unfolding judge_evidence wanted_from
judge_all now records worker changes [] p = ok p
judge_all now records worker changes (e ∷ es) p =
    let rest = judge_all now records worker changes es in
    if under_review worker e
    then (judge_evidence now records (is_explicit changes) (wanted_from none e.evidence_id changes)
          e p
        >>= rest)
    else rest p
