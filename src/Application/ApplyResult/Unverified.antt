-- ===== src/Application/ApplyResult/Unverified.antt =====
-- Where VERIFIED rows come from in the application of a worker's result.
use mathlib.Core.Bool.{false≢true}
use mathlib.Core.List.{Memᴰ}
use researchd_agent.Application.ApplyResult.Data.{
  ApplyDb, EvidenceCandidate, WorkResult, Draws, ApplyOutcome, row_saved, added_here, applied_key,
  duplicate_row,
}
use researchd_agent.Application.ApplyResult.EvidenceRows.{
  evidence_id_of, new_evidence, superseded_by, EvidenceState, write_evidence, place_candidate,
  apply_candidates,
}
use researchd_agent.Application.ApplyResult.Parts.{apply_fresh-evidence}
use researchd_agent.Application.ApplyResult.Saved.{row_saved-All}
use researchd_agent.Application.ApplyResult.Whole.{has_event, apply_work_result}
use researchd_agent.Application.Audit.Data.{base_of_evidence, with_evidence_base}
use researchd_agent.Application.Paths.{FileSystem}
use researchd_agent.Domain.Enums.Evidence.{
  EvidenceStatus, evidence_status_beq_iff, evidence_status_eq,
}
use researchd_agent.Domain.Evidence.{Evidence}
use researchd_agent.Domain.Run.{Run}
use researchd_agent.Persistence.Repository.{save}
use researchd_agent.Persistence.Rows.Storing.{stored}
use researchd_agent.Persistence.Table.Keyed.{find}
use researchd_agent.Prelude.{
  Bool-cases, ◌==◌, nat_eq, string_eq, ok, ℕ, ◌≡◌, refl, sym, subst, ◌∙◌, ◌≢◌, ◌⊎◌, inl, inr, not,
  Option, none, some, List, [], ◌∷◌, All, ok-injective, option_eq, require, require-ok, bind-ok,
  list_eq, member_has, All-members,
}

-- not VERIFIED, or a row that was there
abbrev Old : List Evidence → Evidence → Type 0
Old before e = (e.status ≢ EvidenceStatus.verified) ⊎ Memᴰ e before

write_evidence-Old :
    (before : List Evidence) (now : ℕ) (e : Evidence) (s u : EvidenceState)
    → e.status ≢ EvidenceStatus.verified
    → All (Old before) s.0
    → write_evidence now e s ≡ ok u
    → All (Old before) u.0
unfolding write_evidence
write_evidence-Old before now e s u n a h =
    let (rows, h1, h2) =
      bind-ok (row_saved (save base_of_evidence with_evidence_base now e s.0)) h in
    subst (λ z. All (Old before) z.0) (ok-injective h2)
      (row_saved-All base_of_evidence with_evidence_base (λ b r. refl) (Old before) e now s.0 rows
        (inl n) (λ b same. inl n) a h1)

candidate-ne-verified : EvidenceStatus.candidate ≢ EvidenceStatus.verified
candidate-ne-verified h = cc

place_candidate-Old :
    (before : List Evidence) (now : ℕ) (run : Run) (cand : EvidenceCandidate)
    (found : Option Evidence) (s u : EvidenceState)
    → All (Old before) s.0
    → place_candidate now run cand found s ≡ ok u
    → All (Old before) u.0
unfolding place_candidate
place_candidate-Old before now run cand none s u a h =
    write_evidence-Old before now (new_evidence now run cand) s u candidate-ne-verified a h
place_candidate-Old before now run cand (some e) s u a h =
    elim (Bool-cases (e.status == EvidenceStatus.verified)) [
      | inl y ↦ subst (λ z. All (Old before) z.0) (ok-injective (rw y at h)) a
      | inr n ↦ elim (Bool-cases (e.run_id == some run.run_id)) [
        | inl same ↦ subst (λ z. All (Old before) z.0) (ok-injective (rw (n, same) at h)) a
        | inr other ↦
            write_evidence-Old before now (superseded_by run cand e) s u
              (λ v.
                false≢true (sym n ∙ (evidence_status_beq_iff e.status EvidenceStatus.verified).1 v))
              a (rw (n, other) at h)
      ]
    ]

apply_candidates-Old :
    (before : List Evidence) (now : ℕ) (run : Run) (stored : List Evidence)
    (cands : List EvidenceCandidate) (s u : EvidenceState)
    → All (Old before) s.0
    → apply_candidates now run stored cands s ≡ ok u
    → All (Old before) u.0
unfolding apply_candidates
apply_candidates-Old before now run stored [] s u a h =
    subst (λ z. All (Old before) z.0) (ok-injective h) a
apply_candidates-Old before now run stored (cand ∷ cands) s u a h =
    let found = find evidence_id_of cand.local_ref s.0 in
    let (m, h0, h2) =
      bind-ok
        (require (not (added_here evidence_id_of cand.local_ref stored s.0))
          (duplicate_row cand.local_ref) (place_candidate now run cand found s))
        h in
    let (_, h1) =
      require-ok (not (added_here evidence_id_of cand.local_ref stored s.0))
        (duplicate_row cand.local_ref) h0 in
    apply_candidates-Old before now run stored cands m u
      (place_candidate-Old before now run cand found s m a h1) h2

old_verified :
    (before : List Evidence) (e : Evidence)
    → Old before e
    → e.status ≡ EvidenceStatus.verified
    → Memᴰ e before
old_verified before e (inl n) v = absurd (n v)
old_verified before e (inr m) v = m

-- A worker's result makes no evidence VERIFIED: each VERIFIED row after its application is a row, unchanged, of
-- the table before.
pub worker_never_verifies :
    (fs : FileSystem) (now : ℕ) (draws : Draws) (run : Run) (result : WorkResult)
    (db after : ApplyDb) (outcome : ApplyOutcome) (e : Evidence)
    → apply_work_result fs now draws run result db ≡ ok (outcome, after)
    → Memᴰ e after.evidence
    → e.status ≡ EvidenceStatus.verified
    → Memᴰ e db.evidence
unfolding apply_work_result
worker_never_verifies fs now draws run result db after outcome e h m v =
    elim (Bool-cases (has_event (applied_key run.run_id) db.events)) [
      | inl y ↦ subst (λ z. Memᴰ e z.1.evidence) (sym (ok-injective (rw y at h))) m
      | inr n ↦
          let (u, applied_ok, same) =
            apply_fresh-evidence fs now draws run result db after outcome (rw n at h) in
          let old = All-members (Old db.evidence) db.evidence (λ x i. inr i) in
          let rows_old =
            apply_candidates-Old db.evidence now run db.evidence result.evidence_candidates
              (db.evidence, 0) u old applied_ok in
          old_verified db.evidence e
            (member_has (Old db.evidence) e u.0 rows_old (subst (Memᴰ e) (sym same) m)) v
    ]
