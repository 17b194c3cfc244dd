-- ===== src/Application/ApplyResult/Untouched.antt =====
-- VERIFIED evidence through the application of a result.
use mathlib.Core.Bool.{false≢true}
use researchd_agent.Application.ApplyResult.Data.{
  ApplyDb, EvidenceCandidate, WorkResult, Draws, ApplyOutcome, row_saved, added_here, applied_key,
  duplicate_row,
}
use researchd_agent.Application.ApplyResult.EvidenceRows.{
  evidence_id_of, new_evidence, superseded_by, EvidenceState, write_evidence, place_candidate,
  apply_candidates,
}
use researchd_agent.Application.ApplyResult.Parts.{apply_fresh-evidence}
use researchd_agent.Application.ApplyResult.Saved.{row_saved-other}
use researchd_agent.Application.ApplyResult.Whole.{has_event, apply_work_result}
use researchd_agent.Application.Audit.Data.{base_of_evidence, with_evidence_base}
use researchd_agent.Application.Paths.{FileSystem}
use researchd_agent.Domain.Enums.Evidence.{
  EvidenceStatus, evidence_status_beq_iff, evidence_status_eq,
}
use researchd_agent.Domain.Evidence.{Evidence}
use researchd_agent.Domain.Run.{Run}
use researchd_agent.Persistence.Repository.{save}
use researchd_agent.Persistence.Repository.Others.{found_key, found_has, Named}
use researchd_agent.Persistence.Rows.Storing.{stored}
use researchd_agent.Persistence.Table.Keyed.{find}
use researchd_agent.Prelude.{
  Bool-cases, ◌==◌, nat_eq, string_eq, ok, ℕ, String, ◌≡◌, refl, sym, ap, subst, ◌∙◌, ◌≢◌, inl, inr,
  not, Option, none, some, List, [], ◌∷◌, eq_iff, All, ok-injective, option_eq, require, require-ok,
  bind-ok, list_eq,
}

abbrev pub NamedEvidence : Evidence → Type 0
NamedEvidence = Named base_of_evidence evidence_id_of

write_evidence-other :
    (now : ℕ) (k : String) (e : Evidence) (s u : EvidenceState)
    → All NamedEvidence s.0
    → NamedEvidence e
    → k ≢ e.evidence_id
    → write_evidence now e s ≡ ok u
    → All NamedEvidence u.0 × (find evidence_id_of k u.0 ≡ find evidence_id_of k s.0)
unfolding write_evidence
write_evidence-other now k e s u a named ne h =
    let (rows, h1, h2) =
      bind-ok (row_saved (save base_of_evidence with_evidence_base now e s.0)) h in
    let (kept, there) =
      row_saved-other base_of_evidence with_evidence_base evidence_id_of (λ b r. refl) (λ b r. refl)
        now k e s.0 rows a named ne h1 in
    let end = ap (λ z. z.0) (ok-injective h2) in
    (subst (All NamedEvidence) end kept, ap (find evidence_id_of k) (sym end) ∙ there)

-- the key of a row that is found is the key that was asked for
place_candidate-other :
    (now : ℕ) (run : Run) (k : String) (cand : EvidenceCandidate) (found : Option Evidence)
    (s u : EvidenceState)
    → All NamedEvidence s.0
    → find evidence_id_of cand.local_ref s.0 ≡ found
    → k ≢ cand.local_ref
    → place_candidate now run cand found s ≡ ok u
    → All NamedEvidence u.0 × (find evidence_id_of k u.0 ≡ find evidence_id_of k s.0)
unfolding place_candidate
place_candidate-other now run k cand none s u a f ne h =
    write_evidence-other now k (new_evidence now run cand) s u a refl ne h
place_candidate-other now run k cand (some e) s u a f ne h =
    elim (Bool-cases (e.status == EvidenceStatus.verified)) [
      | inl y ↦ unchanged (ok-injective (rw y at h))
      | inr n ↦ elim (Bool-cases (e.run_id == some run.run_id)) [
        | inl same ↦ unchanged (ok-injective (rw (n, same) at h))
        | inr other ↦
            write_evidence-other now k (superseded_by run cand e) s u a
              (found_has NamedEvidence evidence_id_of cand.local_ref s.0 e a f)
              (λ p. ne (p ∙ found_key evidence_id_of cand.local_ref s.0 e f)) (rw (n, other) at h)
      ]
    ]
  where
    unchanged :
        s ≡ u → All NamedEvidence u.0 × (find evidence_id_of k u.0 ≡ find evidence_id_of k s.0)
    unchanged p =
        (subst (λ z. All NamedEvidence z.0) p a, ap (λ z. find evidence_id_of k z.0) (sym p))

place_candidate-verified :
    (now : ℕ) (run : Run) (cand : EvidenceCandidate) (e : Evidence) (s u : EvidenceState)
    → e.status ≡ EvidenceStatus.verified
    → place_candidate now run cand (some e) s ≡ ok u
    → s ≡ u
unfolding place_candidate
place_candidate-verified now run cand e s u v h =
    ok-injective (rw ((evidence_status_beq_iff e.status EvidenceStatus.verified).1 v) at h)

apply_candidates-verified :
    (now : ℕ) (run : Run) (k : String) (e : Evidence) (stored : List Evidence)
    (cands : List EvidenceCandidate) (s u : EvidenceState)
    → All NamedEvidence s.0
    → find evidence_id_of k s.0 ≡ some e
    → e.status ≡ EvidenceStatus.verified
    → apply_candidates now run stored cands s ≡ ok u
    → find evidence_id_of k u.0 ≡ some e
unfolding apply_candidates
apply_candidates-verified now run k e stored [] s u a f v h =
    ap (λ z. find evidence_id_of k z.0) (sym (ok-injective h)) ∙ f
apply_candidates-verified now run k e stored (cand ∷ cands) s u a f v h =
    let found = find evidence_id_of cand.local_ref s.0 in
    let (m, h0, h2) =
      bind-ok
        (require (not (added_here evidence_id_of cand.local_ref stored s.0))
          (duplicate_row cand.local_ref) (place_candidate now run cand found s))
        h in
    let (_, h1) =
      require-ok (not (added_here evidence_id_of cand.local_ref stored s.0))
        (duplicate_row cand.local_ref) h0 in
    elim (Bool-cases (k == cand.local_ref)) [
      | inl y ↦
          let here_found = subst (λ j. find evidence_id_of j s.0 ≡ some e) ((eq_iff k _).0 y) f in
          let same =
            place_candidate-verified now run cand e s m v
              (subst (λ o. place_candidate now run cand o s ≡ ok m) here_found h1) in
          apply_candidates-verified now run k e stored cands m u
            (subst (λ z. All NamedEvidence z.0) same a)
            (subst (λ z. find evidence_id_of k z.0 ≡ some e) same f) v h2
      | inr n ↦
          let (named, there) =
            place_candidate-other now run k cand found s m a refl
              (λ p. false≢true (sym n ∙ (eq_iff k _).1 p)) h1 in
          apply_candidates-verified now run k e stored cands m u named (there ∙ f) v h2
    ]

-- Where the id of each row of evidence is its public id, a result that is applied leaves every VERIFIED
-- row as it was, whatever the worker reports under its id.
pub verified_is_untouched :
    (fs : FileSystem) (now : ℕ) (draws : Draws) (run : Run) (result : WorkResult)
    (db after : ApplyDb) (outcome : ApplyOutcome) (k : String) (e : Evidence)
    → All NamedEvidence db.evidence
    → find evidence_id_of k db.evidence ≡ some e
    → e.status ≡ EvidenceStatus.verified
    → apply_work_result fs now draws run result db ≡ ok (outcome, after)
    → find evidence_id_of k after.evidence ≡ some e
unfolding apply_work_result
verified_is_untouched fs now draws run result db after outcome k e a f v h =
    elim (Bool-cases (has_event (applied_key run.run_id) db.events)) [
      | inl y ↦ ap (λ z. find evidence_id_of k z.1.evidence) (sym (ok-injective (rw y at h))) ∙ f
      | inr n ↦
          let (u, applied_ok, same) =
            apply_fresh-evidence fs now draws run result db after outcome (rw n at h) in
          ap (find evidence_id_of k) (sym same)
          ∙ apply_candidates-verified now run k e db.evidence result.evidence_candidates
              (db.evidence, 0) u a f v applied_ok
    ]
