-- ===== src/Application/EvidenceValidation/Provenance.antt =====
-- What stands behind evidence that was verified.
use researchd_agent.Application.EvidenceValidation.{
  Records, get_by_artifact_id, ValidationError, sought_run, resolves, check_computational,
  check_snapshot, has_snapshot, only_if, raised_in_domain, verify_evidence, project_required,
  lacks_provenance, run_missing, run_of_other_project, artifact_missing, artifact_of_other_project,
  artifact_of_other_run, no_ref_resolves, snapshot_missing, snapshot_of_other_project,
  none_attribute,
}
use researchd_agent.Domain.Enums.Evidence.{
  EvidenceStatus, EvidenceType, evidence_status_eq, evidence_type_eq,
}
use researchd_agent.Domain.Evidence.{
  Artifact, LiteratureProvenance, ComputationalProvenance, Evidence, provenance_ok, EvidenceError,
  set_evidence_status, verify,
}
use researchd_agent.Domain.Evidence.Gate.{verify-ok}
use researchd_agent.Domain.Run.{Run}
use researchd_agent.Domain.Task.{block}
use researchd_agent.Prelude.{
  ◌==◌, nat_eq, string_eq, any, given, Result, ok, raise, ℕ, String, ◌≡◌, sym, ap, ◌∙◌, Bool, true,
  ◌&&◌, some, option_beq_iff, option_eq, require-ok, bind-ok, require_some-ok,
}

pub domain-ok :
    (r : Result EvidenceError Evidence) (v : Evidence) → raised_in_domain r ≡ ok v → r ≡ ok v
domain-ok (ok x) v h = cc
domain-ok (raise x) v h = cc

-- the blocks that a call which returned went through
pub verify_evidence-ok :
    (now : ℕ) (db : Records) (e v : Evidence)
    → verify_evidence now db e ≡ ok v
    → (given e.project_id ≡ true)
      × (verify now e ≡ ok v)
      × ((c : Bool) × (only_if (e.type == EvidenceType.computational) (check_computational db e)
            ≡ ok c))
      × ((s : Bool) × (only_if
              (e.type == EvidenceType.literature && has_snapshot e.literature)
              (check_snapshot db e)
            ≡ ok s))
unfolding verify_evidence
verify_evidence-ok now db e v h =
    let (p, h1) = require-ok (given e.project_id) project_required h in
    let (q, h2) = require-ok (provenance_ok e) lacks_provenance h1 in
    let (c, hc, h3) = bind-ok _ h2 in
    let (s, hs, h4) = bind-ok _ h3 in (p, domain-ok (verify now e) v h4, (c, hc), (s, hs))

only_if-ok :
    (block : Result ValidationError Artifact) (c : Bool)
    → only_if true block ≡ ok c
    → (a : Artifact) × (block ≡ ok a)
only_if-ok block c h = let (a, ha, _) = bind-ok block h in (a, ha)

-- the records that computational evidence rests on
pub record Backing (db : Records) (e : Evidence) : Type 0 where
  pub run : Run
  pub artifact : Artifact
  pub provenance : ComputationalProvenance
  pub is_provenance : e.computational ≡ some provenance
  pub run_stored : sought_run db e.run_id ≡ some run
  pub artifact_stored : get_by_artifact_id db provenance.artifact_id ≡ some artifact
  pub run_project : run.project_id ≡ e.project_id
  pub artifact_project : artifact.project_id ≡ e.project_id
  pub artifact_run : artifact.run_id ≡ some run.run_id
  pub some_ref_resolves : any (resolves db) e.artifact_refs ≡ true

check_computational-Backing :
    (db : Records) (e : Evidence) (a : Artifact) → check_computational db e ≡ ok a → Backing db e
unfolding check_computational
check_computational-Backing db e a h =
    let (run, hr, h1) = bind-ok _ h in
    let (rp, h2) = require-ok (run.project_id == e.project_id) run_of_other_project h1 in
    let (c, hc, h3) = bind-ok _ h2 in
    let (art, ha, h4) = bind-ok _ h3 in
    let (ap_, h5) = require-ok (art.project_id == e.project_id) artifact_of_other_project h4 in
    let (ar, h6) = require-ok (art.run_id == some run.run_id) artifact_of_other_run h5 in
    let (rr, _) = require-ok (any (resolves db) e.artifact_refs) no_ref_resolves h6 in
    record {
      run = run;
      artifact = art;
      provenance = c;
      is_provenance = require_some-ok e.computational none_attribute hc;
      run_stored = require_some-ok (sought_run db e.run_id) run_missing hr;
      artifact_stored = require_some-ok (get_by_artifact_id db c.artifact_id) artifact_missing ha;
      run_project = (option_beq_iff run.project_id e.project_id).0 rp;
      artifact_project = (option_beq_iff art.project_id e.project_id).0 ap_;
      artifact_run = (option_beq_iff art.run_id (some run.run_id)).0 ar;
      some_ref_resolves = rr;
    }

-- When `verify_evidence` returns, the evidence names its project, carries the provenance of its type, and is
-- VERIFIED with nothing else changed but the time of the update. If it is computational, its run and the
-- artifact of its provenance are stored, both are of the project of the evidence, the run produced the
-- artifact, and one of its references is a stored artifact.
pub verified_computational_is_backed :
    (now : ℕ) (db : Records) (e v : Evidence)
    → verify_evidence now db e ≡ ok v
    → e.type ≡ EvidenceType.computational
    → (given e.project_id ≡ true)
      × (provenance_ok e ≡ true)
      × (v ≡ set_evidence_status now EvidenceStatus.verified e)
      × Backing db e
verified_computational_is_backed now db e v h t =
    let (p, hv, (c, hc), _) = verify_evidence-ok now db e v h in
    let (q, w) = verify-ok now e v hv in
    let (a, ha) = only_if-ok (check_computational db e) c (
      sym (ap (λ y. only_if (y == EvidenceType.computational) (check_computational db e)) t)
      ∙ hc) in
    (p, q, w, check_computational-Backing db e a ha)

check_snapshot-ok :
    (db : Records) (e : Evidence) (a : Artifact)
    → check_snapshot db e ≡ ok a
    → (l : LiteratureProvenance) × (k : String) × (e.literature ≡ some l)
      × (l.snapshot_artifact_id ≡ some k)
      × ((s : Artifact) × (get_by_artifact_id db k ≡ some s) × (s.project_id ≡ e.project_id))
unfolding check_snapshot
check_snapshot-ok db e a h =
    let (l, hl, h1) = bind-ok _ h in
    let (k, hk, h2) = bind-ok _ h1 in
    let (s, hs, h3) = bind-ok _ h2 in
    let (sp, _) = require-ok (s.project_id == e.project_id) snapshot_of_other_project h3 in
    (
      l,
      k,
      require_some-ok e.literature none_attribute hl,
      require_some-ok l.snapshot_artifact_id none_attribute hk,
      (
        s,
        require_some-ok (get_by_artifact_id db k) snapshot_missing hs,
        (option_beq_iff s.project_id e.project_id).0 sp,
      ),
    )

-- When `verify_evidence` returns on literature evidence that names a snapshot, the snapshot is a stored
-- artifact of the project of the evidence.
pub verified_snapshot_is_stored :
    (now : ℕ) (db : Records) (e v : Evidence)
    → verify_evidence now db e ≡ ok v
    → e.type ≡ EvidenceType.literature
    → has_snapshot e.literature ≡ true
    → (l : LiteratureProvenance) × (k : String) × (e.literature ≡ some l)
      × (l.snapshot_artifact_id ≡ some k)
      × ((s : Artifact) × (get_by_artifact_id db k ≡ some s) × (s.project_id ≡ e.project_id))
verified_snapshot_is_stored now db e v h t has =
    let (_, _, _, (s, hs)) = verify_evidence-ok now db e v h in
    let runs_block = ap (λ y. y == EvidenceType.literature && has_snapshot e.literature) t ∙ has in
    let (a, ha) =
      only_if-ok (check_snapshot db e) s
        (sym (ap (λ b. only_if b (check_snapshot db e)) runs_block) ∙ hs) in
    check_snapshot-ok db e a ha
