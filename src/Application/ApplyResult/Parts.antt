-- ===== src/Application/ApplyResult/Parts.antt =====
-- What each loop of an application that returned did.
use researchd_agent.Application.ApplyResult.ArtifactRows.{ArtifactState, apply_artifacts}
use researchd_agent.Application.ApplyResult.ClaimRows.{ClaimState, apply_changes, apply_issues}
use researchd_agent.Application.ApplyResult.Data.{
  ApplyDb, WorkResult, Draws, ApplyOutcome, project_missing,
}
use researchd_agent.Application.ApplyResult.EvidenceRows.{EvidenceState, apply_candidates}
use researchd_agent.Application.ApplyResult.Whole.{get_by_project_id, applied_event, apply_fresh}
use researchd_agent.Application.Paths.{FileSystem}
use researchd_agent.Domain.Project.{Project}
use researchd_agent.Domain.Run.{Run}
use researchd_agent.Prelude.{
  ok, ℕ, ◌≡◌, ap, some, [], ◌∷◌, ◌++◌, ok-injective, require_some, bind-ok, require_some-ok,
}

pub apply_fresh-ok :
    (fs : FileSystem) (now : ℕ) (draws : Draws) (run : Run) (result : WorkResult)
    (db after : ApplyDb) (outcome : ApplyOutcome)
    → apply_fresh fs now draws run result db ≡ ok (outcome, after)
    → (p : Project) × (artifacts : ArtifactState) × (evidence : EvidenceState)
      × (changed : ClaimState) × (get_by_project_id run.project_id db.projects ≡ some p)
      × (apply_artifacts fs now run p db.evidence db.artifacts result.artifacts (db.artifacts, 0)
          ≡ ok artifacts)
      × (apply_candidates now run db.evidence result.evidence_candidates (db.evidence, 0)
          ≡ ok evidence)
      × (apply_changes now run.project_id draws.claim_ids 0 result.claim_changes
            (record { claims = db.claims; links = db.links; count = 0 })
          ≡ ok changed)
      × (artifacts.0 ≡ after.artifacts)
      × (evidence.0 ≡ after.evidence)
      × (changed.claims ≡ after.claims)
      × (db.events ++ applied_event now draws.event_id run ∷ [] ≡ after.events)
unfolding apply_fresh
apply_fresh-ok fs now draws run result db after outcome h =
    let (p, h1, g1) =
      bind-ok (require_some (get_by_project_id run.project_id db.projects) project_missing) h in
    let (artifacts, h2, g2) =
      bind-ok
        (apply_artifacts fs now run p db.evidence db.artifacts result.artifacts (db.artifacts, 0))
        g1 in
    let (evidence, h3, g3) =
      bind-ok (apply_candidates now run db.evidence result.evidence_candidates (db.evidence, 0))
        g2 in
    let (changed, h4, g4) =
      bind-ok
        (apply_changes now run.project_id draws.claim_ids 0 result.claim_changes
          (record { claims = db.claims; links = db.links; count = 0 }))
        g3 in
    let (issues, h5, g5) =
      bind-ok (apply_issues now run draws.issue_ids 0 result.issues db.issues) g4 in
    let same = ok-injective g5 in
    (
      p,
      artifacts,
      evidence,
      changed,
      require_some-ok (get_by_project_id run.project_id db.projects) project_missing h1,
      h2,
      h3,
      h4,
      ap (λ z. z.1.artifacts) same,
      ap (λ z. z.1.evidence) same,
      ap (λ z. z.1.claims) same,
      ap (λ z. z.1.events) same,
    )

pub apply_fresh-evidence :
    (fs : FileSystem) (now : ℕ) (draws : Draws) (run : Run) (result : WorkResult)
    (db after : ApplyDb) (outcome : ApplyOutcome)
    → apply_fresh fs now draws run result db ≡ ok (outcome, after)
    → (u : EvidenceState) × (apply_candidates now run db.evidence result.evidence_candidates
          (db.evidence, 0)
        ≡ ok u)
      × (u.0 ≡ after.evidence)
apply_fresh-evidence fs now draws run result db after outcome h =
    let (_, _, u, _, _, _, got, _, _, same, _, _) =
      apply_fresh-ok fs now draws run result db after outcome h in
    (u, got, same)

pub apply_fresh-events :
    (fs : FileSystem) (now : ℕ) (draws : Draws) (run : Run) (result : WorkResult)
    (db after : ApplyDb) (outcome : ApplyOutcome)
    → apply_fresh fs now draws run result db ≡ ok (outcome, after)
    → db.events ++ applied_event now draws.event_id run ∷ [] ≡ after.events
apply_fresh-events fs now draws run result db after outcome h =
    let (_, _, _, _, _, _, _, _, _, _, _, same) =
      apply_fresh-ok fs now draws run result db after outcome h in
    same
