-- ===== src/Application/ApplyResult/Whole.antt =====
-- `apply_work_result` of src/researchd/application/apply_result.py.
use researchd_agent.Application.ApplyResult.ArtifactRows.{apply_artifacts}
use researchd_agent.Application.ApplyResult.ClaimRows.{apply_changes, apply_issues}
use researchd_agent.Application.ApplyResult.Data.{
  ApplyDb, WorkResult, Draws, ApplyOutcome, ApplyError, applied_key, run_replayed, run_applied,
  project_missing,
}
use researchd_agent.Application.ApplyResult.EvidenceRows.{apply_candidates}
use researchd_agent.Application.Paths.{FileSystem}
use researchd_agent.Domain.Event.{Event, system_actor}
use researchd_agent.Domain.Project.{Project}
use researchd_agent.Domain.Run.{Run}
use researchd_agent.Persistence.Table.Keyed.{find}
use researchd_agent.Prelude.{
  if◌then◌else◌, ◌==◌, nat_eq, string_eq, length, any, Result, ok, ◌>>=◌, ℕ, String, Bool, Option,
  none, some, List, [], ◌∷◌, ◌++◌, option_eq, require_some, list_eq,
}

abbrev pub project_key_of : Project → String
project_key_of p = p.project_id

unfoldable pub get_by_project_id : Option String → List Project → Option Project
get_by_project_id none rows = none
get_by_project_id (some k) rows = find project_key_of k rows

abbrev pub has_event : String → List Event → Bool
has_event key events = any (λ ev. ev.idempotency_key == key) events

abbrev pub applied_event : ℕ → String → Run → Event
applied_event now event_id run = record {
  event_id = event_id;
  event_type = "result.applied";
  occurred_at = now;
  project_id = run.project_id;
  aggregate = record { type = "run"; id = run.run_id; version = 1 };
  actor = system_actor;
  correlation_id = none;
  causation_id = none;
  idempotency_key = applied_key run.run_id;
  payload = ("run_id", run.run_id) ∷ [];
}

unfoldable pub apply_fresh :
    FileSystem → ℕ → Draws → Run → WorkResult → ApplyDb → Result ApplyError (ApplyOutcome × ApplyDb)
unfolding get_by_project_id apply_artifacts apply_candidates apply_changes apply_issues applied_key
apply_fresh fs now draws run result db = do
  p ← require_some (get_by_project_id run.project_id db.projects) project_missing
  artifacts ←
      apply_artifacts fs now run p db.evidence db.artifacts result.artifacts (db.artifacts, 0)
  evidence ← apply_candidates now run db.evidence result.evidence_candidates (db.evidence, 0)
  changed ←
      apply_changes now run.project_id draws.claim_ids 0 result.claim_changes
        (record { claims = db.claims; links = db.links; count = 0 })
  issues ← apply_issues now run draws.issue_ids 0 result.issues db.issues
  ok (
    run_applied (record {
      artifacts = artifacts.1;
      evidence = evidence.1;
      verified_evidence = 0;
      claims = changed.count;
      issues = length result.issues;
    }),
    record db {
      artifacts = artifacts.0;
      evidence = evidence.0;
      claims = changed.claims;
      links = changed.links;
      issues = issues;
      events = db.events ++ applied_event now draws.event_id run ∷ [];
    },
  )

unfoldable pub apply_work_result :
    FileSystem → ℕ → Draws → Run → WorkResult → ApplyDb → Result ApplyError (ApplyOutcome × ApplyDb)
unfolding apply_fresh applied_key
apply_work_result fs now draws run result db =
    if has_event (applied_key run.run_id) db.events
    then ok (run_replayed, db)
    else apply_fresh fs now draws run result db
