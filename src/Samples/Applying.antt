-- ===== src/Samples/Applying.antt =====
-- A worker's result that was applied.
use mathlib.Core.Bool.{false≢true}
use mathlib.Core.List.{Memᴰ}
use researchd_agent.Application.ApplyResult.ArtifactRows.{new_artifact}
use researchd_agent.Application.ApplyResult.Backing.{applied_artifacts-Backed}
use researchd_agent.Application.ApplyResult.ClaimRows.{claim_id_of, new_claim, new_issue}
use researchd_agent.Application.ApplyResult.Data.{
  ApplyDb, WorkArtifact, EvidenceCandidate, ClaimOperation, ClaimChange, WorkResult, Draws,
  ApplyOutcome, create_claim, retire_claim, run_replayed, run_applied, duplicate_row,
}
use researchd_agent.Application.ApplyResult.EvidenceRows.{
  evidence_id_of, new_evidence, apply_candidates,
}
use researchd_agent.Application.ApplyResult.ForeignClaims.{foreign_claim_is_untouched}
use researchd_agent.Application.ApplyResult.Replay.{applied_once}
use researchd_agent.Application.ApplyResult.Untouched.{verified_is_untouched}
use researchd_agent.Application.ApplyResult.Unverified.{worker_never_verifies}
use researchd_agent.Application.ApplyResult.Whole.{
  get_by_project_id, applied_event, apply_fresh, apply_work_result,
}
use researchd_agent.Application.Paths.{
  FileSystem, stays_inside, walk_parts, normalize_artifact_path,
}
use researchd_agent.Application.Paths.Boundary.{NoEscape}
use researchd_agent.Application.Registration.{with_info, register_artifact}
use researchd_agent.Application.Registration.Registered.{Backed, registered_is_Backed}
use researchd_agent.Domain.Claim.{Claim}
use researchd_agent.Domain.Enums.Claim.{
  ClaimEvidenceState, ClaimReviewLevel, ClaimUseState, claim_evidence_state_eq,
  claim_review_level_eq, claim_use_state_eq,
}
use researchd_agent.Domain.Enums.Evidence.{
  EvidenceStatus, EvidenceType, evidence_status_eq, evidence_type_eq,
}
use researchd_agent.Domain.Enums.Work.{ProjectStatus, project_status_eq}
use researchd_agent.Domain.Evidence.{Artifact, Evidence}
use researchd_agent.Domain.Project.{Project}
use researchd_agent.Domain.Run.{Run}
use researchd_agent.Persistence.Table.Keyed.{find}
use researchd_agent.Prelude.{
  ◌==◌, nat_eq, string_eq, ok, raise, String, ◌≡◌, refl, sym, ap, ◌≢◌, ◌⊎◌, true, false, Option,
  none, some, [], ◌∷◌, option_eq, list_eq,
}
use researchd_agent.Samples.Data.{base_one, run_of, computed}

-- texts are single components, and every file has ten bytes
abbrev pub files : FileSystem
files = record {
  absolute = λ t. t ∷ [];
  join = λ base t. t ∷ base;
  resolve = λ p. p;
  parts = λ t. t ∷ [];
  is_file = λ p. true;
  is_dir = λ p. false;
  is_symlink = λ p. false;
  st_size = λ p. 10;
  hexdigest = λ p. "cafe";
  guess_type = λ p. none;
}

abbrev workspace : Project
workspace = record {
  id = "P-1";
  project_id = "P-1";
  version = 1;
  created_at = 0;
  updated_at = 0;
  created_by = "planner";
  name = "effects";
  description = "";
  status = ProjectStatus.active;
  workspace_root = some "ws";
  policy = record { role_overrides = [] };
  paused_reason = none;
  initial_brief_hash = none;
}

abbrev pub verified_one : Evidence
verified_one = record (computed EvidenceStatus.verified) { base = record base_one { id = "E-1" } }

abbrev foreign_claim : Claim
foreign_claim = record {
  base = record base_one { id = "C-9"; project_id = some "P-2" };
  claim_id = "C-9";
  text = "it generalises";
  is_core = true;
  evidence_state = ClaimEvidenceState.untested;
  review_level = ClaimReviewLevel.none;
  use_state = ClaimUseState.draft;
  evidence_links = [];
}

abbrev pub before : ApplyDb
before = record {
  projects = workspace ∷ [];
  artifacts = [];
  evidence = verified_one ∷ [];
  claims = foreign_claim ∷ [];
  links = [];
  issues = [];
  events = [];
}

abbrev candidate_for : String → EvidenceCandidate
candidate_for k = record {
  local_ref = k;
  type = EvidenceType.computational;
  statement = "the effect is large";
  artifact_refs = "A-2" ∷ [];
  limitations = [];
  literature = none;
  computational =
      some
        (record { code_commit = some "c0ffee"; data_snapshot = none; interpretation_limits = [] });
}

abbrev change_of : String → ClaimOperation → ClaimChange
change_of k op = record {
  claim_id = some k;
  operation = op;
  text = some "the effect is large";
  is_core = none;
  evidence_relations = record { evidence_id = some "E-2"; relation = none } ∷ [];
}

abbrev declared : WorkArtifact
declared = record { local_ref = "A-2"; kind = "table"; path = "out.csv"; description = "" }

abbrev pub reported : WorkResult
reported = record {
  artifacts = declared ∷ [];
  evidence_candidates = candidate_for "E-1" ∷ candidate_for "E-2" ∷ [];
  claim_changes = change_of "C-9" retire_claim ∷ change_of "C-2" create_claim ∷ [];
  issues = record { title = "one gap"; description = ""; severity = "info" } ∷ [];
}

abbrev pub drawn : Draws
drawn = record { claim_ids = λ n. "C-0"; issue_ids = λ n. "I-1"; event_id = "EVT-1" }

abbrev pub run_one : Run
run_one = run_of "R-2" none

abbrev new_row : Artifact
new_row =
    with_info
      (record {
        path = "out.csv";
        sha256 = "cafe";
        size_bytes = 10;
        mime_type = "application/octet-stream";
      })
      (new_artifact 5 run_one declared "out.csv")

abbrev pub afterwards : ApplyDb
afterwards = record before {
  artifacts = new_row ∷ [];
  evidence = verified_one ∷ new_evidence 5 run_one (candidate_for "E-2") ∷ [];
  claims = foreign_claim ∷ new_claim 5 (some "P-1") "C-2" (change_of "C-2" create_claim) ∷ [];
  links = record { claim_id = "C-2"; evidence_id = "E-2"; relation = "supports" } ∷ [];
  issues =
      new_issue 5 run_one "I-1" (record { title = "one gap"; description = ""; severity = "info" })
      ∷ [];
  events = applied_event 5 "EVT-1" run_one ∷ [];
}

abbrev counted : ApplyOutcome
counted =
    run_applied
      (record { artifacts = 1; evidence = 1; verified_evidence = 0; claims = 1; issues = 1 })

result_applied : apply_work_result files 5 drawn run_one reported before ≡ ok (counted, afterwards)
unfolding apply_work_result apply_fresh find stays_inside walk_parts
result_applied = refl

applied_once_example :
    apply_work_result files 6 drawn run_one reported afterwards ≡ ok (run_replayed, afterwards)
applied_once_example =
    applied_once files files 5 6 drawn drawn run_one reported reported before afterwards counted
      result_applied

evidence_found : find evidence_id_of "E-1" before.evidence ≡ some verified_one
unfolding find
evidence_found = refl

verified_is_untouched_example : find evidence_id_of "E-1" afterwards.evidence ≡ some verified_one
verified_is_untouched_example =
    verified_is_untouched files 5 drawn run_one reported before afterwards counted "E-1"
      verified_one (refl, tt) evidence_found refl result_applied

worker_never_verifies_example : Memᴰ verified_one before.evidence
worker_never_verifies_example =
    worker_never_verifies files 5 drawn run_one reported before afterwards counted verified_one
      result_applied (Memᴰ.head refl) refl

claim_found : find claim_id_of "C-9" before.claims ≡ some foreign_claim
unfolding find
claim_found = refl

other_project : ◌≢◌ {A = Option String} (some "P-2") (some "P-1")
other_project p = false≢true (sym (ap (λ o. o == some "P-1") (sym p)))

foreign_claim_is_untouched_example : find claim_id_of "C-9" afterwards.claims ≡ some foreign_claim
foreign_claim_is_untouched_example =
    foreign_claim_is_untouched files 5 drawn run_one reported before afterwards counted "C-9"
      foreign_claim (refl, tt) claim_found other_project result_applied

project_found : get_by_project_id (some "P-1") before.projects ≡ some workspace
unfolding get_by_project_id find
project_found = refl

applied_artifacts-Backed_example :
    Memᴰ new_row before.artifacts ⊎ Backed files (files.absolute "ws") new_row
applied_artifacts-Backed_example =
    applied_artifacts-Backed files 5 drawn run_one reported before afterwards counted workspace "ws"
      new_row project_found refl result_applied (Memᴰ.head refl)

artifact_registered :
    register_artifact files 5
      (some workspace)
      (some "ws")
      "out.csv"
      (new_artifact 5 run_one declared "out.csv")
      []
    ≡ ok (new_row, new_row ∷ [])
unfolding register_artifact walk_parts stays_inside find
artifact_registered = refl

registered_is_Backed_example :
    (p : Project) × (root : String) × (some workspace ≡ some p)
    × (p.workspace_root ≡ some root)
    × NoEscape files (files.absolute root) (files.absolute root) (files.parts "out.csv")
    × (new_row.path ≡ "out.csv")
    × Backed files (files.absolute root) new_row
registered_is_Backed_example =
    registered_is_Backed files 5 (some workspace) (some "ws") "out.csv"
      (new_artifact 5 run_one declared "out.csv") new_row [] (new_row ∷ []) artifact_registered

normalized : normalize_artifact_path files ("ws" ∷ []) "ws/out.csv" ≡ "out.csv"
unfolding normalize_artifact_path
normalized = refl

repeated_candidate_is_refused :
    apply_candidates 5 run_one [] (candidate_for "E-2" ∷ candidate_for "E-2" ∷ []) ([], 0)
    ≡ raise (duplicate_row "E-2")
unfolding apply_candidates find
repeated_candidate_is_refused = refl
