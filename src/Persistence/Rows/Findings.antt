-- ===== src/Persistence/Rows/Findings.antt =====
-- `ArtifactRow`, `EvidenceRow`, `ClaimRow` and `IssueRow`, with their repositories. The links of a claim are rows of
-- their own, which `ClaimRepo` does not read.
use researchd_agent.Domain.Base.{DomainModel}
use researchd_agent.Domain.Claim.{Claim}
use researchd_agent.Domain.Enums.Claim.{
  ClaimEvidenceState, ClaimReviewLevel, ClaimUseState, claim_evidence_state_eq,
  claim_review_level_eq, claim_use_state_eq,
}
use researchd_agent.Domain.Enums.Evidence.{
  EvidenceStatus, EvidenceType, evidence_status_eq, evidence_type_eq,
}
use researchd_agent.Domain.Enums.Issue.{IssueStatus, issue_status_eq}
use researchd_agent.Domain.Enums.Values.{
  member_of, evidence_status_value, evidence_status_members, member_of-evidence_status_value,
  evidence_type_value, evidence_type_members, member_of-evidence_type_value,
  claim_evidence_state_value, claim_evidence_state_members, member_of-claim_evidence_state_value,
  claim_review_level_value, claim_review_level_members, member_of-claim_review_level_value,
  claim_use_state_value, claim_use_state_members, member_of-claim_use_state_value,
  issue_status_value, issue_status_members, member_of-issue_status_value,
}
use researchd_agent.Domain.Evidence.{
  Artifact, LiteratureProvenance, ComputationalProvenance, ModelAnnotationProvenance, Evidence,
}
use researchd_agent.Domain.Issue.{Issue}
use researchd_agent.Persistence.Rows.{
  Dumping, list_or_null, list_column, list_column-list_or_null, dump_column, load_column,
  load_column-dump_column,
}
use researchd_agent.Prelude.{ℕ, String, ◌≡◌, refl, Bool, Option, none, some, List, []}

pub record ArtifactRow : Type 0 where
  pub base : DomainModel
  pub artifact_id : String
  pub task_id : Option String
  pub run_id : Option String
  pub kind : String
  pub path : String
  pub sha256 : Option String
  pub size_bytes : Option ℕ
  pub mime_type : Option String
  pub description : String
  pub code_commit : Option String
  pub data_version : Option String
  pub status : String

abbrev pub row_of_artifact : Artifact → ArtifactRow
row_of_artifact a = record {
  base = a.base;
  artifact_id = a.artifact_id;
  task_id = a.task_id;
  run_id = a.run_id;
  kind = a.kind;
  path = a.path;
  sha256 = a.sha256;
  size_bytes = a.size_bytes;
  mime_type = a.mime_type;
  description = a.description;
  code_commit = a.code_commit;
  data_version = a.data_version;
  status = a.status;
}

abbrev pub artifact_of_row : ArtifactRow → Option Artifact
artifact_of_row row = some (record {
  base = row.base;
  artifact_id = row.artifact_id;
  task_id = row.task_id;
  run_id = row.run_id;
  kind = row.kind;
  path = row.path;
  sha256 = row.sha256;
  size_bytes = row.size_bytes;
  mime_type = row.mime_type;
  description = row.description;
  code_commit = row.code_commit;
  data_version = row.data_version;
  status = row.status;
})

pub record IssueRow : Type 0 where
  pub base : DomainModel
  pub status : String
  pub issue_id : String
  pub title : String
  pub description : String
  pub severity : String
  pub task_id : Option String
  pub investigation_plan : Option String

abbrev pub row_of_issue : Issue → IssueRow
row_of_issue i = record {
  base = i.base;
  status = issue_status_value i.status;
  issue_id = i.issue_id;
  title = i.title;
  description = i.description;
  severity = i.severity;
  task_id = i.task_id;
  investigation_plan = i.investigation_plan;
}

abbrev issue_from : Option IssueStatus → IssueRow → Option Issue
issue_from none row = none
issue_from (some status) row = some (record {
  base = row.base;
  status = status;
  issue_id = row.issue_id;
  title = row.title;
  description = row.description;
  severity = row.severity;
  task_id = row.task_id;
  investigation_plan = row.investigation_plan;
})

unfoldable pub issue_of_row : IssueRow → Option Issue
unfolding member_of
issue_of_row row = issue_from (member_of issue_status_value issue_status_members row.status) row

pub issue_roundtrip : (i : Issue) → issue_of_row (row_of_issue i) ≡ some i
unfolding issue_of_row
issue_roundtrip i = rw (member_of-issue_status_value i.status) refl

pub record ClaimRow : Type 0 where
  pub base : DomainModel
  pub claim_id : String
  pub text : String
  pub is_core : Bool
  pub evidence_state : String
  pub review_level : String
  pub use_state : String

abbrev pub row_of_claim : Claim → ClaimRow
row_of_claim c = record {
  base = c.base;
  claim_id = c.claim_id;
  text = c.text;
  is_core = c.is_core;
  evidence_state = claim_evidence_state_value c.evidence_state;
  review_level = claim_review_level_value c.review_level;
  use_state = claim_use_state_value c.use_state;
}

abbrev claim_from :
    Option ClaimEvidenceState
    → Option ClaimReviewLevel
    → Option ClaimUseState
    → ClaimRow
    → Option Claim
claim_from (some evidence_state) (some review_level) (some use_state) row = some (record {
  base = row.base;
  claim_id = row.claim_id;
  text = row.text;
  is_core = row.is_core;
  evidence_state = evidence_state;
  review_level = review_level;
  use_state = use_state;
  evidence_links = [];
})
claim_from _ _ _ row = none

-- `_coerce` tries the three enumerations, which share no value, in turn
unfoldable pub claim_of_row : ClaimRow → Option Claim
unfolding member_of
claim_of_row row =
    claim_from
      (member_of claim_evidence_state_value claim_evidence_state_members row.evidence_state)
      (member_of claim_review_level_value claim_review_level_members row.review_level)
      (member_of claim_use_state_value claim_use_state_members row.use_state) row

-- A claim is read back from its row without its links, and otherwise as it was written.
pub claim_roundtrip :
    (c : Claim) → claim_of_row (row_of_claim c) ≡ some (record c { evidence_links = [] })
unfolding claim_of_row
claim_roundtrip c =
    rw
      (
        member_of-claim_evidence_state_value c.evidence_state,
        member_of-claim_review_level_value c.review_level,
        member_of-claim_use_state_value c.use_state,
      )
      refl

module _ (literatures : Dumping LiteratureProvenance)
    (computations : Dumping ComputationalProvenance)
    (annotations : Dumping ModelAnnotationProvenance) where
  pub record EvidenceRow : Type 0 where
    pub base : DomainModel
    pub evidence_id : String
    pub type : String
    pub status : String
    pub statement : String
    pub task_id : Option String
    pub run_id : Option String
    pub artifact_refs_json : Option (List String)
    pub literature_json : Option literatures.Json
    pub computational_json : Option computations.Json
    pub model_annotation_json : Option annotations.Json
    pub limitations_json : Option (List String)

  abbrev pub row_of_evidence : Evidence → EvidenceRow
  row_of_evidence e = record {
    base = e.base;
    evidence_id = e.evidence_id;
    type = evidence_type_value e.type;
    status = evidence_status_value e.status;
    statement = e.statement;
    task_id = e.task_id;
    run_id = e.run_id;
    artifact_refs_json = list_or_null e.artifact_refs;
    literature_json = dump_column literatures e.literature;
    computational_json = dump_column computations e.computational;
    model_annotation_json = dump_column annotations e.model_annotation;
    limitations_json = list_or_null e.limitations;
  }

  abbrev evidence_from :
      Option EvidenceType
      → Option EvidenceStatus
      → Option (Option LiteratureProvenance)
      → Option (Option ComputationalProvenance)
      → Option (Option ModelAnnotationProvenance)
      → EvidenceRow
      → Option Evidence
  evidence_from (some type) (some status) (some literature) (some computational)
        (some model_annotation) row =
      some (record {
        base = row.base;
        evidence_id = row.evidence_id;
        type = type;
        status = status;
        statement = row.statement;
        task_id = row.task_id;
        run_id = row.run_id;
        artifact_refs = list_column row.artifact_refs_json;
        literature = literature;
        computational = computational;
        model_annotation = model_annotation;
        limitations = list_column row.limitations_json;
      })
  evidence_from _ _ _ _ _ row = none

  unfoldable pub evidence_of_row : EvidenceRow → Option Evidence
  unfolding member_of
  evidence_of_row row =
      evidence_from (member_of evidence_type_value evidence_type_members row.type)
        (member_of evidence_status_value evidence_status_members row.status)
        (load_column literatures row.literature_json)
        (load_column computations row.computational_json)
        (load_column annotations row.model_annotation_json) row

  -- Evidence is read back from its row as it was written, with the provenance of each type.
  pub evidence_roundtrip : (e : Evidence) → evidence_of_row (row_of_evidence e) ≡ some e
  unfolding evidence_of_row
  evidence_roundtrip e =
      rw
        (
          member_of-evidence_type_value e.type,
          member_of-evidence_status_value e.status,
          load_column-dump_column literatures e.literature,
          load_column-dump_column computations e.computational,
          load_column-dump_column annotations e.model_annotation,
          list_column-list_or_null e.artifact_refs,
          list_column-list_or_null e.limitations,
        )
        refl
