-- ===== src/Application/ApplyResult/Data.antt =====
-- The tables and the result that src/researchd/application/apply_result.py works with. What `new_id` draws is
-- given, and the clock reads the same throughout a call. A call that raises commits nothing.
use Prim.Native.String.{◌++◌ as str_append}
use researchd_agent.Application.Paths.{PathError}
use researchd_agent.Application.Registration.{RegistrationError}
use researchd_agent.Domain.Base.{DomainModel}
use researchd_agent.Domain.Claim.{Claim}
use researchd_agent.Domain.Enums.Evidence.{EvidenceType, evidence_type_eq}
use researchd_agent.Domain.Event.{Event}
use researchd_agent.Domain.Evidence.{Artifact, Evidence}
use researchd_agent.Domain.Issue.{Issue}
use researchd_agent.Domain.Project.{Project}
use researchd_agent.Persistence.Repository.{StaleVersion}
use researchd_agent.Persistence.Rows.Storing.{stored}
use researchd_agent.Persistence.Table.Keyed.{find}
use researchd_agent.Prelude.{
  if◌then◌else◌, nat_eq, string_eq, truthy, Result, ok, raise, ℕ, String, Bool, true, false, not,
  ◌&&◌, Option, none, some, List, option_eq,
}

-- `ClaimEvidenceRow`, without its own id
pub record ClaimEvidenceRow : Type 0 where
  pub claim_id : String
  pub evidence_id : String
  pub relation : String

pub record ApplyDb : Type 0 where
  pub projects : List Project
  pub artifacts : List Artifact
  pub evidence : List Evidence
  pub claims : List Claim
  pub links : List ClaimEvidenceRow
  pub issues : List Issue
  pub events : List Event

pub record WorkArtifact : Type 0 where
  pub local_ref : String
  pub kind : String
  pub path : String
  pub description : String

-- the entries of the two dictionaries of a candidate that the code reads
pub record LiteratureEntries : Type 0 where
  pub source_id : Option String
  pub doi : Option String
  pub locator : Option String
  pub url : Option String

pub record ComputationalEntries : Type 0 where
  pub code_commit : Option String
  pub data_snapshot : Option String
  pub interpretation_limits : List String

-- an empty dictionary counts as `None`
pub record EvidenceCandidate : Type 0 where
  pub local_ref : String
  pub type : EvidenceType
  pub statement : String
  pub artifact_refs : List String
  pub limitations : List String
  pub literature : Option LiteratureEntries
  pub computational : Option ComputationalEntries

pub data ClaimOperation : Type 0 where
  create_claim update_claim retire_claim : ClaimOperation

pub record EvidenceRelation : Type 0 where
  pub evidence_id : Option String
  pub relation : Option String

pub record ClaimChange : Type 0 where
  pub claim_id : Option String
  pub operation : ClaimOperation
  pub text : Option String
  pub is_core : Option Bool
  pub evidence_relations : List EvidenceRelation

pub record WorkIssue : Type 0 where
  pub title : String
  pub description : String
  pub severity : String

-- the lists of `WorkResult` that are applied
pub record WorkResult : Type 0 where
  pub artifacts : List WorkArtifact
  pub evidence_candidates : List EvidenceCandidate
  pub claim_changes : List ClaimChange
  pub issues : List WorkIssue

-- the ids that the call draws: for the claim of each change, for each issue, and for the event
pub record Draws : Type 0 where
  pub claim_ids : ℕ → String
  pub issue_ids : ℕ → String
  pub event_id : String

pub record ApplyCounts : Type 0 where
  pub artifacts : ℕ
  pub evidence : ℕ
  pub verified_evidence : ℕ
  pub claims : ℕ
  pub issues : ℕ

pub data ApplyOutcome : Type 0 where
  run_replayed : ApplyOutcome
  run_applied : ApplyCounts → ApplyOutcome

pub data ApplyError : Type 0 where
  project_missing root_missing empty_path reused_id no_stored_hash : ApplyError
  changed_by_other_task referenced_by_verified : ApplyError
  path_rejected : PathError → ApplyError
  not_registered : RegistrationError → ApplyError
  stale_object : StaleVersion → ApplyError
  -- `IntegrityError`, which the session raises at its next flush
  duplicate_row : String → ApplyError

-- an aggregate that is new: its common fields
abbrev pub new_base : String → Option String → ℕ → DomainModel
new_base id project_id now = record {
  id = id;
  project_id = project_id;
  version = 1;
  created_at = now;
  updated_at = now;
  created_by = "system";
}

-- `a or b`
abbrev pub text_or : Option String → String → String
text_or none b = b
text_or (some a) b = if truthy a then a else b

abbrev pub row_saved : {R : Type 0} → Result StaleVersion (R × List R) → Result ApplyError (List R)
row_saved (ok (r, rows)) = ok rows
row_saved (raise x) = raise (stale_object x)

abbrev pub is_there : {R : Type 0} → Option R → Bool
is_there none = false
is_there (some r) = true

-- A row that this call added. The session is not flushed in between, so a SELECT does not find it, and the row would be
-- added a second time, which its unique key forbids.
abbrev pub added_here : {R : Type 0} → (R → String) → String → List R → List R → Bool
added_here key k stored rows = is_there (find key k rows) && not (is_there (find key k stored))

unfoldable pub applied_key : String → String
applied_key run_id = str_append "run-applied:" run_id
