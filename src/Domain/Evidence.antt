-- ===== src/Domain/Evidence.antt =====
-- `Artifact` and `Evidence` of src/researchd/domain/evidence.py. `statistics` and `uncertainty` are free-form
-- values that the code only carries, and are left out.
pub mod Gate
use researchd_agent.Domain.Base.{DomainModel}
use researchd_agent.Domain.Enums.Evidence.{
  EvidenceStatus, EvidenceType, evidence_status_eq, evidence_type_eq,
}
use researchd_agent.Domain.Machines.Tables.{evidence_transitions}
use researchd_agent.Domain.StateMachine.{InvalidTransition, can, transition}
use researchd_agent.Prelude.{
  if◌then◌else◌, ◌==◌, nat_eq, string_eq, contains, is_blank, truthy, given, Result, ok, raise, ℕ,
  ◌*◌, String, Bool, true, false, not, ◌&&◌, ◌||◌, Option, none, some, List, [], ◌∷◌,
}

pub record Artifact : Type 0 where
  pub base : DomainModel
  pub open base use *
  pub artifact_id : String
  pub task_id : Option String
  pub run_id : Option String
  pub kind : String
  pub path : String
  pub sha256 : Option String
  pub size_bytes : Option ℕ
  pub mime_type : Option String
  pub description : String
  pub code_commit : Option String
  pub data_version : Option String
  pub status : String

pub record LiteratureProvenance : Type 0 where
  pub source_id : String
  pub locator : Option String
  pub snapshot_artifact_id : Option String
  pub fetched_at : Option ℕ
  pub limitations : List String

pub record ComputationalProvenance : Type 0 where
  pub run_id : String
  pub artifact_id : String
  pub code_commit : Option String
  pub data_snapshot : Option String
  pub interpretation_limits : List String

pub record ModelAnnotationProvenance : Type 0 where
  pub rubric_version : String
  pub model : String
  pub sampling : String
  pub validation_artifact_id : Option String
  pub limitations : List String

pub record Evidence : Type 0 where
  pub base : DomainModel
  pub open base use *
  pub evidence_id : String
  pub type : EvidenceType
  pub status : EvidenceStatus
  pub statement : String
  pub task_id : Option String
  pub run_id : Option String
  pub artifact_refs : List String
  pub literature : Option LiteratureProvenance
  pub computational : Option ComputationalProvenance
  pub model_annotation : Option ModelAnnotationProvenance
  pub limitations : List String

-- `s == o` for a text and a text that may be `None`
abbrev pub is_text : String → Option String → Bool
is_text s none = false
is_text s (some o) = s == o

abbrev pub nonempty : List String → Bool
nonempty [] = false
nonempty (_ ∷ _) = true

abbrev pub literature_ok : Option LiteratureProvenance → String → Bool
literature_ok none statement = false
literature_ok (some l) statement = truthy l.source_id && not (is_blank statement)

abbrev pub computational_ok : Option ComputationalProvenance → Option String → List String → Bool
computational_ok none run_id refs = false
computational_ok (some c) run_id refs =
    truthy c.run_id
    && truthy c.artifact_id
    && given run_id
    && nonempty refs
    && is_text c.run_id run_id
    && contains c.artifact_id refs

abbrev pub annotation_ok : Option ModelAnnotationProvenance → Bool
annotation_ok none = false
annotation_ok (some m) = truthy m.rubric_version && truthy m.model

unfoldable pub provenance_of : EvidenceType → Evidence → Bool
provenance_of EvidenceType.literature e = literature_ok e.literature e.statement
provenance_of EvidenceType.computational e =
    computational_ok e.computational e.run_id e.artifact_refs
provenance_of EvidenceType.model_annotation e = annotation_ok e.model_annotation
provenance_of EvidenceType.human e = truthy e.created_by && not (e.created_by == "system")
provenance_of EvidenceType.other e =
    not (is_blank e.statement) && (given e.task_id || given e.run_id)

unfoldable pub provenance_ok : Evidence → Bool
unfolding provenance_of
provenance_ok e = provenance_of e.type e

pub data EvidenceError : Type 0 where
  missing_provenance verified_only_via_verify : EvidenceError
  invalid_transition : InvalidTransition EvidenceStatus → EvidenceError

abbrev pub set_evidence_status : ℕ → EvidenceStatus → Evidence → Evidence
set_evidence_status now s e = record e { base = record e.base { updated_at = now }; status = s }

unfoldable pub verify : ℕ → Evidence → Result EvidenceError Evidence
verify now e =
    if not (provenance_ok e)
    then raise missing_provenance
    else if not (can evidence_transitions e.status EvidenceStatus.verified true)
    then raise (
        invalid_transition (record {
          object = "evidence";
          current = e.status;
          target = EvidenceStatus.verified;
          reason = "";
        }))
    else ok (set_evidence_status now EvidenceStatus.verified e)

abbrev evidence_moved :
    ℕ
    → Evidence
    → Result (InvalidTransition EvidenceStatus) EvidenceStatus
    → Result EvidenceError Evidence
evidence_moved now e (ok s) = ok (set_evidence_status now s e)
evidence_moved now e (raise x) = raise (invalid_transition x)

unfoldable pub transition_evidence : ℕ → EvidenceStatus → Evidence → Result EvidenceError Evidence
transition_evidence now target e =
    if target == EvidenceStatus.verified
    then raise verified_only_via_verify
    else evidence_moved now e (transition evidence_transitions "evidence" e.status target true "")
