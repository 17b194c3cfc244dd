-- ===== src/Application/EvidenceValidation.antt =====
-- src/researchd/application/evidence_validation.py: `verify_evidence`, over the rows of runs and artifacts. The
-- public identifiers are unique columns, so a lookup by one of them finds the row.
pub mod Provenance
use researchd_agent.Domain.Enums.Evidence.{EvidenceType, evidence_type_eq}
use researchd_agent.Domain.Evidence.{
  Artifact, LiteratureProvenance, Evidence, provenance_ok, EvidenceError, verify,
}
use researchd_agent.Domain.Run.{Run}
use researchd_agent.Domain.Task.{block}
use researchd_agent.Persistence.Table.Keyed.{find}
use researchd_agent.Prelude.{
  if◌then◌else◌, ◌==◌, nat_eq, string_eq, any, truthy, given, Result, ok, raise, ◌>>=◌, ◌>>◌, ℕ,
  String, Bool, true, false, ◌&&◌, Option, none, some, List, option_eq, require, require_some,
}

-- the database that the repositories read
pub record Records : Type 0 where
  pub runs : List Run
  pub artifacts : List Artifact

abbrev pub run_id_of : Run → String
run_id_of r = r.run_id

abbrev pub artifact_id_of : Artifact → String
artifact_id_of a = a.artifact_id

unfoldable pub get_by_run_id : Records → String → Option Run
get_by_run_id db k = find run_id_of k db.runs

unfoldable pub get_by_artifact_id : Records → String → Option Artifact
get_by_artifact_id db k = find artifact_id_of k db.artifacts

abbrev pub is_stored : Option Artifact → Bool
is_stored none = false
is_stored (some _) = true

-- the messages of `EvidenceValidationError`, the errors of the domain, and the attribute of `None`
pub data ValidationError : Type 0 where
  project_required lacks_provenance : ValidationError
  run_missing run_of_other_project : ValidationError
  artifact_missing artifact_of_other_project artifact_of_other_run no_ref_resolves : ValidationError
  snapshot_missing snapshot_of_other_project : ValidationError
  none_attribute : ValidationError
  domain_error : EvidenceError → ValidationError

abbrev pub sought_run : Records → Option String → Option Run
sought_run db none = none
sought_run db (some k) = if truthy k then get_by_run_id db k else none

abbrev pub resolves : Records → String → Bool
resolves db ref = is_stored (get_by_artifact_id db ref)

-- the block for computational evidence; it yields the artifact
unfoldable pub check_computational : Records → Evidence → Result ValidationError Artifact
unfolding get_by_run_id get_by_artifact_id
check_computational db e = do
  run ← require_some (sought_run db e.run_id) run_missing
  require (run.project_id == e.project_id) run_of_other_project (do
    c ← require_some e.computational none_attribute
    a ← require_some (get_by_artifact_id db c.artifact_id) artifact_missing
    require (a.project_id == e.project_id) artifact_of_other_project (
        require (a.run_id == some run.run_id) artifact_of_other_run
          (require (any (resolves db) e.artifact_refs) no_ref_resolves (ok a))))

-- the block for a literature snapshot
unfoldable pub check_snapshot : Records → Evidence → Result ValidationError Artifact
unfolding get_by_artifact_id
check_snapshot db e = do
  l ← require_some e.literature none_attribute
  k ← require_some l.snapshot_artifact_id none_attribute
  a ← require_some (get_by_artifact_id db k) snapshot_missing
  require (a.project_id == e.project_id) snapshot_of_other_project (ok a)

-- `evidence.literature and evidence.literature.snapshot_artifact_id`
abbrev pub has_snapshot : Option LiteratureProvenance → Bool
has_snapshot none = false
has_snapshot (some l) = given l.snapshot_artifact_id

-- a block that runs under a test
abbrev pub only_if : Bool → Result ValidationError Artifact → Result ValidationError Bool
only_if true block = do _ ← block; ok true
only_if false block = ok false

abbrev pub raised_in_domain : Result EvidenceError Evidence → Result ValidationError Evidence
raised_in_domain (ok v) = ok v
raised_in_domain (raise x) = raise (domain_error x)

unfoldable pub verify_evidence : ℕ → Records → Evidence → Result ValidationError Evidence
unfolding check_computational check_snapshot
verify_evidence now db e = require (given e.project_id) project_required (
    require (provenance_ok e) lacks_provenance (do
      _ ← only_if (e.type == EvidenceType.computational) (check_computational db e)
      _ ←
          only_if (e.type == EvidenceType.literature && has_snapshot e.literature)
            (check_snapshot db e)
      raised_in_domain (verify now e)))
