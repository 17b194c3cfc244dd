-- ===== src/Application/ApplyResult/ArtifactRows.antt =====
-- src/researchd/application/apply_result.py: the loop over the declared artifacts.
use researchd_agent.Application.ApplyResult.Data.{
  WorkArtifact, ApplyError, new_base, row_saved, added_here, root_missing, empty_path, reused_id,
  no_stored_hash, changed_by_other_task, referenced_by_verified, path_rejected, not_registered,
  duplicate_row,
}
use researchd_agent.Application.EvidenceValidation.{artifact_id_of}
use researchd_agent.Application.Paths.{
  Resolved, FileSystem, PathError, safe_resolve, check_symlink_escape, FileInfo,
  check_artifact_file, normalize_artifact_path,
}
use researchd_agent.Application.Registration.{
  RegistrationError, base_of_artifact, with_artifact_base, register_artifact,
}
use researchd_agent.Domain.Enums.Evidence.{EvidenceStatus, evidence_status_eq}
use researchd_agent.Domain.Evidence.{Artifact, Evidence}
use researchd_agent.Domain.Project.{Project}
use researchd_agent.Domain.Run.{Run}
use researchd_agent.Persistence.Repository.{StaleVersion, save}
use researchd_agent.Persistence.Rows.Storing.{stored}
use researchd_agent.Persistence.Table.Keyed.{find}
use researchd_agent.Prelude.{
  if◌then◌else◌, ◌==◌, nat_eq, string_eq, any, contains, truthy, Result, ok, raise, ◌>>=◌, ℕ, suc,
  String, Bool, false, not, ◌&&◌, Option, none, some, List, [], ◌∷◌, option_eq, require,
  require_some, list_eq,
}

abbrev pub path_gated : {A : Type 0} → Result PathError A → Result ApplyError A
path_gated (ok a) = ok a
path_gated (raise e) = raise (path_rejected e)

-- `safe_resolve(...).is_dir()`, where a path that escapes is no directory
abbrev pub is_directory : FileSystem → Result PathError Resolved → Bool
is_directory fs (ok path) = fs.is_dir path
is_directory fs (raise e) = false

-- a VERIFIED row of the project has the artifact among its references
abbrev pub cites : Option String → String → Evidence → Bool
cites project_id artifact_id ev =
    ev.status == EvidenceStatus.verified
    && ev.project_id == project_id
    && contains artifact_id ev.artifact_refs

-- the row of an artifact whose file changed
abbrev pub superseding : FileInfo → Run → WorkArtifact → Artifact → Artifact
superseding info run art a = record a {
  sha256 = some info.sha256;
  size_bytes = some info.size_bytes;
  mime_type = some info.mime_type;
  run_id = some run.run_id;
  description = if truthy art.description then art.description else a.description;
}

-- the rows and `counts["artifacts"]`
abbrev pub ArtifactState : Type 0
ArtifactState = List Artifact × ℕ

abbrev pub artifact_written :
    ℕ → Result StaleVersion (Artifact × List Artifact) → Result ApplyError ArtifactState
artifact_written n r = do rows ← row_saved r; ok (rows, suc n)

-- the file was read again: a hash that changed is superseded by the same task, where nothing VERIFIED cites it
unfoldable pub supersede :
    ℕ
    → Run
    → List Evidence
    → WorkArtifact
    → Artifact
    → String
    → FileInfo
    → ArtifactState
    → Result ApplyError ArtifactState
unfolding save
supersede now run evidence art existing stored info (rows, n) =
    if stored == info.sha256
    then ok (rows, n)
    else require (existing.task_id == some run.task_id) changed_by_other_task (
        require (not (any (cites run.project_id existing.artifact_id) evidence))
          referenced_by_verified
          (artifact_written n (
            save base_of_artifact with_artifact_base now (superseding info run art existing) rows)))

-- an artifact that is registered already
unfoldable pub redeclare :
    FileSystem
    → ℕ
    → Run
    → List Evidence
    → String
    → WorkArtifact
    → String
    → Artifact
    → ArtifactState
    → Result ApplyError ArtifactState
unfolding check_symlink_escape safe_resolve check_artifact_file supersede
redeclare fs now run evidence workspace_root art path existing s =
    let root = fs.absolute workspace_root in
    require (existing.project_id == run.project_id && existing.path == path) reused_id (
      require (truthy workspace_root) root_missing (do
        _ ← path_gated (check_symlink_escape fs root path)
        _ ← path_gated (safe_resolve fs root path)
        info ← path_gated (check_artifact_file fs root path)
        stored ← require_some existing.sha256 no_stored_hash
        supersede now run evidence art existing stored info s))

abbrev pub new_artifact : ℕ → Run → WorkArtifact → String → Artifact
new_artifact now run art path = record {
  base = new_base art.local_ref run.project_id now;
  artifact_id = art.local_ref;
  task_id = some run.task_id;
  run_id = some run.run_id;
  kind = art.kind;
  path = path;
  sha256 = none;
  size_bytes = none;
  mime_type = none;
  description = art.description;
  code_commit = none;
  data_version = none;
  status = "REGISTERED";
}

abbrev pub registered :
    ℕ → Result RegistrationError (Artifact × List Artifact) → Result ApplyError ArtifactState
registered n (ok (a, rows)) = ok (rows, suc n)
registered n (raise x) = raise (not_registered x)

unfoldable pub declare :
    FileSystem
    → ℕ
    → Run
    → Project
    → List Evidence
    → String
    → WorkArtifact
    → String
    → Option Artifact
    → ArtifactState
    → Result ApplyError ArtifactState
unfolding redeclare register_artifact
declare fs now run p evidence root art path none (rows, n) =
    registered n
      (register_artifact fs now (some p) p.workspace_root path (new_artifact now run art path) rows)
declare fs now run p evidence root art path (some existing) s =
    redeclare fs now run evidence root art path existing s

-- `rows_before` are the rows that the session had flushed before
unfoldable pub apply_artifact :
    FileSystem
    → ℕ
    → Run
    → Project
    → List Evidence
    → List Artifact
    → WorkArtifact
    → ArtifactState
    → Result ApplyError ArtifactState
unfolding declare normalize_artifact_path safe_resolve
apply_artifact fs now run p evidence rows_before art s = do
  workspace_root ← require_some p.workspace_root root_missing
  let root = fs.absolute workspace_root
  let path = normalize_artifact_path fs root art.path
  require (truthy path) empty_path (
      if is_directory fs (safe_resolve fs root path)
      then ok s
      else require (not (added_here artifact_id_of art.local_ref rows_before s.0))
          (duplicate_row art.local_ref)
          (declare fs now run p evidence workspace_root art path
            (find artifact_id_of art.local_ref s.0) s))

unfoldable pub apply_artifacts :
    FileSystem
    → ℕ
    → Run
    → Project
    → List Evidence
    → List Artifact
    → List WorkArtifact
    → ArtifactState
    → Result ApplyError ArtifactState
unfolding apply_artifact
apply_artifacts fs now run p evidence rows_before [] s = ok s
apply_artifacts fs now run p evidence rows_before (art ∷ arts) s =
    apply_artifact fs now run p evidence rows_before art s
    >>= apply_artifacts fs now run p evidence rows_before arts
