-- ===== src/Application/Registration.antt =====
-- `register_artifact` of src/researchd/application/evidence_validation.py.
pub mod Registered
use Prim.Native.Char.{code}
use researchd_agent.Application.Paths.{
  FileSystem, PathError, safe_resolve, check_symlink_escape, FileInfo, check_artifact_file,
  starts_with_slash,
}
use researchd_agent.Domain.Base.{DomainModel}
use researchd_agent.Domain.Evidence.{Artifact}
use researchd_agent.Domain.Project.{Project}
use researchd_agent.Persistence.Repository.{StaleVersion, save}
use researchd_agent.Prelude.{
  if◌then◌else◌, ◌==◌, nat_eq, string_eq, truthy, given, Result, ok, raise, ◌>>=◌, ◌>>◌, ℕ, String,
  Bool, true, false, not, ◌&&◌, ◌||◌, Option, none, some, List, [], option_eq, require,
  require_some, list_eq,
}

pub data RegistrationError : Type 0 where
  no_project foreign_artifact no_workspace_root root_mismatch not_relative : RegistrationError
  path_refused : PathError → RegistrationError
  stale_artifact : StaleVersion → RegistrationError

abbrev pub base_of_artifact : Artifact → DomainModel
base_of_artifact a = a.base

abbrev pub with_artifact_base : DomainModel → Artifact → Artifact
with_artifact_base b a = record a { base = b }

-- `project_id and artifact.project_id and artifact.project_id != project_id`
abbrev pub is_foreign : String → Option String → Bool
is_foreign project_id none = false
is_foreign project_id (some k) = truthy project_id && truthy k && not (k == project_id)

-- `if project_id and not artifact.project_id`
abbrev pub adopted : String → Artifact → Artifact
adopted project_id a =
    if truthy project_id && not (given a.project_id)
    then record a { base = record a.base { project_id = some project_id } }
    else a

unfoldable pub has_backslash : String → Bool
has_backslash String.[] = false
has_backslash (String.◌∷◌ c s) = code c == 92 || has_backslash s

-- the caller's root, when it is given, resolves to the root of the project
abbrev pub same_root : FileSystem → Option String → String → Bool
same_root fs none project_root = true
same_root fs (some caller) project_root = fs.absolute caller == fs.absolute project_root

abbrev pub path_checked : {A : Type 0} → Result PathError A → Result RegistrationError A
path_checked (ok a) = ok a
path_checked (raise e) = raise (path_refused e)

abbrev pub given_root : Option String → Result RegistrationError String
given_root none = raise no_workspace_root
given_root (some r) = if truthy r then ok r else raise no_workspace_root

-- the artifact with what its file says
abbrev pub with_info : FileInfo → Artifact → Artifact
with_info info a = record a {
  path = info.path;
  sha256 = some info.sha256;
  size_bytes = some info.size_bytes;
  mime_type = some info.mime_type;
}

abbrev pub artifact_saved :
    Result StaleVersion (Artifact × List Artifact)
    → Result RegistrationError (Artifact × List Artifact)
artifact_saved (ok p) = ok p
artifact_saved (raise x) = raise (stale_artifact x)

unfoldable pub register_artifact :
    FileSystem
    → ℕ
    → Option Project
    → Option String
    → String
    → Artifact
    → List Artifact
    → Result RegistrationError (Artifact × List Artifact)
unfolding check_symlink_escape safe_resolve check_artifact_file save has_backslash
register_artifact fs now project workspace_root rel_path artifact rows = do
  p ← require_some project no_project
  require (not (is_foreign p.project_id artifact.project_id)) foreign_artifact (do
    project_root ← given_root p.workspace_root
    require (same_root fs workspace_root project_root) root_mismatch (
        require (not (starts_with_slash rel_path || has_backslash rel_path)) not_relative (do
          let root = fs.absolute project_root
          _ ← path_checked (check_symlink_escape fs root rel_path)
          _ ← path_checked (safe_resolve fs root rel_path)
          info ← path_checked (check_artifact_file fs root rel_path)
          artifact_saved (
              save base_of_artifact with_artifact_base now
                (with_info info (adopted p.project_id artifact)) rows))))
