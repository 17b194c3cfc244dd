-- ===== src/Application/Registration/Registered.antt =====
-- What an artifact that was registered is backed by.
use researchd_agent.Application.Paths.{
  Resolved, FileSystem, PathError, stays_inside, safe_resolve, check_symlink_escape, FileInfo,
  max_bytes, check_artifact_file, starts_with_slash,
}
use researchd_agent.Application.Paths.Boundary.{
  NoEscape, check_symlink_escape-NoEscape, file_at, FileRead, check_artifact_file-FileRead,
}
use researchd_agent.Application.Registration.{
  base_of_artifact, with_artifact_base, is_foreign, adopted, has_backslash, same_root, path_checked,
  given_root, with_info, artifact_saved, register_artifact, no_project, foreign_artifact,
  root_mismatch, not_relative,
}
use researchd_agent.Domain.Evidence.{Artifact}
use researchd_agent.Domain.Project.{Project}
use researchd_agent.Persistence.Repository.{StaleVersion, object_id, bumped, save}
use researchd_agent.Persistence.Repository.Others.{saved_object}
use researchd_agent.Persistence.Table.Keyed.{find}
use researchd_agent.Prelude.{
  leb, Bool-cases, nat_eq, string_eq, truthy, Result, ok, raise, ℕ, String, ◌≡◌, refl, sym, ap,
  subst, ◌∙◌, ◌⊎◌, inl, inr, true, not, ◌||◌, Option, none, some, List, ok-injective, raise-ne-ok,
  option_eq, require_some, require-ok, bind-ok, require_some-ok, list_eq,
}

path_checked-ok : {A : Type 0} (r : Result PathError A) (a : A) → path_checked r ≡ ok a → r ≡ ok a
path_checked-ok (ok x) a h = ap ok (ok-injective h)
path_checked-ok (raise e) a h = absurd (raise-ne-ok h)

given_root-ok : (o : Option String) (r : String) → given_root o ≡ ok r → o ≡ some r
given_root-ok none r h = absurd (raise-ne-ok h)
given_root-ok (some t) r h = elim (Bool-cases (truthy t)) [
  | inl y ↦ ap some (ok-injective (rw y at h))
  | inr n ↦ absurd (raise-ne-ok (rw n at h))
]

artifact_saved-ok :
    (r : Result StaleVersion (Artifact × List Artifact)) (p : Artifact × List Artifact)
    → artifact_saved r ≡ ok p
    → r ≡ ok p
artifact_saved-ok (ok q) p h = ap ok (ok-injective h)
artifact_saved-ok (raise x) p h = absurd (raise-ne-ok h)

-- what `register_artifact` read of the file that it saved
pub register_artifact-FileRead :
    (fs : FileSystem) (now : ℕ) (project : Option Project) (workspace_root : Option String)
    (rel_path : String) (a : Artifact) (rows : List Artifact) (out : Artifact × List Artifact)
    → register_artifact fs now project workspace_root rel_path a rows ≡ ok out
    → (p : Project) × (root : String) × (info : FileInfo) × (project ≡ some p)
      × (p.workspace_root ≡ some root)
      × NoEscape fs (fs.absolute root) (fs.absolute root) (fs.parts rel_path)
      × FileRead fs (fs.absolute root) rel_path info
      × (save base_of_artifact with_artifact_base now (with_info info (adopted p.project_id a)) rows
          ≡ ok out)
unfolding register_artifact
register_artifact-FileRead fs now project workspace_root rel_path a rows out h =
    let (p, h1, g1) = bind-ok (require_some project no_project) h in
    let (_, g2) = require-ok (not (is_foreign p.project_id a.project_id)) foreign_artifact g1 in
    let (root, h3, g3) = bind-ok (given_root p.workspace_root) g2 in
    let (_, g4) = require-ok (same_root fs workspace_root root) root_mismatch g3 in
    let (_, g5) =
      require-ok (not (starts_with_slash rel_path || has_backslash rel_path)) not_relative g4 in
    let (u, h6, g6) =
      bind-ok (path_checked (check_symlink_escape fs (fs.absolute root) rel_path)) g5 in
    let (c, h7, g7) = bind-ok (path_checked (safe_resolve fs (fs.absolute root) rel_path)) g6 in
    let (info, h8, g8) =
      bind-ok (path_checked (check_artifact_file fs (fs.absolute root) rel_path)) g7 in
    (
      p,
      root,
      info,
      require_some-ok project no_project h1,
      given_root-ok p.workspace_root root h3,
      check_symlink_escape-NoEscape fs (fs.absolute root) rel_path u
          (path_checked-ok (check_symlink_escape fs (fs.absolute root) rel_path) u h6),
      check_artifact_file-FileRead fs (fs.absolute root) rel_path info
          (path_checked-ok (check_artifact_file fs (fs.absolute root) rel_path) info h8),
      artifact_saved-ok
          (save base_of_artifact with_artifact_base now (with_info info (adopted p.project_id a))
            rows)
          out g8,
    )

-- the artifact's hash and size are those of a regular file, of at most `max_bytes`, that its path names inside the root
abbrev pub Backed : FileSystem → Resolved → Artifact → Type 0
Backed fs root a =
    (stays_inside root (file_at fs root a.path) ≡ true)
    × (fs.is_file (file_at fs root a.path) ≡ true)
    × (leb (fs.st_size (file_at fs root a.path)) max_bytes ≡ true)
    × (a.sha256 ≡ some (fs.hexdigest (file_at fs root a.path)))
    × (a.size_bytes ≡ some (fs.st_size (file_at fs root a.path)))

-- an artifact that carries what was read of a file
pub read-Backed :
    (fs : FileSystem) (root : Resolved) (rel_path : String) (info : FileInfo) (a : Artifact)
    → FileRead fs root rel_path info
    → a.path ≡ rel_path
    → a.sha256 ≡ some info.sha256
    → a.size_bytes ≡ some info.size_bytes
    → Backed fs root a
read-Backed fs root rel_path info a (inside, file, small, _, hash, size) at_path a_hash a_size =
    subst
      (λ k.
        (stays_inside root (file_at fs root k) ≡ true)
        × (fs.is_file (file_at fs root k) ≡ true)
        × (leb (fs.st_size (file_at fs root k)) max_bytes ≡ true)
        × (a.sha256 ≡ some (fs.hexdigest (file_at fs root k)))
        × (a.size_bytes ≡ some (fs.st_size (file_at fs root k))))
      (sym at_path) (inside, file, small, a_hash ∙ ap some hash, a_size ∙ ap some size)

saved-Backed :
    (fs : FileSystem) (root : Resolved) (now : ℕ) (a b : Artifact)
    → (b ≡ a) ⊎ (b ≡ bumped base_of_artifact with_artifact_base now a)
    → Backed fs root a
    → Backed fs root b
saved-Backed fs root now a b (inl p) h = subst (Backed fs root) (sym p) h
saved-Backed fs root now a b (inr p) h = subst (Backed fs root) (sym p) h

-- An artifact that is registered belongs to a project with a workspace root, and its hash and size are those of a
-- regular file of at most 2 GiB that its path names inside the root, with no symbolic link on the way that leaves it.
pub registered_is_Backed :
    (fs : FileSystem) (now : ℕ) (project : Option Project) (workspace_root : Option String)
    (rel_path : String) (a b : Artifact) (rows after : List Artifact)
    → register_artifact fs now project workspace_root rel_path a rows ≡ ok (b, after)
    → (p : Project) × (root : String) × (project ≡ some p)
      × (p.workspace_root ≡ some root)
      × NoEscape fs (fs.absolute root) (fs.absolute root) (fs.parts rel_path)
      × (b.path ≡ rel_path)
      × Backed fs (fs.absolute root) b
unfolding save
registered_is_Backed fs now project workspace_root rel_path a b rows after h =
    let (p, root, info, same, has_root, safe, read, saved) =
      register_artifact-FileRead fs now project workspace_root rel_path a rows (b, after) h in
    let full = with_info info (adopted p.project_id a) in
    let (_, _, _, at_path, _, _) = read in
    let which =
      saved_object base_of_artifact with_artifact_base now full rows
        (find (object_id base_of_artifact) (object_id base_of_artifact full) rows) (b, after)
        saved in
    (
      p,
      root,
      same,
      has_root,
      safe,
      path_kept b full which ∙ at_path,
      saved-Backed fs (fs.absolute root) now full b which
          (read-Backed fs (fs.absolute root) rel_path info full read at_path refl refl),
    )
  where
    path_kept :
        (x y : Artifact)
        → (x ≡ y) ⊎ (x ≡ bumped base_of_artifact with_artifact_base now y)
        → x.path ≡ y.path
    path_kept x y (inl e) = ap (λ z. z.path) e
    path_kept x y (inr e) = ap (λ z. z.path) e
