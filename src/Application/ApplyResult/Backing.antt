-- ===== src/Application/ApplyResult/Backing.antt =====
-- The rows of artifacts after the application of a result.
use mathlib.Core.List.{Memᴰ}
use researchd_agent.Application.ApplyResult.ArtifactRows.{
  path_gated, is_directory, cites, superseding, ArtifactState, supersede, redeclare, new_artifact,
  registered, declare, apply_artifact, apply_artifacts,
}
use researchd_agent.Application.ApplyResult.Data.{
  ApplyDb, WorkArtifact, WorkResult, Draws, ApplyOutcome, row_saved, added_here, applied_key,
  root_missing, empty_path, reused_id, no_stored_hash, changed_by_other_task,
  referenced_by_verified, duplicate_row,
}
use researchd_agent.Application.ApplyResult.Parts.{apply_fresh-ok}
use researchd_agent.Application.ApplyResult.Saved.{row_saved-All}
use researchd_agent.Application.ApplyResult.Whole.{get_by_project_id, has_event, apply_work_result}
use researchd_agent.Application.EvidenceValidation.{artifact_id_of}
use researchd_agent.Application.Paths.{
  Resolved, FileSystem, PathError, safe_resolve, check_symlink_escape, FileInfo,
  check_artifact_file, normalize_artifact_path,
}
use researchd_agent.Application.Paths.Boundary.{FileRead, check_artifact_file-FileRead}
use researchd_agent.Application.Registration.{
  RegistrationError, base_of_artifact, with_artifact_base, adopted, with_info, register_artifact,
}
use researchd_agent.Application.Registration.Registered.{
  register_artifact-FileRead, Backed, read-Backed,
}
use researchd_agent.Domain.Evidence.{Artifact, Evidence}
use researchd_agent.Domain.Project.{Project}
use researchd_agent.Domain.Run.{Run}
use researchd_agent.Persistence.Repository.{save}
use researchd_agent.Persistence.Repository.Others.{save-All}
use researchd_agent.Persistence.Rows.Storing.{stored}
use researchd_agent.Persistence.Table.Keyed.{find}
use researchd_agent.Prelude.{
  if◌then◌else◌, Bool-cases, ◌==◌, nat_eq, string_eq, any, truthy, Result, ok, raise, ℕ, String,
  ◌≡◌, refl, sym, ap, subst, ◌∙◌, ◌⊎◌, inl, inr, Bool, true, false, not, ◌&&◌, Option, none, some,
  List, [], ◌∷◌, eq_iff, All, ok-injective, raise-ne-ok, option_eq, require, require_some,
  require-ok, bind-ok, require_some-ok, list_eq, member_has, All-members,
}

-- a row that was there, or one that a file inside the root backs
abbrev pub OldOrBacked : FileSystem → Resolved → List Artifact → Artifact → Type 0
OldOrBacked fs root before a = Memᴰ a before ⊎ Backed fs root a

path_gated-ok : {A : Type 0} (r : Result PathError A) (a : A) → path_gated r ≡ ok a → r ≡ ok a
path_gated-ok (ok x) a h = ap ok (ok-injective h)
path_gated-ok (raise e) a h = absurd (raise-ne-ok h)

both_true : (a b : Bool) → a && b ≡ true → (a ≡ true) × (b ≡ true)
both_true true true h = (refl, refl)
both_true true false h = cc
both_true false b h = cc

supersede-Backed :
    (fs : FileSystem) (root : Resolved) (before : List Artifact) (now : ℕ) (run : Run)
    (evidence : List Evidence) (art : WorkArtifact) (path : String) (existing : Artifact)
    (stored : String) (info : FileInfo) (s u : ArtifactState)
    → All (OldOrBacked fs root before) s.0
    → existing.path ≡ path
    → FileRead fs root path info
    → supersede now run evidence art existing stored info s ≡ ok u
    → All (OldOrBacked fs root before) u.0
unfolding supersede
supersede-Backed fs root before now run evidence art path existing stored info s u a at_path read
      h =
    elim (Bool-cases (stored == info.sha256)) [
      | inl y ↦ subst (λ z. All (OldOrBacked fs root before) z.0) (ok-injective (rw y at h)) a
      | inr n ↦
          let full = superseding info run art existing in
          let backed = read-Backed fs root path info full read at_path refl refl in
          let (_, g1) =
            require-ok (existing.task_id == some run.task_id) changed_by_other_task (rw n at h) in
          let (_, g2) =
            require-ok (not (any (cites run.project_id existing.artifact_id) evidence))
              referenced_by_verified g1 in
          let (rows, h3, g3) =
            bind-ok (row_saved (save base_of_artifact with_artifact_base now full s.0)) g2 in
          subst (λ z. All (OldOrBacked fs root before) z.0) (ok-injective g3)
            (row_saved-All base_of_artifact with_artifact_base (λ b r. refl)
              (OldOrBacked fs root before) full now s.0 rows (inr backed) (λ b same. inr backed) a
              h3)
    ]

redeclare-Backed :
    (fs : FileSystem) (before : List Artifact) (now : ℕ) (run : Run) (evidence : List Evidence)
    (workspace_root : String) (art : WorkArtifact) (path : String) (existing : Artifact)
    (s u : ArtifactState)
    → All (OldOrBacked fs (fs.absolute workspace_root) before) s.0
    → redeclare fs now run evidence workspace_root art path existing s ≡ ok u
    → All (OldOrBacked fs (fs.absolute workspace_root) before) u.0
unfolding redeclare
redeclare-Backed fs before now run evidence workspace_root art path existing s u a h =
    let root = fs.absolute workspace_root in
    let (c, g1) =
      require-ok (existing.project_id == run.project_id && existing.path == path) reused_id h in
    let (_, g2) = require-ok (truthy workspace_root) root_missing g1 in
    let (_, _, g3) = bind-ok (path_gated (check_symlink_escape fs root path)) g2 in
    let (_, _, g4) = bind-ok (path_gated (safe_resolve fs root path)) g3 in
    let (info, h5, g5) = bind-ok (path_gated (check_artifact_file fs root path)) g4 in
    let (stored, _, g6) = bind-ok (require_some existing.sha256 no_stored_hash) g5 in
    let read =
      check_artifact_file-FileRead fs root path info
        (path_gated-ok (check_artifact_file fs root path) info h5) in
    supersede-Backed fs root before now run evidence art path existing stored info s u a
      ((eq_iff existing.path path).0 ((both_true _ (existing.path == path) c).1)) read g6

registered-ok :
    (n : ℕ) (r : Result RegistrationError (Artifact × List Artifact)) (u : ArtifactState)
    → registered n r ≡ ok u
    → (out : Artifact × List Artifact) × (r ≡ ok out) × (out.1 ≡ u.0)
registered-ok n (ok out) u h = (out, refl, ap (λ z. z.0) (ok-injective h))
registered-ok n (raise x) u h = absurd (raise-ne-ok h)

same_some : {A : Type 0} {a b : A} → ◌≡◌ {A = Option A} (some a) (some b) → a ≡ b
same_some h = cc

declare-Backed :
    (fs : FileSystem) (before : List Artifact) (now : ℕ) (run : Run) (p : Project)
    (evidence : List Evidence) (root : String) (art : WorkArtifact) (path : String)
    (found : Option Artifact) (s u : ArtifactState)
    → p.workspace_root ≡ some root
    → All (OldOrBacked fs (fs.absolute root) before) s.0
    → declare fs now run p evidence root art path found s ≡ ok u
    → All (OldOrBacked fs (fs.absolute root) before) u.0
unfolding declare
declare-Backed fs before now run p evidence root art path (some existing) s u has_root a h =
    redeclare-Backed fs before now run evidence root art path existing s u a h
declare-Backed fs before now run p evidence root art path none s u has_root a h =
    let fresh_row = new_artifact now run art path in
    let (out, h1, same) =
      registered-ok s.1 (register_artifact fs now (some p) p.workspace_root path fresh_row s.0) u
        h in
    let (q, text, info, same_p, q_root, _, read, saved) =
      register_artifact-FileRead fs now (some p) p.workspace_root path fresh_row s.0 out h1 in
    let same_root_text =
      same_some (sym q_root ∙ ap (λ z. z.workspace_root) (sym (same_some same_p)) ∙ has_root) in
    let here_read = subst (λ t. FileRead fs (fs.absolute t) path info) same_root_text read in
    let full = with_info info (adopted q.project_id fresh_row) in
    let (_, _, _, at_path, _, _) = here_read in
    let backed = read-Backed fs (fs.absolute root) path info full here_read at_path refl refl in
    subst (All (OldOrBacked fs (fs.absolute root) before)) same (
      save-All base_of_artifact with_artifact_base (λ b r. refl)
        (OldOrBacked fs (fs.absolute root) before) full (inr backed) (λ b e. inr backed) now s.0 out
        a saved)

apply_artifact-Backed :
    (fs : FileSystem) (before : List Artifact) (now : ℕ) (run : Run) (p : Project)
    (evidence : List Evidence) (stored : List Artifact) (root : String) (art : WorkArtifact)
    (s u : ArtifactState)
    → p.workspace_root ≡ some root
    → All (OldOrBacked fs (fs.absolute root) before) s.0
    → apply_artifact fs now run p evidence stored art s ≡ ok u
    → All (OldOrBacked fs (fs.absolute root) before) u.0
unfolding apply_artifact
apply_artifact-Backed fs before now run p evidence stored root art s u has_root a h =
    let (text, h1, g1) = bind-ok (require_some p.workspace_root root_missing) h in
    let same = same_some (sym (require_some-ok p.workspace_root root_missing h1) ∙ has_root) in
    by_root text same g1
  where
    by_root :
        (text : String)
        → text ≡ root
        → (require (truthy (normalize_artifact_path fs (fs.absolute text) art.path)) empty_path (
            if is_directory fs (
              safe_resolve fs
                (fs.absolute text)
                (normalize_artifact_path fs (fs.absolute text) art.path))
            then ok s
            else require
                (not (added_here artifact_id_of art.local_ref stored s.0))
                (duplicate_row art.local_ref)
                (declare fs now run p evidence text art
                  (normalize_artifact_path fs (fs.absolute text) art.path)
                  (find artifact_id_of art.local_ref s.0)
                  s)))
          ≡ ok u
        → All (OldOrBacked fs (fs.absolute root) before) u.0
    by_root text same g =
        let path = normalize_artifact_path fs (fs.absolute text) art.path in
        let (_, g2) = require-ok (truthy path) empty_path g in
        elim (Bool-cases (is_directory fs (safe_resolve fs (fs.absolute text) path))) [
          | inl y ↦
              subst (λ z. All (OldOrBacked fs (fs.absolute root) before) z.0)
                (ok-injective (rw y at g2)) a
          | inr n ↦
              let (_, g3) =
                require-ok (not (added_here artifact_id_of art.local_ref stored s.0))
                  (duplicate_row art.local_ref) (rw n at g2) in
              declare-Backed fs before now run p evidence root art path
                (find artifact_id_of art.local_ref s.0) s u has_root a
                (subst
                  (λ t.
                    declare fs now run p evidence t art path (find artifact_id_of art.local_ref s.0)
                      s
                    ≡ ok u)
                  same g3)
        ]

apply_artifacts-Backed :
    (fs : FileSystem) (before : List Artifact) (now : ℕ) (run : Run) (p : Project)
    (evidence : List Evidence) (stored : List Artifact) (root : String) (arts : List WorkArtifact)
    (s u : ArtifactState)
    → p.workspace_root ≡ some root
    → All (OldOrBacked fs (fs.absolute root) before) s.0
    → apply_artifacts fs now run p evidence stored arts s ≡ ok u
    → All (OldOrBacked fs (fs.absolute root) before) u.0
unfolding apply_artifacts
apply_artifacts-Backed fs before now run p evidence stored root [] s u has_root a h =
    subst (λ z. All (OldOrBacked fs (fs.absolute root) before) z.0) (ok-injective h) a
apply_artifacts-Backed fs before now run p evidence stored root (art ∷ arts) s u has_root a h =
    let (m, h1, h2) = bind-ok (apply_artifact fs now run p evidence stored art s) h in
    apply_artifacts-Backed fs before now run p evidence stored root arts m u has_root
      (apply_artifact-Backed fs before now run p evidence stored root art s m has_root a h1) h2

-- Each artifact in the table after a result was applied for a run, whose project has a workspace root, is one that was
-- there before, unchanged, or its hash and size are those of a regular file of at most 2 GiB inside that root.
pub applied_artifacts-Backed :
    (fs : FileSystem) (now : ℕ) (draws : Draws) (run : Run) (result : WorkResult)
    (db after : ApplyDb) (outcome : ApplyOutcome) (p : Project) (root : String) (a : Artifact)
    → get_by_project_id run.project_id db.projects ≡ some p
    → p.workspace_root ≡ some root
    → apply_work_result fs now draws run result db ≡ ok (outcome, after)
    → Memᴰ a after.artifacts
    → Memᴰ a db.artifacts ⊎ Backed fs (fs.absolute root) a
unfolding apply_work_result
applied_artifacts-Backed fs now draws run result db after outcome p root a at_p has_root h m =
    elim (Bool-cases (has_event (applied_key run.run_id) db.events)) [
      | inl y ↦ inl (subst (λ z. Memᴰ a z.1.artifacts) (sym (ok-injective (rw y at h))) m)
      | inr n ↦
          let (q, u, _, _, at_q, got, _, _, same, _, _, _) =
            apply_fresh-ok fs now draws run result db after outcome (rw n at h) in
          let q_root = ap (λ z. z.workspace_root) (same_some (sym at_q ∙ at_p)) ∙ has_root in
          member_has (OldOrBacked fs (fs.absolute root) db.artifacts) a u.0
            (apply_artifacts-Backed fs db.artifacts now run q db.evidence db.artifacts root
              result.artifacts (db.artifacts, 0) u q_root
              (All-members (OldOrBacked fs (fs.absolute root) db.artifacts) db.artifacts
                (λ x i. inl i))
              got)
            (subst (Memᴰ a) (sym same) m)
    ]
