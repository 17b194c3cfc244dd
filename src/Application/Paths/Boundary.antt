-- ===== src/Application/Paths/Boundary.antt =====
-- What the gate of an artifact's path and its normalisation guarantee.
use mathlib.Core.Bool.{false≢true}
use researchd_agent.Application.Paths.{
  Resolved, FileSystem, stays_inside, safe_resolve, walk_parts, check_symlink_escape, FileInfo,
  max_bytes, check_artifact_file, forward_slashes, starts_with_slash, split_first, name_of,
  relative_text, path_escape, file_missing, too_large,
}
use researchd_agent.Prelude.{
  leb, Bool-cases, nat_eq, string_eq, truthy, ok, String, ◌≡◌, sym, ap, ◌∙◌, ◌⊎◌, inl, inr, Bool,
  true, false, some, List, [], ◌∷◌, ◌++◌, ok-injective, option_eq, require-ok, bind-ok, list_eq,
}

-- each component that is a symbolic link stays inside the root
abbrev pub NoEscape : FileSystem → Resolved → Resolved → List String → Type 0
NoEscape fs root current [] = Unit
NoEscape fs root current (part ∷ rest) =
    (fs.is_symlink (fs.join current part) ≡ true
      → stays_inside root (fs.resolve (fs.join current part)) ≡ true)
    × NoEscape fs root (fs.join current part) rest

walk_parts-NoEscape :
    (fs : FileSystem) (root current : Resolved) (parts : List String) (u : Unit)
    → walk_parts fs root current parts ≡ ok u
    → NoEscape fs root current parts
unfolding walk_parts
walk_parts-NoEscape fs root current [] u h = tt
walk_parts-NoEscape fs root current (part ∷ rest) u h =
    elim (Bool-cases (fs.is_symlink (fs.join current part))) [
      | inl y ↦
          let (inside, onwards) =
            require-ok (stays_inside root (fs.resolve (fs.join current part))) path_escape
              (rw y at h) in
          (λ _. inside, walk_parts-NoEscape fs root (fs.join current part) rest u onwards)
      | inr n ↦ (
        λ p. absurd (false≢true (sym n ∙ p)),
        walk_parts-NoEscape fs root (fs.join current part) rest u (rw n at h),
      )
    ]

pub check_symlink_escape-NoEscape :
    (fs : FileSystem) (root : Resolved) (rel_path : String) (u : Unit)
    → check_symlink_escape fs root rel_path ≡ ok u
    → NoEscape fs root root (fs.parts rel_path)
unfolding check_symlink_escape
check_symlink_escape-NoEscape fs root rel_path u h =
    walk_parts-NoEscape fs root root (fs.parts rel_path) u h

abbrev pub file_at : FileSystem → Resolved → String → Resolved
file_at fs root rel_path = fs.resolve (fs.join root rel_path)

pub safe_resolve-ok :
    (fs : FileSystem) (root : Resolved) (rel_path : String) (c : Resolved)
    → safe_resolve fs root rel_path ≡ ok c
    → (stays_inside root (file_at fs root rel_path) ≡ true) × (file_at fs root rel_path ≡ c)
unfolding safe_resolve
safe_resolve-ok fs root rel_path c h =
    let (inside, same) = require-ok (stays_inside root (file_at fs root rel_path)) path_escape h in
    (inside, ok-injective same)

-- a text that names a file inside the root, and what was read of it
abbrev pub FileRead : FileSystem → Resolved → String → FileInfo → Type 0
FileRead fs root rel_path info =
    (stays_inside root (file_at fs root rel_path) ≡ true)
    × (fs.is_file (file_at fs root rel_path) ≡ true)
    × (leb (fs.st_size (file_at fs root rel_path)) max_bytes ≡ true)
    × (info.path ≡ rel_path)
    × (info.sha256 ≡ fs.hexdigest (file_at fs root rel_path))
    × (info.size_bytes ≡ fs.st_size (file_at fs root rel_path))

pub check_artifact_file-FileRead :
    (fs : FileSystem) (root : Resolved) (rel_path : String) (info : FileInfo)
    → check_artifact_file fs root rel_path ≡ ok info
    → FileRead fs root rel_path info
unfolding check_artifact_file
check_artifact_file-FileRead fs root rel_path info h =
    let (c, h1, g1) = bind-ok (safe_resolve fs root rel_path) h in
    let (inside, at_c) = safe_resolve-ok fs root rel_path c h1 in
    let (file, g2) = require-ok (fs.is_file c) file_missing g1 in
    let (small, g3) = require-ok (leb (fs.st_size c) max_bytes) too_large g2 in
    let same = ok-injective g3 in
    (
      inside,
      ap fs.is_file at_c ∙ file,
      ap (λ f. leb (fs.st_size f) max_bytes) at_c ∙ small,
      sym (ap (λ i. i.path) same),
      sym (ap (λ i. i.sha256) same) ∙ ap fs.hexdigest (sym at_c),
      sym (ap (λ i. i.size_bytes) same) ∙ ap fs.st_size (sym at_c),
    )

-- an absolute path that resolves to a regular file below the root becomes the text of what is below the root
abbrev pub MadeRelative : FileSystem → Resolved → String → String → Type 0
MadeRelative fs root p text =
    (rel : Resolved) × (starts_with_slash p ≡ true)
    × (fs.absolute p ≡ rel ++ root)
    × (fs.is_file (rel ++ root) ≡ true)
    × (text ≡ relative_text rel)

-- a path whose first part is the name of the root loses it, where the rest names a regular file below the root
abbrev pub NameDropped : FileSystem → Resolved → String → String → Type 0
NameDropped fs root p text =
    (starts_with_slash p ≡ false)
    × (split_first p ≡ (name_of root, some text))
    × (truthy text ≡ true)
    × (fs.is_file (fs.join root text) ≡ true)

-- what a path may become
abbrev Normalized : FileSystem → Resolved → String → String → Type 0
Normalized fs root path text =
    (text ≡ path)
    ⊎ MadeRelative fs root (forward_slashes path) text
    ⊎ NameDropped fs root (forward_slashes path) text
