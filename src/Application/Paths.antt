-- ===== src/Application/Paths.antt =====
-- src/researchd/application/paths.py. A resolved path is the list of its components, the last one first, and the file system
-- with what `pathlib`, `hashlib` and `mimetypes` say of it is given.
pub mod Boundary
use Prim.Native.Char.{Char, code}
use Prim.Native.String.{◌++◌ as str_append}
use researchd_agent.Prelude.{
  leb, if◌then◌else◌, ◌==◌, nat_eq, string_eq, truthy, Result, ok, ◌>>=◌, ◌>>◌, ℕ, ◌*◌, ◌^◌, String,
  Bool, true, false, ◌&&◌, Option, none, some, List, [], ◌∷◌, option_eq, require, list_eq,
}

-- components of a resolved path, the last one first
abbrev pub Resolved : Type 0
Resolved = List String

pub record FileSystem : Type 0 where
  -- `Path(text).resolve()`
  pub absolute : String → Resolved
  -- `base / text`, not resolved
  pub join : Resolved → String → Resolved
  pub resolve : Resolved → Resolved
  -- `Path(text).parts`
  pub parts : String → List String
  pub is_file : Resolved → Bool
  pub is_dir : Resolved → Bool
  pub is_symlink : Resolved → Bool
  pub st_size : Resolved → ℕ
  pub hexdigest : Resolved → String
  pub guess_type : Resolved → Option String

pub data PathError : Type 0 where
  path_escape file_missing too_large : PathError

-- `path == root or root in path.parents`
unfoldable pub stays_inside : Resolved → Resolved → Bool
stays_inside root [] = root == []
stays_inside root (c ∷ cs) =
    let rest = stays_inside root cs in if root == c ∷ cs then true else rest

unfoldable pub safe_resolve : FileSystem → Resolved → String → Result PathError Resolved
safe_resolve fs root rel_path =
    let candidate = fs.resolve (fs.join root rel_path) in
    require (stays_inside root candidate) path_escape (ok candidate)

-- the loop over the components
unfoldable pub walk_parts : FileSystem → Resolved → Resolved → List String → Result PathError Unit
walk_parts fs root current [] = ok tt
walk_parts fs root current (part ∷ rest) =
    let here_now = fs.join current part in
    let onwards = walk_parts fs root here_now rest in
    if fs.is_symlink here_now
    then require (stays_inside root (fs.resolve here_now)) path_escape onwards
    else onwards

unfoldable pub check_symlink_escape : FileSystem → Resolved → String → Result PathError Unit
check_symlink_escape fs root rel_path = walk_parts fs root root (fs.parts rel_path)

pub record FileInfo : Type 0 where
  pub path : String
  pub sha256 : String
  pub size_bytes : ℕ
  pub mime_type : String

-- `max_bytes`, 2 GiB
abbrev pub max_bytes : ℕ
max_bytes = 2 * 1024 ^ 3

abbrev pub mime_or_default : Option String → String
mime_or_default none = "application/octet-stream"
mime_or_default (some m) = if truthy m then m else "application/octet-stream"

unfoldable pub check_artifact_file : FileSystem → Resolved → String → Result PathError FileInfo
check_artifact_file fs root rel_path = do
  path ← safe_resolve fs root rel_path
  require (fs.is_file path) file_missing (
      require (leb (fs.st_size path) max_bytes) too_large (
        ok (record {
          path = rel_path;
          sha256 = fs.hexdigest path;
          size_bytes = fs.st_size path;
          mime_type = mime_or_default (fs.guess_type path);
        })))

abbrev is_slash : Char → Bool
is_slash c = code c == 47

-- `path.replace("\\", "/")`
unfoldable pub forward_slashes : String → String
forward_slashes String.[] = ""
forward_slashes (String.◌∷◌ c s) =
    let rest = forward_slashes s in if code c == 92 then str_append "/" rest else String.◌∷◌ c rest

-- `path.startswith("/")`
abbrev pub starts_with_slash : String → Bool
starts_with_slash String.[] = false
starts_with_slash (String.◌∷◌ c s) = is_slash c

-- `parts[0]` and `"/".join(parts[1:])` of `parts = path.split("/")`; without a second part there is no rest
unfoldable pub split_first : String → String × Option String
split_first String.[] = ("", none)
split_first (String.◌∷◌ c s) =
    let rest = split_first s in if is_slash c then ("", some s) else (String.◌∷◌ c rest.0, rest.1)

-- `root.name`
abbrev pub name_of : Resolved → String
name_of [] = ""
name_of (c ∷ cs) = c

abbrev pub below : String → Option Resolved → Option Resolved
below c none = none
below c (some r) = some (c ∷ r)

-- `path.relative_to(root)`
unfoldable pub relative_to : Resolved → Resolved → Option Resolved
relative_to root [] = if root == [] then some [] else none
relative_to root (c ∷ cs) =
    let rest = relative_to root cs in if root == c ∷ cs then some [] else below c rest

-- `str` of a relative path
unfoldable pub relative_text : Resolved → String
relative_text [] = "."
relative_text (c ∷ []) = c
relative_text (c ∷ d ∷ cs) = str_append (relative_text (d ∷ cs)) (str_append "/" c)

abbrev pub from_absolute : FileSystem → String → Resolved → Option Resolved → String
from_absolute fs path file none = path
from_absolute fs path file (some rel) = if fs.is_file file then relative_text rel else path

abbrev pub from_basename : FileSystem → Resolved → String → String × Option String → String
from_basename fs root path (first, none) = path
from_basename fs root path (first, some stripped) =
    if first == name_of root && truthy stripped && fs.is_file (fs.join root stripped)
    then stripped
    else path

unfoldable pub normalize_artifact_path : FileSystem → Resolved → String → String
unfolding relative_to relative_text split_first forward_slashes
normalize_artifact_path fs root path =
    let p = forward_slashes path in
    if starts_with_slash p
    then from_absolute fs path (fs.absolute p) (relative_to root (fs.absolute p))
    else from_basename fs root path (split_first p)
