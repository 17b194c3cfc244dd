-- ===== src/Persistence/Rows.antt =====
-- The rows of src/researchd/persistence/models.py and their conversions in src/researchd/persistence/repositories.py. The common columns of a row are
-- a `DomainModel`, and `metadata` is left out. A conversion that pydantic refuses is `none`.
pub mod Tasks
pub mod Findings
pub mod Storing
pub mod Kinds
pub mod Decisions
use researchd_agent.Prelude.{◌≡◌, refl, Option, none, some, List, [], ◌∷◌}

-- `model_dump()` of a model, and the model made of it again
pub record Dumping (A : Type 0) : Type 1 where
  pub Json : Type 0
  pub dump : A → Json
  pub load : Json → Option A
  pub load-dump : (a : A) → load (dump a) ≡ some a

-- `xs or None`
abbrev pub list_or_null : {A : Type 0} → List A → Option (List A)
list_or_null [] = none
list_or_null (x ∷ xs) = some (x ∷ xs)

-- `column or []`
abbrev pub list_column : {A : Type 0} → Option (List A) → List A
list_column none = []
list_column (some xs) = xs

pub list_column-list_or_null : {A : Type 0} (xs : List A) → list_column (list_or_null xs) ≡ xs
list_column-list_or_null [] = refl
list_column-list_or_null (x ∷ xs) = refl

-- `m.model_dump() if m else None`
abbrev pub dump_column : {A : Type 0} (d : Dumping A) → Option A → Option d.Json
dump_column d none = none
dump_column d (some a) = some (d.dump a)

-- `Model(**column) if column else None`; the outer `none` is a refusal
abbrev pub load_some : {A : Type 0} → Option A → Option (Option A)
load_some none = none
load_some (some a) = some (some a)

abbrev pub load_column : {A : Type 0} (d : Dumping A) → Option d.Json → Option (Option A)
load_column d none = some none
load_column d (some j) = load_some (d.load j)

pub load_column-dump_column :
    {A : Type 0} (d : Dumping A) (o : Option A) → load_column d (dump_column d o) ≡ some o
load_column-dump_column d none = refl
load_column-dump_column d (some a) = rw (d.load-dump a) refl
