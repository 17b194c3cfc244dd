-- ===== src/Persistence/Repository.antt =====
-- `BaseRepo` of src/researchd/persistence/repositories.py, for a domain object with its common fields. The row
-- of an object holds the object.
pub mod Versions
pub mod Others
pub mod Stored
use researchd_agent.Domain.Base.{DomainModel}
use researchd_agent.Persistence.Table.{update_where, count_where, select_where}
use researchd_agent.Persistence.Table.Keyed.{find, at_key}
use researchd_agent.Prelude.{
  ltb, if◌then◌else◌, ◌==◌, nat_eq, string_eq, Result, ok, raise, ℕ, suc, String, Bool, Option,
  none, some, List, [], ◌∷◌, ◌++◌, option_eq,
}

-- `OptimisticConcurrencyError`
pub record StaleVersion : Type 0 where
  pub stale_id : String
  pub stale_version : ℕ

module _ {R : Type 0} (key : R → ℕ) where
  unfoldable pub insert_by : R → List R → List R
  insert_by r [] = r ∷ []
  insert_by r (x ∷ xs) = if ltb (key r) (key x) then r ∷ x ∷ xs else x ∷ insert_by r xs

  -- ORDER BY; rows that tie keep their order
  unfoldable pub sort_onto : List R → List R → List R
  unfolding insert_by
  sort_onto sorted [] = sorted
  sort_onto sorted (r ∷ rows) = sort_onto (insert_by r sorted) rows

module _ {R : Type 0} (base_of : R → DomainModel) where
  abbrev pub object_id : R → String
  object_id r = (base_of r).id

  abbrev pub object_version : R → ℕ
  object_version r = (base_of r).version

  abbrev pub object_created : R → ℕ
  object_created r = (base_of r).created_at

  abbrev pub same_version : R → R → Bool
  same_version obj row = object_version row == object_version obj

  -- WHERE id = obj.id AND version = obj.version
  abbrev pub addressed : R → R → Bool
  addressed obj = at_key object_id (object_id obj) (same_version obj)

  abbrev pub stale_save : R → StaleVersion
  stale_save obj = record { stale_id = object_id obj; stale_version = object_version obj }

  unfoldable pub list_by_project : Option String → List R → List R
  unfolding sort_onto
  list_by_project project_id rows =
      sort_onto object_created [] (select_where (λ r. (base_of r).project_id == project_id) rows)

module _ {R : Type 0} (base_of : R → DomainModel) (with_base : DomainModel → R → R) where
  -- the object after an update: `obj.version += 1; obj.updated_at = now`
  abbrev pub bumped : ℕ → R → R
  bumped now obj =
      with_base
        (record (base_of obj) { version = suc (object_version base_of obj); updated_at = now }) obj

  -- the row after an update, which keeps its `created_at`
  abbrev pub written : ℕ → R → R → R
  written now obj row =
      with_base
        (record (base_of obj) {
          version = suc (object_version base_of obj);
          updated_at = now;
          created_at = object_created base_of row;
        })
        obj

  unfoldable pub update_row : ℕ → R → List R → Result StaleVersion (R × List R)
  update_row now obj rows =
      if count_where (addressed base_of obj) rows == 0
      then raise (stale_save base_of obj)
      else ok (bumped now obj, update_where (addressed base_of obj) (written now obj) rows)

  abbrev pub save_over : Option R → ℕ → R → List R → Result StaleVersion (R × List R)
  save_over none now obj rows = ok (obj, rows ++ obj ∷ [])
  save_over (some _) now obj rows = update_row now obj rows

  unfoldable pub save : ℕ → R → List R → Result StaleVersion (R × List R)
  unfolding update_row
  save now obj rows = save_over (find (object_id base_of) (object_id base_of obj) rows) now obj rows
