-- ===== src/Persistence/Rows/Storing.antt =====
-- `BaseRepo` of src/researchd/persistence/repositories.py over rows: it implements the repository of objects.
use researchd_agent.Domain.Base.{DomainModel}
use researchd_agent.Persistence.Repository.{
  StaleVersion, object_id, object_version, addressed, stale_save, bumped, written, update_row,
  save_over, save,
}
use researchd_agent.Persistence.Table.{update_where, count_where}
use researchd_agent.Persistence.Table.Keyed.{find}
use researchd_agent.Prelude.{
  if◌then◌else◌, Bool-cases, ◌==◌, nat_eq, string_eq, Result, ok, raise, ℕ, suc, String, ◌≡◌, refl,
  sym, ap, ◌∙◌, ◌⊎◌, inl, inr, Option, none, some, List, [], ◌∷◌, ◌++◌, ok-injective, raise-ne-ok,
  option_eq,
}

-- a kind of object with its row, which has the object's common fields
pub record RowOf (Obj Row : Type 0) : Type 0 where
  pub object_base : Obj → DomainModel
  pub with_object_base : DomainModel → Obj → Obj
  pub row_base : Row → DomainModel
  pub with_row_base : DomainModel → Row → Row
  pub to_row : Obj → Row
  pub base-to_row : (o : Obj) → row_base (to_row o) ≡ object_base o
  pub with_base-to_row :
      (b : DomainModel) (o : Obj) → with_row_base b (to_row o) ≡ to_row (with_object_base b o)

-- a kind whose rows are read back as what was written
pub record StoredAs (Obj Row : Type 0) : Type 0 where
  pub kind : RowOf Obj Row
  pub to_domain : Row → Option Obj
  pub domain-to_row : (o : Obj) → to_domain (kind.to_row o) ≡ some o

module _ {Obj Row : Type 0} (kind : RowOf Obj Row) where
  abbrev pub rows_of : List Obj → List Row
  rows_of [] = []
  rows_of (o ∷ os) = kind.to_row o ∷ rows_of os

  abbrev row_saved_over : Option Row → ℕ → Obj → List Row → Result StaleVersion (Obj × List Row)
  row_saved_over none now obj rows = ok (obj, rows ++ kind.to_row obj ∷ [])
  row_saved_over (some existing) now obj rows =
      if count_where (addressed kind.row_base (kind.to_row obj)) rows == 0
      then raise (stale_save kind.object_base obj)
      else ok (
        bumped kind.object_base kind.with_object_base now obj,
        update_where (addressed kind.row_base (kind.to_row obj))
            (written kind.row_base kind.with_row_base now (kind.to_row obj)) rows,
      )

  unfoldable pub save_row : ℕ → Obj → List Row → Result StaleVersion (Obj × List Row)
  save_row now obj rows =
      row_saved_over (find (object_id kind.row_base) (object_id kind.object_base obj) rows) now obj
        rows

  abbrev pub row_if_found : Option Obj → Option Row
  row_if_found none = none
  row_if_found (some o) = some (kind.to_row o)

  abbrev pub stored : Result StaleVersion (Obj × List Obj) → Result StaleVersion (Obj × List Row)
  stored (ok (o, objects)) = ok (o, rows_of objects)
  stored (raise x) = raise x

  id_of-to_row : (o : Obj) → object_id kind.row_base (kind.to_row o) ≡ object_id kind.object_base o
  id_of-to_row o = ap (λ b. b.id) (kind.base-to_row o)

  version_of-to_row :
      (o : Obj) → object_version kind.row_base (kind.to_row o) ≡ object_version kind.object_base o
  version_of-to_row o = ap (λ b. b.version) (kind.base-to_row o)

  find-rows_of :
      (id : String) (objects : List Obj)
      → find (object_id kind.row_base) id (rows_of objects)
        ≡ row_if_found (find (object_id kind.object_base) id objects)
  unfolding find
  find-rows_of id [] = refl
  find-rows_of id (o ∷ os) = elim (Bool-cases (object_id kind.object_base o == id)) [
    | inl y ↦ rw (id_of-to_row o, y) refl
    | inr n ↦ rw (id_of-to_row o, n) (find-rows_of id os)
  ]

  addressed-to_row :
      (obj o : Obj)
      → addressed kind.row_base (kind.to_row obj) (kind.to_row o) ≡ addressed kind.object_base obj o
  addressed-to_row obj o =
      rw (id_of-to_row o, id_of-to_row obj, version_of-to_row o, version_of-to_row obj) refl

  -- the common columns after an update
  abbrev updated_base : ℕ → DomainModel → DomainModel → DomainModel
  updated_base now b existing = record b {
    version = suc b.version;
    updated_at = now;
    created_at = existing.created_at;
  }

  written-to_row :
      (now : ℕ) (obj o : Obj)
      → written kind.row_base kind.with_row_base now (kind.to_row obj) (kind.to_row o)
        ≡ kind.to_row (written kind.object_base kind.with_object_base now obj o)
  written-to_row now obj o =
      kind.with_base-to_row
        (updated_base now (kind.row_base (kind.to_row obj)) (kind.row_base (kind.to_row o))) obj
      ∙ ap
          (λ b.
            kind.to_row
              (kind.with_object_base (updated_base now b (kind.row_base (kind.to_row o))) obj))
          (kind.base-to_row obj)
      ∙ ap
          (λ b. kind.to_row (kind.with_object_base (updated_base now (kind.object_base obj) b) obj))
          (kind.base-to_row o)

  count-rows_of :
      (obj : Obj) (objects : List Obj)
      → count_where (addressed kind.row_base (kind.to_row obj)) (rows_of objects)
        ≡ count_where (addressed kind.object_base obj) objects
  unfolding count_where
  count-rows_of obj [] = refl
  count-rows_of obj (o ∷ os) = rw (addressed-to_row obj o, count-rows_of obj os) refl

  update-rows_of :
      (now : ℕ) (obj : Obj) (objects : List Obj)
      → update_where
          (addressed kind.row_base (kind.to_row obj))
          (written kind.row_base kind.with_row_base now (kind.to_row obj))
          (rows_of objects)
        ≡ rows_of (
            update_where
              (addressed kind.object_base obj)
              (written kind.object_base kind.with_object_base now obj)
              objects)
  unfolding update_where
  update-rows_of now obj [] = refl
  update-rows_of now obj (o ∷ os) = elim (Bool-cases (addressed kind.object_base obj o)) [
    | inl y ↦
        rw (addressed-to_row obj o, y, written-to_row now obj o, update-rows_of now obj os) refl
    | inr n ↦ rw (addressed-to_row obj o, n, update-rows_of now obj os) refl
  ]

  append-rows_of :
      (obj : Obj) (objects : List Obj)
      → rows_of objects ++ kind.to_row obj ∷ [] ≡ rows_of (objects ++ obj ∷ [])
  append-rows_of obj [] = refl
  append-rows_of obj (o ∷ os) = ap (λ l. kind.to_row o ∷ l) (append-rows_of obj os)

  saved_over-rows_of :
      (now : ℕ) (obj : Obj) (objects : List Obj) (found : Option Obj)
      → row_saved_over (row_if_found found) now obj (rows_of objects)
        ≡ stored (save_over kind.object_base kind.with_object_base found now obj objects)
  unfolding update_row
  saved_over-rows_of now obj objects none = ap (λ l. ok (obj, l)) (append-rows_of obj objects)
  saved_over-rows_of now obj objects (some x) =
      elim (Bool-cases (count_where (addressed kind.object_base obj) objects == 0)) [
        | inl y ↦ rw (count-rows_of obj objects, y) refl
        | inr n ↦ rw (count-rows_of obj objects, n, update-rows_of now obj objects) refl
      ]

  bumped-to_row :
      (now : ℕ) (obj : Obj)
      → bumped kind.row_base kind.with_row_base now (kind.to_row obj)
        ≡ kind.to_row (bumped kind.object_base kind.with_object_base now obj)
  bumped-to_row now obj =
      kind.with_base-to_row _ obj
      ∙ ap
          (λ b.
            kind.to_row
              (kind.with_object_base (record b { version = suc b.version; updated_at = now }) obj))
          (kind.base-to_row obj)

  saved_over-ok :
      (now : ℕ) (obj : Obj) (rows : List Row) (found : Option Row) (p : Obj × List Row)
      → row_saved_over found now obj rows ≡ ok p
      → (save_over kind.row_base kind.with_row_base found now (kind.to_row obj) rows
          ≡ ok (kind.to_row p.0, p.1))
        × ((p.0 ≡ obj) ⊎ (p.0 ≡ bumped kind.object_base kind.with_object_base now obj))
  unfolding update_row
  saved_over-ok now obj rows none p h =
      let out = ok-injective h in
      (ap (λ z. ok (kind.to_row z.0, z.1)) out, inl (ap (λ z. z.0) (sym out)))
  saved_over-ok now obj rows (some x) p h =
      elim (Bool-cases (count_where (addressed kind.row_base (kind.to_row obj)) rows == 0)) [
        | inl y ↦ absurd (raise-ne-ok (rw y at h))
        | inr n ↦
            let out = ok-injective (rw n at h) in
            let rest =
              update_where (addressed kind.row_base (kind.to_row obj))
                (written kind.row_base kind.with_row_base now (kind.to_row obj)) rows in
            (
              rw n (
                  ap (λ q. ok (q, rest)) (bumped-to_row now obj)
                  ∙ ap (λ z. ok (kind.to_row z.0, z.1)) out),
              inr (ap (λ z. z.0) (sym out)),
            )
      ]

  -- a save of an object is a save of its row
  pub save_row-ok :
      (now : ℕ) (obj : Obj) (rows : List Row) (p : Obj × List Row)
      → save_row now obj rows ≡ ok p
      → (save kind.row_base kind.with_row_base now (kind.to_row obj) rows
          ≡ ok (kind.to_row p.0, p.1))
        × ((p.0 ≡ obj) ⊎ (p.0 ≡ bumped kind.object_base kind.with_object_base now obj))
  unfolding save_row save
  save_row-ok now obj rows p h = rw (id_of-to_row obj) (
      saved_over-ok now obj rows
        (find (object_id kind.row_base) (object_id kind.object_base obj) rows) p h)

module _ {Obj Row : Type 0} (stored_as : StoredAs Obj Row) where
  abbrev pub read_row : Option Row → Option Obj
  read_row none = none
  read_row (some row) = stored_as.to_domain row

  unfoldable pub get_row : String → List Row → Option Obj
  get_row id rows = read_row (find (object_id stored_as.kind.row_base) id rows)

  read_found : (o : Option Obj) → read_row (row_if_found stored_as.kind o) ≡ o
  read_found none = refl
  read_found (some x) = stored_as.domain-to_row x

  -- The repository over rows implements the repository over objects: on the rows of any objects, a save returns the same
  -- object or the same refusal and leaves the rows of the objects that the abstract save leaves, and a get finds
  -- the same object.
  pub rows_implement_objects :
      (now : ℕ) (obj : Obj) (id : String) (objects : List Obj)
      → (save_row stored_as.kind now obj (rows_of stored_as.kind objects)
          ≡ stored stored_as.kind
              (save stored_as.kind.object_base stored_as.kind.with_object_base now obj objects))
        × (get_row id (rows_of stored_as.kind objects)
            ≡ find (object_id stored_as.kind.object_base) id objects)
  unfolding save_row save get_row
  rows_implement_objects now obj id objects =
      let found = find (object_id stored_as.kind.object_base) in
      (
        rw (find-rows_of stored_as.kind (object_id stored_as.kind.object_base obj) objects) (
            saved_over-rows_of stored_as.kind now obj objects
              (found (object_id stored_as.kind.object_base obj) objects)),
        rw (find-rows_of stored_as.kind id objects) (read_found (found id objects)),
      )
