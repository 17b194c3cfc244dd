-- ===== src/Persistence/Repository/Stored.antt =====
-- The row that a save leaves under the id of its object.
use mathlib.Core.Bool.{false≢true}
use text.Mathlib.TextPositions.{eq_refl}
use researchd_agent.Domain.Base.{DomainModel}
use researchd_agent.Persistence.Repository.{
  object_id, object_version, object_created, same_version, addressed, bumped, written, update_row,
  save_over, save,
}
use researchd_agent.Persistence.Repository.Versions.{find-overwritten}
use researchd_agent.Persistence.Table.{update_where, count_where}
use researchd_agent.Persistence.Table.Keyed.{find, Unique, if_meets, hit, count-miss}
use researchd_agent.Prelude.{
  Bool-cases, ◌==◌, nat_eq, string_eq, ok, ℕ, suc, String, ◌≡◌, refl, sym, ap, ◌∙◌, ◌≢◌, ◌⊎◌, inl,
  inr, true, Option, none, some, List, [], ◌∷◌, ◌++◌, ok-injective, raise-ne-ok, option_eq,
  nat_beq_iff,
}

same_some {ℓ} : {A : Type ℓ} {a b : A} → ◌≡◌ {A = Option A} (some a) (some b) → a ≡ b
same_some h = cc

none-ne-some {ℓ} : {A : Type ℓ} {a : A} → ◌≢◌ {A = Option A} none (some a)
none-ne-some h = cc

module _ {R : Type 0} (base_of : R → DomainModel) (with_base : DomainModel → R → R)
    (law : (b : DomainModel) (r : R) → base_of (with_base b r) ≡ b) where
  abbrev id_of : R → String
  id_of = object_id base_of

  find-appended :
      (obj : R) (rows : List R)
      → find id_of (id_of obj) rows ≡ none
      → find id_of (id_of obj) (rows ++ obj ∷ []) ≡ some obj
  unfolding find
  find-appended obj [] h = rw (eq_refl (id_of obj)) refl
  find-appended obj (r ∷ rs) h = elim (Bool-cases (id_of r == id_of obj)) [
    | inl y ↦ absurd (none-ne-some (sym (rw y at h)))
    | inr n ↦ rw n (find-appended obj rs (rw n at h))
  ]

  find-written :
      (now : ℕ) (obj x : R) (rows : List R)
      → find id_of (id_of obj) rows ≡ some x
      → same_version base_of obj x ≡ true
      → find id_of
          (id_of obj)
          (update_where (addressed base_of obj) (written base_of with_base now obj) rows)
        ≡ some (written base_of with_base now obj x)
  find-written now obj x rows h v =
      find-overwritten id_of (id_of obj) (written base_of with_base now obj)
        (λ r. ap (λ m. m.id) (law _ obj)) (same_version base_of obj) rows
      ∙ ap (if_meets id_of (same_version base_of obj) (written base_of with_base now obj)) h
      ∙ rw v refl

  -- what was saved, under the id of the object
  abbrev pub Saved : ℕ → R → R → R → Type 0
  Saved now obj returned row =
      (row ≡ obj) × (returned ≡ obj)
      ⊎ ((x : R) × (row ≡ written base_of with_base now obj x)
          × (returned ≡ bumped base_of with_base now obj))

  save_over-Saved :
      (now : ℕ) (obj : R) (rows : List R) (found : Option R) (p : R × List R)
      → Unique id_of rows
      → find id_of (id_of obj) rows ≡ found
      → save_over base_of with_base found now obj rows ≡ ok p
      → (row : R) × (find id_of (id_of obj) p.1 ≡ some row) × Saved now obj p.0 row
  unfolding update_row
  save_over-Saved now obj rows none p u f h =
      let out = sym (ok-injective h) in
      (
        obj,
        ap (λ z. find id_of (id_of obj) z.1) out ∙ find-appended obj rows f,
        inl (refl, ap (λ z. z.0) out),
      )
  save_over-Saved now obj rows (some x) p u f h =
      elim (Bool-cases (count_where (addressed base_of obj) rows == 0)) [
        | inl y ↦ absurd (raise-ne-ok (rw y at h))
        | inr n ↦
            let out = sym (ok-injective (rw n at h)) in
            elim (Bool-cases (same_version base_of obj x)) [
              | inl v ↦ (
                written base_of with_base now obj x,
                ap (λ z. find id_of (id_of obj) z.1) out ∙ find-written now obj x rows f v,
                inr (x, refl, ap (λ z. z.0) out),
              )
              | inr w ↦
                  let missed =
                    count-miss id_of (id_of obj) (same_version base_of obj) rows u
                      (ap (hit id_of (same_version base_of obj)) f ∙ w) in
                  absurd (false≢true (sym n ∙ (nat_beq_iff _ 0).1 missed))
            ]
      ]

  -- Where ids are unique, the row under the id of a saved object is the object, or the object with the next version and
  -- the time of creation of the row that was there.
  pub save-Saved :
      (now : ℕ) (obj : R) (rows : List R) (p : R × List R)
      → Unique id_of rows
      → save base_of with_base now obj rows ≡ ok p
      → (row : R) × (find id_of (id_of obj) p.1 ≡ some row) × Saved now obj p.0 row
  unfolding save
  save-Saved now obj rows p u h =
      save_over-Saved now obj rows (find id_of (id_of obj) rows) p u refl h

  -- a new object
  pub save-new :
      (now : ℕ) (obj : R) (rows : List R) (p : R × List R)
      → find id_of (id_of obj) rows ≡ none
      → save base_of with_base now obj rows ≡ ok p
      → (p.0 ≡ obj) × (find id_of (id_of obj) p.1 ≡ some obj)
  unfolding save
  save-new now obj rows p f h =
      let out = sym (ok-injective (rw f at h)) in
      (ap (λ z. z.0) out, ap (λ z. find id_of (id_of obj) z.1) out ∙ find-appended obj rows f)

  -- an object that was read from its row and changed, but for its version and its time of creation
  pub save-current :
      (now : ℕ) (obj x : R) (rows : List R) (p : R × List R)
      → find id_of (id_of obj) rows ≡ some x
      → object_version base_of x ≡ object_version base_of obj
      → object_created base_of x ≡ object_created base_of obj
      → save base_of with_base now obj rows ≡ ok p
      → find id_of (id_of obj) p.1 ≡ some p.0
  unfolding save update_row
  save-current now obj x rows p f v c h =
      elim (Bool-cases (count_where (addressed base_of obj) rows == 0)) [
        | inl y ↦ absurd (raise-ne-ok (rw (f, y) at h))
        | inr n ↦
            let out = sym (ok-injective (rw (f, n) at h)) in
            ap (λ z. find id_of (id_of obj) z.1) out
            ∙ find-written now obj x rows f
                ((nat_beq_iff (object_version base_of x) (object_version base_of obj)).1 v)
            ∙ ap
                (λ t. some (
                  with_base
                    (record (base_of obj) {
                      version = suc (object_version base_of obj);
                      updated_at = now;
                      created_at = t;
                    })
                    obj))
                c
            ∙ ap (λ z. some z.0) (sym out)
      ]
