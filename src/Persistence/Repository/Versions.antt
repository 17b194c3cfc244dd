-- ===== src/Persistence/Repository/Versions.antt =====
-- Optimistic concurrency: saves of the version that is stored, and of one that no longer is.
use text.Mathlib.TextPositions.{eq_refl}
use researchd_agent.Domain.Base.{DomainModel}
use researchd_agent.Persistence.Repository.{
  object_id, object_version, same_version, addressed, stale_save, bumped, written, update_row, save,
}
use researchd_agent.Persistence.Table.{update_where, count_where}
use researchd_agent.Persistence.Table.Keyed.{
  find, Unique, at_key, if_meets, count-none, hit, count-hit, update-miss,
}
use researchd_agent.Prelude.{
  Bool-cases, ◌==◌, nat_eq, string_eq, ok, raise, ℕ, suc, String, ◌≡◌, refl, sym, ap, subst, ◌∙◌,
  inl, inr, Bool, true, false, Option, none, some, List, [], ◌∷◌, arith, eq_iff, option_eq,
  nat_beq_iff,
}

same_some {ℓ} : {A : Type ℓ} {a b : A} → ◌≡◌ {A = Option A} (some a) (some b) → a ≡ b
same_some h = cc

next_version_differs : (m n v : ℕ) → v ≡ suc m → n ≡ m → (v == n) ≡ false
next_version_differs m n v h e = ground arith

-- statements that overwrite the row at a key
module _ {R : Type 0} (key : R → String) (k : String) (f : R → R)
    (lands : (r : R) → key (f r) ≡ k) where
  pub find-overwritten :
      (q : R → Bool) (rows : List R)
      → find key k (update_where (at_key key k q) f rows) ≡ if_meets key q f (find key k rows)
  unfolding find update_where
  find-overwritten q [] = refl
  find-overwritten q (r ∷ rs) = elim (Bool-cases (key r == k)) [
    | inl y ↦ elim (Bool-cases (q r)) [
      | inl m ↦ rw (y, m, lands r, eq_refl k) refl
      | inr n ↦ rw (y, n, y) refl
    ]
    | inr o ↦ rw (o, o) (find-overwritten q rs)
  ]

  count-overwritten :
      (q p : R → Bool) (rows : List R) (x : R)
      → Unique key rows
      → find key k rows ≡ some x
      → q x ≡ true
      → ((r : R) → p (f r) ≡ false)
      → count_where (at_key key k p) (update_where (at_key key k q) f rows) ≡ 0
  unfolding find update_where count_where
  count-overwritten q p [] x u h m never = refl
  count-overwritten q p (r ∷ rs) x u h m never = elim (Bool-cases (key r == k)) [
    | inl y ↦
        let absent = subst (λ j. find key j rs ≡ none) ((eq_iff (key r) k).0 y) u.0 in
        let same_row = subst (λ z. q z ≡ true) (sym (same_some (rw y at h))) m in
        rw
          (
            y,
            same_row,
            lands r,
            eq_refl k,
            never r,
            update-miss key (at_key key k q) f rs (count-none key k q rs absent),
          )
          (count-none key k p rs absent)
    | inr o ↦ rw (o, o) (count-overwritten q p rs x u.1 (rw o at h) m never)
  ]

module _ {R : Type 0} (base_of : R → DomainModel) (with_base : DomainModel → R → R)
    (law : (b : DomainModel) (r : R) → base_of (with_base b r) ≡ b) where
  abbrev id_of : R → String
  id_of = object_id base_of

  -- a save of the version that is stored
  save_current :
      (now : ℕ) (a x : R) (rows : List R)
      → Unique id_of rows
      → find id_of (id_of a) rows ≡ some x
      → same_version base_of a x ≡ true
      → save base_of with_base now a rows
        ≡ ok (
          bumped base_of with_base now a,
          update_where (addressed base_of a) (written base_of with_base now a) rows,
        )
  unfolding save update_row
  save_current now a x rows u h va =
      let one = (nat_beq_iff _ 1).0 (
        count-hit id_of (id_of a) (same_version base_of a) rows u
        ∙ ap (hit id_of (same_version base_of a)) h
        ∙ va) in
      rw (h, one) refl

  save_refused :
      (now : ℕ) (b x : R) (rows : List R)
      → find id_of (id_of b) rows ≡ some x
      → count_where (addressed base_of b) rows ≡ 0
      → save base_of with_base now b rows ≡ raise (stale_save base_of b)
  unfolding save update_row
  save_refused now b x rows h none_hit = rw (h, none_hit) refl

  -- Two writers read the same version of a stored object. The first to save succeeds, and the row then holds
  -- what it wrote, with the next version and the time of creation of the row. The second is refused as stale.
  pub first_writer_wins :
      (now after : ℕ) (a b x : R) (rows : List R)
      → Unique id_of rows
      → find id_of (id_of a) rows ≡ some x
      → id_of b ≡ id_of a
      → same_version base_of a x ≡ true
      → object_version base_of b ≡ object_version base_of a
      → (save base_of with_base now a rows
          ≡ ok (
            bumped base_of with_base now a,
            update_where (addressed base_of a) (written base_of with_base now a) rows,
          ))
        × (find id_of
              (id_of a)
              (update_where (addressed base_of a) (written base_of with_base now a) rows)
            ≡ some (written base_of with_base now a x))
        × (save base_of with_base after b
              (update_where (addressed base_of a) (written base_of with_base now a) rows)
            ≡ raise (stale_save base_of b))
  first_writer_wins now after a b x rows u h ids va vb =
      let lands = λ (r : R). ap (λ m. m.id) (law _ a) in
      let there =
        find-overwritten id_of (id_of a) (written base_of with_base now a) lands
          (same_version base_of a) rows
        ∙ ap (if_meets id_of (same_version base_of a) (written base_of with_base now a)) h
        ∙ rw va refl in
      let gone =
        count-overwritten id_of (id_of a) (written base_of with_base now a) lands
          (same_version base_of a) (same_version base_of b) rows x u h va
          (λ r.
            next_version_differs (object_version base_of a) (object_version base_of b) _
              (ap (λ m. m.version) (law _ a)) vb) in
      (
        save_current now a x rows u h va,
        there,
        save_refused after b (written base_of with_base now a x) _
            (ap
                (λ k.
                  find id_of k
                    (update_where (addressed base_of a) (written base_of with_base now a) rows))
                ids
              ∙ there)
            (ap
                (λ k.
                  count_where (at_key id_of k (same_version base_of b))
                    (update_where (addressed base_of a) (written base_of with_base now a) rows))
                ids
              ∙ gone),
      )
