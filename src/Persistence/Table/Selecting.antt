-- ===== src/Persistence/Table/Selecting.antt =====
-- What a SELECT with a WHERE hands back.
use mathlib.Core.List.{Memᴰ}
use researchd_agent.Persistence.Table.{select_where}
use researchd_agent.Prelude.{
  Bool-cases, ◌≡◌, refl, ap, subst, inl, inr, Bool, true, List, [], ◌∷◌, ◌++◌,
}

module _ {R : Type 0} where
  pub mem-select :
      (p : R → Bool) (r : R) (rows : List R)
      → p r ≡ true
      → Memᴰ r rows
      → Memᴰ r (select_where p rows)
  unfolding select_where
  mem-select p r [] h m = elim m [ ]
  mem-select p r (x ∷ rs) h (Memᴰ.head e) = rw (subst (λ y. p y ≡ true) e h) (Memᴰ.head e)
  mem-select p r (x ∷ rs) h (Memᴰ.tail m) = elim (Bool-cases (p x)) [
    | inl y ↦ rw y (Memᴰ.tail (mem-select p r rs h m))
    | inr n ↦ rw n (mem-select p r rs h m)
  ]

  pub select-append :
      (p : R → Bool) (xs ys : List R)
      → select_where p (xs ++ ys) ≡ select_where p xs ++ select_where p ys
  unfolding select_where
  select-append p [] ys = refl
  select-append p (x ∷ xs) ys = elim (Bool-cases (p x)) [
    | inl y ↦ rw y (ap (λ l. x ∷ l) (select-append p xs ys))
    | inr n ↦ rw n (select-append p xs ys)
  ]

  pub select-one : (p : R → Bool) (x : R) → p x ≡ true → select_where p (x ∷ []) ≡ x ∷ []
  unfolding select_where
  select-one p x h = rw h refl
