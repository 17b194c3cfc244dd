-- ===== src/Persistence/Repository/Others.antt =====
-- What a save does to the other objects, also where they are looked up by their public id.
use researchd_agent.Domain.Base.{DomainModel}
use researchd_agent.Persistence.Repository.{
  object_id, addressed, bumped, written, update_row, save_over, save,
}
use researchd_agent.Persistence.Table.{update_where, count_where}
use researchd_agent.Persistence.Table.Keyed.{find, find-key}
use researchd_agent.Prelude.{
  if◌then◌else◌, Bool-cases, ◌==◌, nat_eq, string_eq, ok, ℕ, String, ◌≡◌, refl, sym, ap, subst, ◌∙◌,
  ◌≢◌, ◌⊎◌, inl, inr, Bool, true, false, ◌&&◌, Option, none, some, List, [], ◌∷◌, ◌++◌, arith,
  eq_iff, All, ok-injective, raise-ne-ok, option_eq,
}

same_some {ℓ} : {A : Type ℓ} {a b : A} → ◌≡◌ {A = Option A} (some a) (some b) → a ≡ b
same_some h = cc

pub found_key :
    {R : Type 0} (key : R → String) (k : String) (rows : List R) (r : R)
    → find key k rows ≡ some r
    → key r ≡ k
found_key key k rows r h = (eq_iff (key r) k).0 (find-key key k rows r h)

pub found_has :
    {R : Type 0} (P : R → Type 0) (key : R → String) (k : String) (rows : List R) (r : R)
    → All P rows
    → find key k rows ≡ some r
    → P r
unfolding find
found_has P key k [] r a h = cc
found_has P key k (x ∷ xs) r a h = elim (Bool-cases (key x == k)) [
  | inl y ↦ subst P (same_some (rw y at h)) a.0
  | inr n ↦ found_has P key k xs r a.1 (rw n at h)
]

apart : (a b : String) → a ≢ b → (a == b) ≡ false
apart a b ne = elim (Bool-cases (a == b)) [ inl y ↦ absurd (ne ((eq_iff a b).0 y)) | inr n ↦ n ]

-- a save hands back the object, or the object with the next version
pub saved_object :
    {R : Type 0} (base_of : R → DomainModel) (with_base : DomainModel → R → R) (now : ℕ) (a : R)
    (rows : List R) (found : Option R) (p : R × List R)
    → save_over base_of with_base found now a rows ≡ ok p
    → (p.0 ≡ a) ⊎ (p.0 ≡ bumped base_of with_base now a)
unfolding update_row
saved_object base_of with_base now a rows none p h = inl (ap (λ q. q.0) (sym (ok-injective h)))
saved_object base_of with_base now a rows (some x) p h =
    elim (Bool-cases (count_where (addressed base_of a) rows == 0)) [
      | inl y ↦ absurd (raise-ne-ok (rw y at h))
      | inr n ↦ inr (ap (λ q. q.0) (sym (ok-injective (rw n at h))))
    ]

module _ {R : Type 0} (base_of : R → DomainModel) (with_base : DomainModel → R → R)
    (law : (b : DomainModel) (r : R) → base_of (with_base b r) ≡ b) where
  abbrev id_of : R → String
  id_of = object_id base_of

  find-append_ne :
      (k : String) (obj : R) (rows : List R)
      → k ≢ id_of obj
      → find id_of k (rows ++ obj ∷ []) ≡ find id_of k rows
  unfolding find
  find-append_ne k obj [] ne = rw (apart (id_of obj) k (λ p. ne (sym p))) refl
  find-append_ne k obj (r ∷ rs) ne = elim (Bool-cases (id_of r == k)) [
    | inl y ↦ rw y refl
    | inr n ↦ rw n (find-append_ne k obj rs ne)
  ]

  written_id : (now : ℕ) (obj row : R) → id_of (written base_of with_base now obj row) ≡ id_of obj
  written_id now obj row = ap (λ b. b.id) (law _ obj)

  find-rewritten_ne :
      (now : ℕ) (k : String) (obj : R) (rows : List R)
      → k ≢ id_of obj
      → find id_of k (update_where (addressed base_of obj) (written base_of with_base now obj) rows)
        ≡ find id_of k rows
  unfolding find update_where
  find-rewritten_ne now k obj [] ne = refl
  find-rewritten_ne now k obj (r ∷ rs) ne = elim (Bool-cases (addressed base_of obj r)) [
    | inl y ↦
        let other = apart (id_of obj) k (λ p. ne (sym p)) in
        let same = (eq_iff (id_of r) (id_of obj)).0 (left_true (id_of r == id_of obj) _ y) in
        rw (y, written_id now obj r, other, ap (λ i. i == k) same ∙ other)
          (find-rewritten_ne now k obj rs ne)
    | inr n ↦
        rw n (ap (λ t. if id_of r == k then some r else t) (find-rewritten_ne now k obj rs ne))
  ]
    where
      left_true : (a b : Bool) → a && b ≡ true → a ≡ true
      left_true a b h = ground arith

  find-saved_ne :
      (now : ℕ) (k : String) (obj : R) (rows : List R) (found : Option R) (p : R × List R)
      → k ≢ id_of obj
      → save_over base_of with_base found now obj rows ≡ ok p
      → find id_of k p.1 ≡ find id_of k rows
  unfolding update_row
  find-saved_ne now k obj rows none p ne h =
      ap (λ q. find id_of k q.1) (sym (ok-injective h)) ∙ find-append_ne k obj rows ne
  find-saved_ne now k obj rows (some x) p ne h =
      elim (Bool-cases (count_where (addressed base_of obj) rows == 0)) [
        | inl y ↦ absurd (raise-ne-ok (rw y at h))
        | inr n ↦
            ap (λ q. find id_of k q.1) (sym (ok-injective (rw n at h)))
            ∙ find-rewritten_ne now k obj rows ne
      ]

  -- a save leaves the objects with other ids
  pub save-other :
      (now : ℕ) (k : String) (obj : R) (rows : List R) (p : R × List R)
      → k ≢ id_of obj
      → save base_of with_base now obj rows ≡ ok p
      → find id_of k p.1 ≡ find id_of k rows
  unfolding save
  save-other now k obj rows p ne h =
      find-saved_ne now k obj rows (find id_of (id_of obj) rows) p ne h

  module _ (P : R → Type 0) (obj : R) (kept : P obj)
      (lands : (b : DomainModel) → b.id ≡ id_of obj → P (with_base b obj)) where
    All-rewritten :
        (now : ℕ) (rows : List R)
        → All P rows
        → All P (update_where (addressed base_of obj) (written base_of with_base now obj) rows)
    unfolding update_where
    All-rewritten now [] a = tt
    All-rewritten now (r ∷ rs) a = elim (Bool-cases (addressed base_of obj r)) [
      | inl y ↦ rw y (lands _ refl, All-rewritten now rs a.1)
      | inr n ↦ rw n (a.0, All-rewritten now rs a.1)
    ]

    All-appended : (rows : List R) → All P rows → All P (rows ++ obj ∷ [])
    All-appended [] a = (kept, tt)
    All-appended (r ∷ rs) a = (a.0, All-appended rs a.1)

    All-saved :
        (now : ℕ) (rows : List R) (found : Option R) (p : R × List R)
        → All P rows
        → save_over base_of with_base found now obj rows ≡ ok p
        → All P p.1
    unfolding update_row
    All-saved now rows none p a h = subst (λ q. All P q.1) (ok-injective h) (All-appended rows a)
    All-saved now rows (some x) p a h =
        elim (Bool-cases (count_where (addressed base_of obj) rows == 0)) [
          | inl y ↦ absurd (raise-ne-ok (rw y at h))
          | inr n ↦ subst (λ q. All P q.1) (ok-injective (rw n at h)) (All-rewritten now rows a)
        ]

    -- what holds of every row, and of the object whatever its version and times, holds after its save
    pub save-All :
        (now : ℕ) (rows : List R) (p : R × List R)
        → All P rows
        → save base_of with_base now obj rows ≡ ok p
        → All P p.1
    unfolding save
    save-All now rows p a h = All-saved now rows (find id_of (id_of obj) rows) p a h

-- objects whose id is their public id, as their constructors make them
module _ {R : Type 0} (base_of : R → DomainModel) (public_id : R → String) where
  abbrev pub Named : R → Type 0
  Named r = object_id base_of r ≡ public_id r

  pub find-Named :
      (k : String) (rows : List R)
      → All Named rows
      → find public_id k rows ≡ find (object_id base_of) k rows
  unfolding find
  find-Named k [] a = refl
  find-Named k (r ∷ rs) a = rw (a.0, find-Named k rs a.1) refl

module _ {R : Type 0} (base_of : R → DomainModel) (with_base : DomainModel → R → R)
    (public_id : R → String) (law : (b : DomainModel) (r : R) → base_of (with_base b r) ≡ b)
    (keeps : (b : DomainModel) (r : R) → public_id (with_base b r) ≡ public_id r) where
  -- a save of an object with another public id
  pub save-other_public :
      (now : ℕ) (k : String) (obj : R) (rows : List R) (p : R × List R)
      → All (Named base_of public_id) rows
      → Named base_of public_id obj
      → k ≢ public_id obj
      → save base_of with_base now obj rows ≡ ok p
      → All (Named base_of public_id) p.1 × (find public_id k p.1 ≡ find public_id k rows)
  save-other_public now k obj rows p a named ne h =
      let all_named =
        save-All base_of with_base law (Named base_of public_id) obj named
          (λ b same. ap (λ m. m.id) (law b obj) ∙ same ∙ named ∙ sym (keeps b obj)) now rows p a
          h in
      (
        all_named,
        find-Named base_of public_id k p.1 all_named
            ∙ save-other base_of with_base law now k obj rows p (λ q. ne (q ∙ named)) h
            ∙ sym (find-Named base_of public_id k rows a),
      )
