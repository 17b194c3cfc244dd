-- ===== src/Persistence/Table/Keyed.antt =====
-- Tables whose rows have a primary key, and statements that address one row.
use mathlib.Core.Bool.{false≢true}
use researchd_agent.Persistence.Table.{update_where, count_where, select_where, execute}
use researchd_agent.Prelude.{
  if◌then◌else◌, Bool-cases, Eq, ◌==◌, nat_eq, string_eq, ℕ, suc, ◌≡◌, refl, sym, ap, subst, ◌∙◌,
  ◌≢◌, inl, inr, Bool, true, false, ◌&&◌, Option, none, some, List, [], ◌∷◌, ◌++◌, arith,
}

other_key : {K : Type 0} ⦃e : Eq K⦄ (i j k : K) → (i == j) ≡ true → j ≢ k → (i == k) ≡ false
other_key ⦃e⦄ i j k h ne = elim (Bool-cases (i == k)) [
  | inl y ↦ absurd (ne (sym ((e.beq_iff i j).0 h) ∙ (e.beq_iff i k).0 y))
  | inr n ↦ n
]

some-ne-none {ℓ} : {A : Type ℓ} {a : A} → ◌≢◌ {A = Option A} (some a) none
some-ne-none h = cc

same_some {ℓ} : {A : Type ℓ} {a b : A} → ◌≡◌ {A = Option A} (some a) (some b) → a ≡ b
same_some h = cc

suc_ne_zero : {n : ℕ} → suc n ≢ 0
suc_ne_zero h = omega arith

if_apart :
    {R K : Type 0} ⦃e : Eq K⦄ (i k : K) (r : R)
    → i ≢ k
    → ◌≡◌ {A = Option R} (if i == k then some r else none) none
if_apart ⦃e⦄ i k r ne = elim (Bool-cases (i == k)) [
  | inl y ↦ absurd (ne ((e.beq_iff i k).0 y))
  | inr n ↦ rw n refl
]

module _ {R K : Type 0} ⦃e : Eq K⦄ (key : R → K) where
  unfoldable pub find : K → List R → Option R
  find k [] = none
  find k (r ∷ rs) = if key r == k then some r else find k rs

  -- no two rows share a key
  abbrev pub Unique : List R → Type 0
  Unique [] = Unit
  Unique (r ∷ rs) = (find (key r) rs ≡ none) × Unique rs

  -- WHERE id = k AND q
  abbrev pub at_key : K → (R → Bool) → R → Bool
  at_key k q r = key r == k && q r

  abbrev pub KeepsKey : (R → R) → Type 0
  KeepsKey f = (r : R) → key (f r) ≡ key r

  abbrev pub if_meets : (R → Bool) → (R → R) → Option R → Option R
  if_meets q f none = none
  if_meets q f (some r) = some (if q r then f r else r)

  -- any statement that keeps the keys
  pub find-update :
      (k : K) (p : R → Bool) (f : R → R) (rows : List R)
      → KeepsKey f
      → find k (update_where p f rows) ≡ if_meets p f (find k rows)
  unfolding find update_where
  find-update k p f [] keeps = refl
  find-update k p f (r ∷ rs) keeps = elim (Bool-cases (key r == k)) [
    | inl y ↦ elim (Bool-cases (p r)) [
      | inl m ↦ rw (m, keeps r, y) (rw m refl)
      | inr n ↦ rw (n, y) (rw n refl)
    ]
    | inr o ↦ elim (Bool-cases (p r)) [
      | inl m ↦ rw (m, keeps r, o) (find-update k p f rs keeps)
      | inr n ↦ rw (n, o) (find-update k p f rs keeps)
    ]
  ]

  pub find-key : (k : K) (rows : List R) (r : R) → find k rows ≡ some r → (key r == k) ≡ true
  unfolding find
  find-key k [] r h = absurd (some-ne-none (sym h))
  find-key k (x ∷ xs) r h = elim (Bool-cases (key x == k)) [
    | inl y ↦ subst (λ z. (key z == k) ≡ true) (same_some (rw y at h)) y
    | inr o ↦ find-key k xs r (rw o at h)
  ]

  select_absent :
      (k : K) (rows : List R) → find k rows ≡ none → select_where (λ r. key r == k) rows ≡ []
  unfolding find select_where
  select_absent k [] h = refl
  select_absent k (r ∷ rs) h = elim (Bool-cases (key r == k)) [
    | inl y ↦ absurd (some-ne-none (rw y at h))
    | inr o ↦ rw o (select_absent k rs (rw o at h))
  ]

  abbrev pub listed : Option R → List R
  listed none = []
  listed (some r) = r ∷ []

  -- a SELECT by the key hands back the row that `find` finds
  pub select-find :
      (k : K) (rows : List R)
      → Unique rows
      → select_where (λ r. key r == k) rows ≡ listed (find k rows)
  unfolding find select_where
  select-find k [] u = refl
  select-find k (r ∷ rs) u = elim (Bool-cases (key r == k)) [
    | inl y ↦
        rw (y, select_absent k rs (subst (λ j. find j rs ≡ none) ((e.beq_iff (key r) k).0 y) u.0))
          refl
    | inr o ↦ rw o (select-find k rs u.1)
  ]

  pub find-update_self :
      (k : K) (q : R → Bool) (f : R → R) (rows : List R)
      → KeepsKey f
      → find k (update_where (at_key k q) f rows) ≡ if_meets q f (find k rows)
  unfolding find update_where
  find-update_self k q f [] keeps = refl
  find-update_self k q f (r ∷ rs) keeps = elim (Bool-cases (key r == k)) [
    | inl y ↦ elim (Bool-cases (q r)) [
      | inl m ↦ rw (y, m, keeps r, y) refl
      | inr n ↦ rw (y, n, y) refl
    ]
    | inr o ↦ rw (o, o) (find-update_self k q f rs keeps)
  ]

  pub find-update_ne :
      (k j : K) (q : R → Bool) (f : R → R) (rows : List R)
      → KeepsKey f
      → j ≢ k
      → find k (update_where (at_key j q) f rows) ≡ find k rows
  unfolding find update_where
  find-update_ne k j q f [] keeps ne = refl
  find-update_ne k j q f (r ∷ rs) keeps ne = elim (Bool-cases (key r == j)) [
    | inl y ↦ elim (Bool-cases (q r)) [
      | inl m ↦ rw (y, m, keeps r, other_key (key r) j k y ne) (find-update_ne k j q f rs keeps ne)
      | inr n ↦ rw (y, n, other_key (key r) j k y ne) (find-update_ne k j q f rs keeps ne)
    ]
    | inr o ↦ rw o (ap (λ t. if key r == k then some r else t) (find-update_ne k j q f rs keeps ne))
  ]

  pub find-update_none :
      (k j : K) (q : R → Bool) (f : R → R) (rows : List R)
      → KeepsKey f
      → find k rows ≡ none
      → find k (update_where (at_key j q) f rows) ≡ none
  find-update_none k j q f rows keeps h = elim (Bool-cases (j == k)) [
    | inl y ↦
        let p = (e.beq_iff j k).0 y in
        rw p (find-update_self k q f rows keeps ∙ ap (if_meets q f) h)
    | inr n ↦ find-update_ne k j q f rows keeps (λ p. false≢true (sym n ∙ (e.beq_iff j k).1 p)) ∙ h
  ]

  pub count-none :
      (k : K) (q : R → Bool) (rows : List R)
      → find k rows ≡ none
      → count_where (at_key k q) rows ≡ 0
  unfolding find count_where
  count-none k q [] h = refl
  count-none k q (r ∷ rs) h = elim (Bool-cases (key r == k)) [
    | inl y ↦ absurd (some-ne-none (rw y at h))
    | inr o ↦ rw o (count-none k q rs (rw o at h))
  ]

  -- the row at a key meets the rest of the WHERE
  abbrev pub hit : (R → Bool) → Option R → Bool
  hit q none = false
  hit q (some r) = q r

  pub count-hit :
      (k : K) (q : R → Bool) (rows : List R)
      → Unique rows
      → (count_where (at_key k q) rows == 1) ≡ hit q (find k rows)
  unfolding find count_where
  count-hit k q [] u = refl
  count-hit k q (r ∷ rs) u = elim (Bool-cases (key r == k)) [
    | inl y ↦
        let none_left =
          count-none k q rs (subst (λ j. find j rs ≡ none) ((e.beq_iff (key r) k).0 y) u.0) in
        elim (Bool-cases (q r)) [
          | inl m ↦ rw (y, m, none_left) refl
          | inr n ↦ rw (y, n, none_left) refl
        ]
    | inr o ↦ rw o (count-hit k q rs u.1)
  ]

  pub count-miss :
      (k : K) (q : R → Bool) (rows : List R)
      → Unique rows
      → hit q (find k rows) ≡ false
      → count_where (at_key k q) rows ≡ 0
  unfolding find count_where
  count-miss k q [] u h = refl
  count-miss k q (r ∷ rs) u h = elim (Bool-cases (key r == k)) [
    | inl y ↦
        rw (y, rw y at h)
          (count-none k q rs (subst (λ j. find j rs ≡ none) ((e.beq_iff (key r) k).0 y) u.0))
    | inr o ↦ rw o (count-miss k q rs u.1 (rw o at h))
  ]

  -- a statement that meets no row changes nothing
  pub update-miss :
      (p : R → Bool) (f : R → R) (rows : List R)
      → count_where p rows ≡ 0
      → update_where p f rows ≡ rows
  unfolding update_where count_where
  update-miss p f [] h = refl
  update-miss p f (r ∷ rs) h = elim (Bool-cases (p r)) [
    | inl y ↦ absurd (suc_ne_zero (rw y at h))
    | inr n ↦ rw n (ap (λ l. r ∷ l) (update-miss p f rs (rw n at h)))
  ]

  -- a statement whose row does not meet it reports no row
  pub execute-miss :
      (k : K) (q : R → Bool) (f : R → R) (rows : List R) (r : R)
      → Unique rows
      → find k rows ≡ some r
      → q r ≡ false
      → execute (at_key k q) f rows ≡ (rows, false)
  unfolding execute
  execute-miss k q f rows r u h n =
      let none_hit = count-miss k q rows u (ap (hit q) h ∙ n) in
      cc (update-miss (at_key k q) f rows none_hit, none_hit)

  -- a row that does not meet a statement is left as it was
  pub find-update_miss :
      (j k : K) (q : R → Bool) (f : R → R) (rows : List R) (r : R)
      → KeepsKey f
      → find k rows ≡ some r
      → q r ≡ false
      → find k (update_where (at_key j q) f rows) ≡ some r
  find-update_miss j k q f rows r keeps h n = elim (Bool-cases (j == k)) [
    | inl y ↦
        rw ((e.beq_iff j k).0 y)
          (find-update_self k q f rows keeps ∙ ap (if_meets q f) h ∙ rw n refl)
    | inr o ↦ find-update_ne k j q f rows keeps (λ p. false≢true (sym o ∙ (e.beq_iff j k).1 p)) ∙ h
  ]

  pub update-Unique :
      (k : K) (q : R → Bool) (f : R → R) (rows : List R)
      → KeepsKey f
      → Unique rows
      → Unique (update_where (at_key k q) f rows)
  unfolding update_where
  update-Unique k q f [] keeps u = tt
  update-Unique k q f (r ∷ rs) keeps u = (
    subst (λ j. find j (update_where (at_key k q) f rs) ≡ none) (same_key (at_key k q r) r keeps)
        (find-update_none (key r) k q f rs keeps u.0),
    update-Unique k q f rs keeps u.1,
  )
    where
      same_key : (b : Bool) (s : R) → KeepsKey f → key s ≡ key (if b then f s else s)
      same_key true s keep = sym (keep s)
      same_key false s keep = refl

  pub find-append_none :
      (k : K) (rows : List R) (r : R)
      → find k rows ≡ none
      → find k (rows ++ r ∷ []) ≡ (if key r == k then some r else none)
  unfolding find
  find-append_none k [] r h = refl
  find-append_none k (x ∷ xs) r h = elim (Bool-cases (key x == k)) [
    | inl y ↦ absurd (some-ne-none (rw y at h))
    | inr o ↦ rw o (find-append_none k xs r (rw o at h))
  ]

  pub find-append_some :
      (k : K) (rows : List R) (r x : R) → find k rows ≡ some x → find k (rows ++ r ∷ []) ≡ some x
  unfolding find
  find-append_some k [] r x h = absurd (some-ne-none (sym h))
  find-append_some k (y ∷ ys) r x h = elim (Bool-cases (key y == k)) [
    | inl p ↦ rw p (rw p at h)
    | inr o ↦ rw o (find-append_some k ys r x (rw o at h))
  ]

  pub append-Unique :
      (rows : List R) (r : R) → Unique rows → find (key r) rows ≡ none → Unique (rows ++ r ∷ [])
  unfolding find
  append-Unique [] r u h = (refl, tt)
  append-Unique (x ∷ xs) r u h = elim (Bool-cases (key x == key r)) [
    | inl y ↦ absurd (some-ne-none (rw y at h))
    | inr o ↦
        let apart =
          λ (p : key r ≡ key x). false≢true (sym o ∙ (e.beq_iff (key x) (key r)).1 (sym p)) in
        (
          find-append_none (key x) xs r u.0 ∙ if_apart (key r) (key x) r apart,
          append-Unique xs r u.1 (rw o at h),
        )
  ]

  find-update_absent :
      (k : K) (p : R → Bool) (f : R → R) (rows : List R)
      → KeepsKey f
      → find k rows ≡ none
      → find k (update_where p f rows) ≡ none
  find-update_absent k p f rows keeps h = find-update k p f rows keeps ∙ ap (if_meets p f) h

  pub update_any-Unique :
      (p : R → Bool) (f : R → R) (rows : List R)
      → KeepsKey f
      → Unique rows
      → Unique (update_where p f rows)
  unfolding update_where
  update_any-Unique p f [] keeps u = tt
  update_any-Unique p f (r ∷ rs) keeps u = elim (Bool-cases (p r)) [
    | inl y ↦
        rw (y, keeps r)
          (find-update_absent (key r) p f rs keeps u.0, update_any-Unique p f rs keeps u.1)
    | inr n ↦ rw n (find-update_absent (key r) p f rs keeps u.0, update_any-Unique p f rs keeps u.1)
  ]
