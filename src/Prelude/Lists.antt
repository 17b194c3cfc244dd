-- ===== src/Prelude/Lists.antt =====
-- Python's `in`, `any`, `all` and `len` over lists, with membership as a predicate by recursion.
use Prim.Native.Nat.{ℕ, suc}
use mathlib.Core.Path.{◌≡◌, refl, sym, subst}
use mathlib.Core.Logic.{◌↔◌, inl, inr}
use mathlib.Core.Bool.{Bool, true, false, ◌&&◌, ◌||◌, false≢true}
use mathlib.Core.List.{List, [], ◌∷◌, ◌++◌, Memᴰ}
use native.Mathlib.Omega.{arith}
use researchd_agent.Prelude.Tests.{Eq, ◌==◌, Bool-cases}

module _ {ℓ} {A : Type ℓ} where
  abbrev pub length : List A → ℕ
  length [] = 0
  length (x ∷ xs) = suc (length xs)

  -- `any(p(x) for x in xs)`
  abbrev pub any : (A → Bool) → List A → Bool
  any p [] = false
  any p (x ∷ xs) = p x || any p xs

  -- `all(p(x) for x in xs)`
  abbrev pub all : (A → Bool) → List A → Bool
  all p [] = true
  all p (x ∷ xs) = p x && all p xs

  abbrev pub All {κ} : (A → Type κ) → List A → Type κ
  All P [] = Unit
  All P (x ∷ xs) = P x × All P xs

  pub all→mem : (p : A → Bool) (a : A) (xs : List A) → all p xs ≡ true → Memᴰ a xs → p a ≡ true
  all→mem p a xs h (Memᴰ.head e) = ground arith
  all→mem p a (x ∷ xs) h (Memᴰ.tail m) = all→mem p a xs (ground arith) m

-- `a in xs`
abbrev pub contains {ℓ} : {A : Type ℓ} ⦃e : Eq A⦄ → A → List A → Bool
contains a [] = false
contains a (x ∷ xs) = a == x || contains a xs

pub contains→mem {ℓ} :
    {A : Type ℓ} ⦃e : Eq A⦄ (a : A) (xs : List A) → contains a xs ≡ true → Memᴰ a xs
contains→mem a [] h = cc
contains→mem ⦃e⦄ a (x ∷ xs) h = elim (Bool-cases (e.beq a x)) [
  | inl p ↦ Memᴰ.head ((e.beq_iff a x).0 p)
  | inr p ↦ Memᴰ.tail (contains→mem a xs (rw p at h))
]

abbrev pub list_beq {ℓ} : {A : Type ℓ} ⦃e : Eq A⦄ → List A → List A → Bool
list_beq [] [] = true
list_beq (x ∷ xs) (y ∷ ys) = x == y && list_beq xs ys
list_beq _ _ = false

pub list_beq_iff {ℓ} : {A : Type ℓ} ⦃e : Eq A⦄ (a b : List A) → (list_beq a b ≡ true) ↔ (a ≡ b)
list_beq_iff [] [] = (λ h. refl, λ h. refl)
list_beq_iff [] (y ∷ ys) = (λ h. cc, λ h. cc)
list_beq_iff (x ∷ xs) [] = (λ h. cc, λ h. cc)
list_beq_iff ⦃e⦄ (x ∷ xs) (y ∷ ys) = (
  λ h. elim (Bool-cases (e.beq x y)) [
    | inl p ↦ cons_eq ((e.beq_iff x y).0 p) ((list_beq_iff xs ys).0 (rw p at h))
    | inr p ↦ absurd (false≢true (rw p at h))
  ],
  λ h. rw ((e.beq_iff x y).1 (heads h)) ((list_beq_iff xs ys).1 (tails h)),
)
  where
    cons_eq : x ≡ y → xs ≡ ys → x ∷ xs ≡ y ∷ ys
    cons_eq p q = cc

    heads : x ∷ xs ≡ y ∷ ys → x ≡ y
    heads h = cc

    tails : x ∷ xs ≡ y ∷ ys → xs ≡ ys
    tails h = cc

instance abbrev pub list_eq {ℓ} : {A : Type ℓ} ⦃e : Eq A⦄ → Eq (List A)
list_eq = record { beq = list_beq; beq_iff = list_beq_iff }

pub any-append :
    {A : Type 0} (p : A → Bool) (x : A) (xs : List A) → p x ≡ true → any p (xs ++ x ∷ []) ≡ true
any-append p x [] h = rw h refl
any-append p x (y ∷ ys) h = elim (Bool-cases (p y)) [
  | inl a ↦ rw a refl
  | inr b ↦ rw b (any-append p x ys h)
]

pub member_has : {A : Type 0} (P : A → Type 0) (a : A) (xs : List A) → All P xs → Memᴰ a xs → P a
member_has P a [] all_p m = elim m [ ]
member_has P a (x ∷ xs) all_p (Memᴰ.head e) = subst P (sym e) all_p.0
member_has P a (x ∷ xs) all_p (Memᴰ.tail m) = member_has P a xs all_p.1 m

pub All-members :
    {A : Type 0} (P : A → Type 0) (xs : List A) → ((a : A) → Memᴰ a xs → P a) → All P xs
All-members P [] f = tt
All-members P (x ∷ xs) f = (f x (Memᴰ.head refl), All-members P xs (λ a m. f a (Memᴰ.tail m)))
