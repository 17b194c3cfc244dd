-- ===== src/Application/DecisionGate/Duplicates.antt =====
-- How often one question is asked.
use mathlib.Core.Bool.{false≢true}
use researchd_agent.Application.DecisionGate.{GateVerdict, Candidate, judge, evaluate, asks}
use researchd_agent.Domain.Evidence.{is_text}
use researchd_agent.Prelude.{
  if◌then◌else◌, Bool-cases, ◌==◌, nat_eq, string_eq, contains, ℕ, suc, ◌≤◌, String, ◌≡◌, refl, sym,
  subst, ◌∙◌, inl, inr, Bool, true, false, ◌&&◌, some, List, [], ◌∷◌, arith, eq_iff,
}

-- a run of the gate over candidates with their fingerprints
unfoldable pub evaluate_all : List (String × Candidate) → List String → List GateVerdict
evaluate_all [] existing = []
evaluate_all ((fp, c) ∷ rest) existing =
    let (v, seen) = evaluate fp c existing in v ∷ evaluate_all rest seen

abbrev pub asks_about : String → GateVerdict → Bool
asks_about fp v = asks v.action && is_text fp v.fingerprint

-- how often the PI is asked under a fingerprint
abbrev pub times_asked : String → List GateVerdict → ℕ
times_asked fp [] = 0
times_asked fp (v ∷ vs) = let rest = times_asked fp vs in if asks_about fp v then suc rest else rest

and_false : (b : Bool) → (b && false) ≡ false
and_false b = ground arith

judge-fingerprint : (fp : String) (c : Candidate) → (judge fp c).fingerprint ≡ some fp
unfolding judge
judge-fingerprint fp c = ground arith

unasked_elsewhere :
    (fp k : String) (c : Candidate) → (fp == k) ≡ false → asks_about fp (judge k c) ≡ false
unasked_elsewhere fp k c n = rw (judge-fingerprint k c, n) (and_false (asks (judge k c).action))

apart :
    (fp k : String) (existing : List String)
    → contains fp existing ≡ true
    → contains k existing ≡ false
    → (fp == k) ≡ false
apart fp k existing h n = elim (Bool-cases (fp == k)) [
  | inl y ↦
      absurd (false≢true (sym n ∙ subst (λ j. contains j existing ≡ true) ((eq_iff fp k).0 y) h))
  | inr m ↦ m
]

-- a candidate under a known fingerprint is not asked, and the fingerprint stays known
known_is_silent :
    (fp k : String) (c : Candidate) (existing : List String)
    → contains fp existing ≡ true
    → (asks_about fp (evaluate k c existing).0 ≡ false)
      × (contains fp (evaluate k c existing).1 ≡ true)
unfolding evaluate
known_is_silent fp k c existing h = elim (Bool-cases (contains k existing)) [
  | inl y ↦ rw y (refl, h)
  | inr n ↦
      rw n (unasked_elsewhere fp k c (apart fp k existing h n), rw (apart fp k existing h n) h)
]

-- a fingerprint that was asked is known afterwards
asked_is_known :
    (fp k : String) (c : Candidate) (existing : List String)
    → asks_about fp (evaluate k c existing).0 ≡ true
    → contains fp (evaluate k c existing).1 ≡ true
unfolding evaluate
asked_is_known fp k c existing h = elim (Bool-cases (contains k existing)) [
  | inl y ↦ absurd (false≢true (rw y at h))
  | inr n ↦ elim (Bool-cases (fp == k)) [
    | inl e ↦ rw (n, e) refl
    | inr o ↦ absurd (false≢true (sym (unasked_elsewhere fp k c o) ∙ (rw n at h)))
  ]
]

never_again :
    (fp : String) (cs : List (String × Candidate)) (existing : List String)
    → contains fp existing ≡ true
    → times_asked fp (evaluate_all cs existing) ≡ 0
unfolding evaluate_all
never_again fp [] existing h = refl
never_again fp ((k, c) ∷ rest) existing h =
    let (silent, still) = known_is_silent fp k c existing h in
    rw silent (never_again fp rest (evaluate k c existing).1 still)

asked_once :
    (fp : String) (cs : List (String × Candidate)) (existing : List String)
    → times_asked fp (evaluate_all cs existing) ≤ 1
unfolding evaluate_all
asked_once fp [] existing = omega arith
asked_once fp ((k, c) ∷ rest) existing =
    elim (Bool-cases (asks_about fp (evaluate k c existing).0)) [
      | inl y ↦ rw y (
          omega (
            arith,
            never_again fp rest (evaluate k c existing).1 (asked_is_known fp k c existing y),
          ))
      | inr n ↦ rw n (asked_once fp rest (evaluate k c existing).1)
    ]

-- Whatever candidates the gate evaluates, it asks the PI at most once under each fingerprint, and never
-- under one that it was given as known.
pub asked_at_most_once :
    (fp : String) (cs : List (String × Candidate)) (existing : List String)
    → times_asked fp (evaluate_all cs existing) ≤ (if contains fp existing then 0 else 1)
asked_at_most_once fp cs existing = elim (Bool-cases (contains fp existing)) [
  | inl y ↦ rw y (omega (arith, never_again fp cs existing y))
  | inr n ↦ rw n (asked_once fp cs existing)
]
