-- ===== src/Domain/Task/Completion.antt =====
-- When a task may complete.
use mathlib.Core.Bool.{false≢true}
use researchd_agent.Domain.Enums.Work.{TaskStatus, task_status_eq}
use researchd_agent.Domain.Machines.Paths.{before_completed}
use researchd_agent.Domain.Machines.Tables.{task_transitions}
use researchd_agent.Domain.StateMachine.{InvalidTransition, can}
use researchd_agent.Domain.Task.{
  SuccessCriterion, TaskContract, Task, CriterionResult, names, result_from, is_pass,
  criterion_passes, complete,
}
use researchd_agent.Prelude.{
  if◌then◌else◌, Bool-cases, all, ok, raise, ℕ, String, ◌≡◌, refl, ap, ◌≢◌, ◌↔◌, ◌⊎◌, inl, inr,
  true, false, Option, none, some, List, [], ◌∷◌, eq_iff, All,
}

-- The last of the results that name the criterion has the status PASS.
pub data LastPass (k : String) : List CriterionResult → Type 0 where
  here :
      (c : CriterionResult) (rest : List CriterionResult)
      → names c.criterion_id k ≡ true
      → c.status ≡ some "PASS"
      → All (λ d. names d.criterion_id k ≡ false) rest
      → LastPass k (c ∷ rest)
  later :
      (c : CriterionResult) (rest : List CriterionResult) → LastPass k rest → LastPass k (c ∷ rest)

abbrev Unnamed : String → List CriterionResult → Type 0
Unnamed k rs = All (λ d. names d.criterion_id k ≡ false) rs

is_pass→eq : (o : Option String) → is_pass o ≡ true → o ≡ some "PASS"
is_pass→eq none h = cc
is_pass→eq (some s) h = ap some ((eq_iff s "PASS").0 h)

result_from→LastPass :
    (found : Option String) (k : String) (rs : List CriterionResult)
    → is_pass (result_from found k rs) ≡ true
    → LastPass k rs ⊎ ((is_pass found ≡ true) × Unnamed k rs)
unfolding result_from
result_from→LastPass found k [] h = inr (h, tt)
result_from→LastPass found k (c ∷ rs) h = elim (Bool-cases (names c.criterion_id k)) [
  | inl e ↦ elim (result_from→LastPass c.status k rs (rw e at h)) [
    | inl l ↦ inl (later c rs l)
    | inr (p, u) ↦ inl (here c rs e (is_pass→eq c.status p) u)
  ]
  | inr e ↦ elim (result_from→LastPass found k rs (rw e at h)) [
    | inl l ↦ inl (later c rs l)
    | inr (p, u) ↦ inr (p, (e, u))
  ]
]

Unnamed-result :
    (found : Option String) (k : String) (rs : List CriterionResult)
    → Unnamed k rs
    → result_from found k rs ≡ found
unfolding result_from
Unnamed-result found k [] u = refl
Unnamed-result found k (c ∷ rs) u = rw u.0 (Unnamed-result found k rs u.1)

LastPass→result :
    (k : String) (found : Option String) (rs : List CriterionResult)
    → LastPass k rs
    → is_pass (result_from found k rs) ≡ true
unfolding result_from
LastPass→result k found rs (here c rest n p u) =
    rw n (rw (Unnamed-result c.status k rest u) (rw p refl))
LastPass→result k found rs (later c rest l) =
    LastPass→result k (if names c.criterion_id k then c.status else found) rest l

-- each success criterion of the contract
abbrev pub AllPass : TaskContract → List CriterionResult → Type 0
AllPass c rs = All (λ sc. LastPass sc.id rs) c.success_criteria

pub passes→AllPass :
    (scs : List SuccessCriterion) (rs : List CriterionResult)
    → all (criterion_passes rs) scs ≡ true
    → All (λ sc. LastPass sc.id rs) scs
passes→AllPass [] rs h = tt
passes→AllPass (sc ∷ scs) rs h = elim (Bool-cases (criterion_passes rs sc)) [
  | inl p ↦ elim (result_from→LastPass none sc.id rs p) [
    | inl l ↦ (l, passes→AllPass scs rs (rw p at h))
    | inr (q, u) ↦ absurd (false≢true q)
  ]
  | inr n ↦ absurd (false≢true (rw n at h))
]

pub AllPass→passes :
    (scs : List SuccessCriterion) (rs : List CriterionResult)
    → All (λ sc. LastPass sc.id rs) scs
    → all (criterion_passes rs) scs ≡ true
AllPass→passes [] rs a = refl
AllPass→passes (sc ∷ scs) rs a = rw (LastPass→result sc.id none rs a.0) (AllPass→passes scs rs a.1)

review_may_complete : can task_transitions TaskStatus.review TaskStatus.completed true ≡ true
unfolding can task_transitions
review_may_complete = refl

not_ok : {e : InvalidTransition TaskStatus} → raise e ≢ ok TaskStatus.completed
not_ok h = cc

complete_granted :
    (now : ℕ) (rs : List CriterionResult) (t : Task)
    → (t.status ≡ TaskStatus.review) × AllPass t.contract rs
    → (complete now (some rs) t).0 ≡ ok TaskStatus.completed
unfolding complete
complete_granted now rs t h =
    rw (AllPass→passes t.contract.success_criteria rs h.1, h.0, review_may_complete) refl

complete_returned :
    (now : ℕ) (rs : List CriterionResult) (t : Task)
    → (complete now (some rs) t).0 ≡ ok TaskStatus.completed
    → (t.status ≡ TaskStatus.review) × AllPass t.contract rs
unfolding complete
complete_returned now rs t h =
    elim (Bool-cases (all (criterion_passes rs) t.contract.success_criteria)) [
      | inl p ↦ elim (Bool-cases (can task_transitions t.status TaskStatus.completed true)) [
        | inl c ↦ (before_completed t.status c, passes→AllPass t.contract.success_criteria rs p)
        | inr n ↦ absurd (not_ok (rw (p, n) at h))
      ]
      | inr n ↦ absurd (not_ok (rw n at h))
    ]

-- `complete` returns exactly for a task in REVIEW whose every success criterion has PASS as the last of
-- the results given for it.
pub complete_exact :
    (now : ℕ) (rs : List CriterionResult) (t : Task)
    → ((complete now (some rs) t).0 ≡ ok TaskStatus.completed)
      ↔ ((t.status ≡ TaskStatus.review) × AllPass t.contract rs)
complete_exact now rs t = (complete_returned now rs t, complete_granted now rs t)
