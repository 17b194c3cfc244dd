-- ===== src/Domain/Task/History.antt =====
-- How a task comes to be COMPLETED, over any sequence of calls.
use mathlib.Core.Bool.{false≢true}
use researchd_agent.Domain.Enums.Work.{
  TaskStatus, task_status_beq, task_status_beq_iff, task_status_eq,
}
use researchd_agent.Domain.Machines.Paths.{before_completed}
use researchd_agent.Domain.Machines.Tables.{task_transitions}
use researchd_agent.Domain.StateMachine.{can, transition}
use researchd_agent.Domain.Task.{
  ContractError, Task, transition_task, contract_invalid, errors_of, propose_ready, start,
  with_blocker, block, submit_review, CriterionResult, criterion_passes, complete, fail, or_none,
  requeue, cancel,
}
use researchd_agent.Domain.Task.Completion.{AllPass, passes→AllPass}
use researchd_agent.Domain.Task.Lifecycle.{
  TaskCall, perform, perform_all, with_blocker-keeps, perform-Effect, Effect-contract,
  call_transition, call_propose_ready, call_start, call_block, call_submit_review, call_complete,
  call_fail, call_requeue, call_cancel,
}
use researchd_agent.Prelude.{
  Bool-cases, ◌==◌, nat_eq, string_eq, all, ℕ, String, ◌≡◌, refl, sym, ap, subst, ◌∙◌, ◌≢◌, inl,
  inr, Bool, true, Option, none, some, List, [], ◌∷◌, ◌++◌,
}

not_completed_by_transition :
    (now : ℕ) (target : TaskStatus) (guard : Bool) (reason : String) (t : Task)
    → t.status ≢ TaskStatus.completed
    → (transition_task now target guard reason t).1.status ≢ TaskStatus.completed
unfolding transition_task transition
not_completed_by_transition now target guard reason t h e =
    elim (Bool-cases (target == TaskStatus.completed)) [
      | inl y ↦ h (rw y at e)
      | inr n ↦ elim (Bool-cases (can task_transitions t.status target guard)) [
        | inl c ↦ absurd (
            false≢true
              (sym n ∙ (task_status_beq_iff target TaskStatus.completed).1 (rw (n, c) at e)))
        | inr d ↦ h (rw (n, d) at e)
      ]
    ]

-- what the call did that took a task into COMPLETED
abbrev Completes : TaskCall → Task → Type 0
Completes c t =
    (rs : List CriterionResult) × (c ≡ call_complete (some rs))
    × (t.status ≡ TaskStatus.review)
    × AllPass t.contract rs

complete-Completes :
    (now : ℕ) (r : Option (List CriterionResult)) (t : Task)
    → t.status ≢ TaskStatus.completed
    → (complete now r t).1.status ≡ TaskStatus.completed
    → Completes (call_complete r) t
unfolding complete
complete-Completes now none t h e = absurd (h e)
complete-Completes now (some rs) t h e =
    elim (Bool-cases (all (criterion_passes rs) t.contract.success_criteria)) [
      | inl p ↦ elim (Bool-cases (can task_transitions t.status TaskStatus.completed true)) [
        | inl c ↦
            (rs, refl, before_completed t.status c, passes→AllPass t.contract.success_criteria rs p)
        | inr n ↦ absurd (h (rw (p, n) at e))
      ]
      | inr n ↦ absurd (h (rw n at e))
    ]

with_blocker_status : (d : Option String) (t : Task) → (with_blocker d t).status ≡ t.status
with_blocker_status d t = (with_blocker-keeps d t).0

start_completes :
    (now : ℕ) (run_id token : String) (t : Task)
    → t.status ≢ TaskStatus.completed
    → (start now run_id token t).1.status ≢ TaskStatus.completed
unfolding start
start_completes now run_id token t h e = elim (Bool-cases (t.status == TaskStatus.ready)) [
  | inl y ↦ absurd (false≢true (ap (λ s. task_status_beq s TaskStatus.completed) (rw y at e)))
  | inr n ↦ h (rw n at e)
]

propose_ready_completes :
    (now : ℕ) (errors : Option (List ContractError)) (t : Task)
    → t.status ≢ TaskStatus.completed
    → (propose_ready now errors t).1.status ≢ TaskStatus.completed
unfolding propose_ready
propose_ready_completes now errors t h e =
    elim (Bool-cases (contract_invalid (errors_of errors t))) [
      | inl y ↦ h (rw y at e)
      | inr n ↦ not_completed_by_transition now TaskStatus.ready true "" t h (rw n at e)
    ]

call-Completes :
    (now : ℕ) (c : TaskCall) (t : Task)
    → t.status ≢ TaskStatus.completed
    → (perform now c t).1.status ≡ TaskStatus.completed
    → Completes c t
unfolding perform block submit_review fail requeue cancel
call-Completes now (call_transition target guard reason) t h e =
    absurd (not_completed_by_transition now target guard reason t h e)
call-Completes now (call_propose_ready errors) t h e =
    absurd (propose_ready_completes now errors t h e)
call-Completes now (call_start run_id token) t h e = absurd (start_completes now run_id token t h e)
call-Completes now (call_block d) t h e = absurd (
    not_completed_by_transition now TaskStatus.blocked true "" (with_blocker d t)
      (λ b. h (sym (with_blocker_status d t) ∙ b)) e)
call-Completes now call_submit_review t h e =
    absurd (not_completed_by_transition now TaskStatus.review true "" t h e)
call-Completes now (call_complete r) t h e = complete-Completes now r t h e
call-Completes now (call_fail message) t h e = absurd (
    not_completed_by_transition now TaskStatus.failed true ""
      (record t { error_message = some message }) h e)
call-Completes now (call_requeue reason) t h e = absurd (
    not_completed_by_transition now TaskStatus.ready true ""
      (record t { error_message = or_none reason }) h e)
call-Completes now (call_cancel reason) t h e = absurd (
    not_completed_by_transition now TaskStatus.cancelled true ""
      (record t { error_message = or_none reason }) h e)

-- a call that completes the task that the calls before it left
abbrev pub CompletedIn : Task → List (ℕ × TaskCall) → Type 0
CompletedIn t calls =
    (before : List (ℕ × TaskCall)) × (now : ℕ) × (rs : List CriterionResult) × (after : List
      (ℕ × TaskCall))
    × (calls ≡ before ++ (now, call_complete (some rs)) ∷ after)
    × ((perform_all before t).status ≡ TaskStatus.review)
    × AllPass t.contract rs

CompletedIn-rest :
    (now : ℕ) (c : TaskCall) (rest : List (ℕ × TaskCall)) (t : Task)
    → CompletedIn (perform now c t).1 rest
    → CompletedIn t ((now, c) ∷ rest)
unfolding perform_all
CompletedIn-rest now c rest t (before, at, rs, after, split, reviewed, passed) = (
  (now, c) ∷ before,
  at,
  rs,
  after,
  ap (λ l. (now, c) ∷ l) split,
  reviewed,
  subst (λ k. AllPass k rs) (Effect-contract t (perform now c t) (perform-Effect now c t)) passed,
)

-- A task that is not COMPLETED and that a sequence of calls leaves COMPLETED met a call of `complete`
-- while it was in REVIEW, with results in which every success criterion of its contract has PASS.
pub completed_only_by_complete :
    (calls : List (ℕ × TaskCall)) (t : Task)
    → t.status ≢ TaskStatus.completed
    → (perform_all calls t).status ≡ TaskStatus.completed
    → CompletedIn t calls
unfolding perform_all
completed_only_by_complete [] t h e = absurd (h e)
completed_only_by_complete ((now, c) ∷ rest) t h e =
    elim (Bool-cases ((perform now c t).1.status == TaskStatus.completed)) [
      | inl y ↦
          let (rs, called, reviewed, passed) =
            call-Completes now c t h
              ((task_status_beq_iff (perform now c t).1.status TaskStatus.completed).0 y) in
          ([], now, rs, rest, ap (λ k. (now, k) ∷ rest) called, reviewed, passed)
      | inr n ↦ CompletedIn-rest now c rest t (
          completed_only_by_complete rest (perform now c t).1
            (λ b.
              false≢true
                (sym n ∙ (task_status_beq_iff (perform now c t).1.status TaskStatus.completed).1 b))
            e)
    ]
