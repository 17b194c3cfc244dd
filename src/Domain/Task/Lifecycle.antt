-- ===== src/Domain/Task/Lifecycle.antt =====
-- What sequences of calls of a task's methods can do.
use researchd_agent.Domain.Enums.Work.{TaskStatus, task_status_beq_iff, task_status_eq}
use researchd_agent.Domain.Machines.Paths.{IsTerminal, out_of_terminal}
use researchd_agent.Domain.Machines.Tables.{task_transitions}
use researchd_agent.Domain.StateMachine.{InvalidTransition, can, transition}
use researchd_agent.Domain.Task.{
  ContractError, Task, TaskMethod, transition_task, contract_invalid, errors_of, propose_ready,
  start, with_blocker, block, submit_review, CriterionResult, criterion_passes, complete, fail,
  or_none, requeue, cancel,
}
use researchd_agent.Prelude.{
  Bool-cases, ◌==◌, nat_eq, string_eq, all, contains, truthy, Result, ok, raise, ℕ, String, ◌≡◌,
  refl, ◌∙◌, ◌⊎◌, inl, inr, Bool, true, not, ◌&&◌, Option, none, some, List, [], ◌∷◌, arith,
}

-- one call of a method of `Task`
pub data TaskCall : Type 0 where
  call_transition : TaskStatus → Bool → String → TaskCall
  call_propose_ready : Option (List ContractError) → TaskCall
  call_start : String → String → TaskCall
  call_block : Option String → TaskCall
  call_submit_review : TaskCall
  call_complete : Option (List CriterionResult) → TaskCall
  call_fail call_requeue call_cancel : String → TaskCall

unfoldable pub perform : ℕ → TaskCall → TaskMethod
unfolding transition_task propose_ready start block submit_review complete fail requeue cancel
perform now (call_transition target guard reason) = transition_task now target guard reason
perform now (call_propose_ready errors) = propose_ready now errors
perform now (call_start run_id token) = start now run_id token
perform now (call_block decision_id) = block now decision_id
perform now call_submit_review = submit_review now
perform now (call_complete results) = complete now results
perform now (call_fail message) = fail now message
perform now (call_requeue reason) = requeue now reason
perform now (call_cancel reason) = cancel now reason

-- A caller that goes on after an exception meets the task as the failed call left it.
unfoldable pub perform_all : List (ℕ × TaskCall) → Task → Task
perform_all [] t = t
perform_all ((now, c) ∷ rest) t = perform_all rest (perform now c t).1

-- what a call that began at `t` may have done
abbrev pub Effect : Task → Result (InvalidTransition TaskStatus) TaskStatus × Task → Type 0
Effect t (ok s, u) =
    (u.status ≡ s) × (can task_transitions t.status s true ≡ true) × (u.contract ≡ t.contract)
Effect t (raise e, u) = (u.status ≡ t.status) × (u.contract ≡ t.contract)

can_guarded :
    (s u : TaskStatus) (guard : Bool)
    → can task_transitions s u guard ≡ true
    → can task_transitions s u true ≡ true
unfolding can
can_guarded s u guard h = ground arith

transition_task-Effect :
    (now : ℕ) (target : TaskStatus) (guard : Bool) (reason : String) (t u : Task)
    → u.status ≡ t.status
    → u.contract ≡ t.contract
    → Effect t (transition_task now target guard reason u)
unfolding transition_task transition
transition_task-Effect now target guard reason t u e c =
    elim (Bool-cases (target == TaskStatus.completed)) [
      | inl done ↦ rw done (e, c)
      | inr other ↦ rw other (elim (Bool-cases (can task_transitions u.status target guard)) [
        | inl y ↦ rw y (refl, rw (← e) (can_guarded u.status target guard y), c)
        | inr n ↦ rw n (e, c)
      ])
    ]

ready_edges :
    (s : TaskStatus) → s ≡ TaskStatus.ready → can task_transitions s TaskStatus.running true ≡ true
unfolding can task_transitions
ready_edges s e = ground arith

start-Effect : (now : ℕ) (run_id token : String) (t : Task) → Effect t (start now run_id token t)
unfolding start
start-Effect now run_id token t = elim (Bool-cases (t.status == TaskStatus.ready)) [
  | inl y ↦
      rw y (refl, ready_edges t.status ((task_status_beq_iff t.status TaskStatus.ready).0 y), refl)
  | inr n ↦ rw n (refl, refl)
]

complete-Effect :
    (now : ℕ) (results : Option (List CriterionResult)) (t : Task)
    → Effect t (complete now results t)
unfolding complete
complete-Effect now none t = (refl, refl)
complete-Effect now (some rs) t =
    elim (Bool-cases (all (criterion_passes rs) t.contract.success_criteria)) [
      | inl y ↦ rw y (elim (Bool-cases (can task_transitions t.status TaskStatus.completed true)) [
        | inl c ↦ rw c (refl, c, refl)
        | inr n ↦ rw n (refl, refl)
      ])
      | inr n ↦ rw n (refl, refl)
    ]

propose_ready-Effect :
    (now : ℕ) (errors : Option (List ContractError)) (t : Task)
    → Effect t (propose_ready now errors t)
unfolding propose_ready
propose_ready-Effect now errors t = elim (Bool-cases (contract_invalid (errors_of errors t))) [
  | inl y ↦ rw y (refl, refl)
  | inr n ↦ rw n (transition_task-Effect now TaskStatus.ready true "" t t refl refl)
]

pub with_blocker-keeps :
    (d : Option String) (t : Task)
    → ((with_blocker d t).status ≡ t.status) × ((with_blocker d t).contract ≡ t.contract)
with_blocker-keeps none t = (refl, refl)
with_blocker-keeps (some d) t = elim (Bool-cases (truthy d && not (contains d t.blocked_by))) [
  | inl y ↦ rw y (refl, refl)
  | inr n ↦ rw n (refl, refl)
]

-- A call that returns has moved the task along an edge of the table, to the status that it returns. A
-- call that raises leaves the status. Neither changes the contract.
pub perform-Effect : (now : ℕ) (c : TaskCall) (t : Task) → Effect t (perform now c t)
unfolding perform
perform-Effect now (call_transition target guard reason) t =
    transition_task-Effect now target guard reason t t refl refl
perform-Effect now (call_propose_ready errors) t = propose_ready-Effect now errors t
perform-Effect now (call_start run_id token) t = start-Effect now run_id token t
perform-Effect now (call_block d) t =
    let k = with_blocker-keeps d t in
    transition_task-Effect now TaskStatus.blocked true "" t (with_blocker d t) k.0 k.1
perform-Effect now call_submit_review t =
    transition_task-Effect now TaskStatus.review true "" t t refl refl
perform-Effect now (call_complete results) t = complete-Effect now results t
perform-Effect now (call_fail message) t =
    transition_task-Effect now TaskStatus.failed true "" t
      (record t { error_message = some message }) refl refl
perform-Effect now (call_requeue reason) t =
    transition_task-Effect now TaskStatus.ready true "" t
      (record t { error_message = or_none reason }) refl refl
perform-Effect now (call_cancel reason) t =
    transition_task-Effect now TaskStatus.cancelled true "" t
      (record t { error_message = or_none reason }) refl refl

-- what an effect leaves of the status, in one equation or one edge
Effect-status :
    (t : Task) (r : Result (InvalidTransition TaskStatus) TaskStatus × Task)
    → Effect t r
    → (r.1.status ≡ t.status) ⊎ (can task_transitions t.status r.1.status true ≡ true)
Effect-status t (ok s, u) (e, c, k) = inr (rw e c)
Effect-status t (raise x, u) (e, k) = inl e

pub Effect-contract :
    (t : Task) (r : Result (InvalidTransition TaskStatus) TaskStatus × Task)
    → Effect t r
    → r.1.contract ≡ t.contract
Effect-contract t (ok s, u) h = h.2
Effect-contract t (raise x, u) h = h.1

-- No call, and so no sequence of calls, takes a task out of COMPLETED, FAILED or CANCELLED.
pub terminal_absorbs :
    (calls : List (ℕ × TaskCall)) (t : Task)
    → IsTerminal t.status
    → (perform_all calls t).status ≡ t.status
unfolding perform_all
terminal_absorbs [] t h = refl
terminal_absorbs ((now, c) ∷ rest) t h =
    elim (Effect-status t (perform now c t) (perform-Effect now c t)) [
      | inl e ↦ terminal_absorbs rest (perform now c t).1 (rw e h) ∙ e
      | inr edge ↦ absurd (out_of_terminal t.status (perform now c t).1.status h edge)
    ]
