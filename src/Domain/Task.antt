-- ===== src/Domain/Task.antt =====
-- src/researchd/domain/task.py. A method that writes a field before it raises has written it: the task
-- comes back beside the error.
pub mod Lifecycle
pub mod Completion
pub mod History
use researchd_agent.Domain.Base.{DomainModel}
use researchd_agent.Domain.Enums.Work.{TaskStatus, task_status_eq}
use researchd_agent.Domain.Machines.Tables.{task_transitions}
use researchd_agent.Domain.StateMachine.{InvalidTransition, can, transition}
use researchd_agent.Prelude.{
  if◌then◌else◌, ◌==◌, nat_eq, string_eq, all, contains, is_blank, truthy, Result, ok, raise,
  Method, ℕ, ◌*◌, String, Bool, true, false, not, ◌&&◌, ◌||◌, Option, none, some, List, [], ◌∷◌,
  ◌++◌,
}

pub record SuccessCriterion : Type 0 where
  pub id : String
  pub text : String

pub record Budget : Type 0 where
  pub max_wall_seconds : Option ℕ
  pub max_executor_turns : Option ℕ
  pub max_model_calls : Option ℕ
  pub max_parallel_workers : Option ℕ

pub record TaskContract : Type 0 where
  pub task_id : String
  pub role : String
  pub objective : String
  pub why_now : String
  pub inputs : List String
  pub deliverables : List String
  pub success_criteria : List SuccessCriterion
  pub stop_conditions : List String
  pub escalation_conditions : List String
  pub budget : Budget
  pub executor_profile : Option String

-- the messages of `validate_contract`
pub data ContractError : Type 0 where
  objective_empty criteria_empty : ContractError
  criterion_incomplete : String → ContractError

abbrev pub is_incomplete : SuccessCriterion → Bool
is_incomplete sc = is_blank sc.id || is_blank sc.text

unfoldable pub incomplete_criteria : List SuccessCriterion → List ContractError
incomplete_criteria [] = []
incomplete_criteria (sc ∷ rest) =
    if is_incomplete sc
    then criterion_incomplete sc.id ∷ incomplete_criteria rest
    else incomplete_criteria rest

abbrev criteria_errors : List SuccessCriterion → List ContractError
criteria_errors [] = criteria_empty ∷ []
criteria_errors (_ ∷ _) = []

unfoldable pub validate_contract : TaskContract → List ContractError
unfolding incomplete_criteria
validate_contract c =
    (if is_blank c.objective then objective_empty ∷ [] else [])
    ++ criteria_errors c.success_criteria
    ++ incomplete_criteria c.success_criteria

pub record Task : Type 0 where
  pub base : DomainModel
  pub open base use *
  pub task_id : String
  pub status : TaskStatus
  pub contract : TaskContract
  pub parent_task_id : Option String
  pub blocked_by : List String
  pub depends_on : List String
  pub current_run_id : Option String
  pub lease_token : Option String
  pub error_message : Option String

abbrev pub TaskMethod : Type 0
TaskMethod = Method (InvalidTransition TaskStatus) Task TaskStatus

-- `self.status = s; self.updated_at = utcnow()`
abbrev pub enter : ℕ → TaskStatus → Task → Task
enter now s t = record t { base = record t.base { updated_at = now }; status = s }

abbrev pub refuse : Task → TaskStatus → String → Result (InvalidTransition TaskStatus) TaskStatus
refuse t target reason =
    raise (record { object = "task"; current = t.status; target = target; reason = reason })

abbrev moved :
    ℕ
    → Task
    → Result (InvalidTransition TaskStatus) TaskStatus
    → Result (InvalidTransition TaskStatus) TaskStatus × Task
moved now t (ok s) = (ok s, enter now s t)
moved now t (raise e) = (raise e, t)

unfoldable pub transition_task : ℕ → TaskStatus → Bool → String → TaskMethod
transition_task now target guard reason t =
    if target == TaskStatus.completed
    then (refuse t target "COMPLETED only via complete() when every success criterion is PASS", t)
    else moved now t (transition task_transitions "task" t.status target guard reason)

abbrev pub contract_invalid : List ContractError → Bool
contract_invalid [] = false
contract_invalid (_ ∷ _) = true

-- the argument `contract_errors`, or what `validate_contract` finds
abbrev pub errors_of : Option (List ContractError) → Task → List ContractError
errors_of none t = validate_contract t.contract
errors_of (some es) t = es

unfoldable pub propose_ready : ℕ → Option (List ContractError) → TaskMethod
propose_ready now contract_errors t =
    if contract_invalid (errors_of contract_errors t)
    then (refuse t TaskStatus.ready "contract invalid", t)
    else transition_task now TaskStatus.ready true "" t

unfoldable pub start : ℕ → String → String → TaskMethod
start now run_id lease_token t =
    if not (t.status == TaskStatus.ready)
    then (refuse t TaskStatus.running "task not READY", t)
    else (
      ok TaskStatus.running,
      enter now TaskStatus.running
          (record t { current_run_id = some run_id; lease_token = some lease_token }),
    )

abbrev pub with_blocker : Option String → Task → Task
with_blocker none t = t
with_blocker (some d) t =
    if truthy d && not (contains d t.blocked_by)
    then record t { blocked_by = t.blocked_by ++ d ∷ [] }
    else t

unfoldable pub block : ℕ → Option String → TaskMethod
block now decision_id t =
    transition_task now TaskStatus.blocked true "" (with_blocker decision_id t)

unfoldable pub submit_review : ℕ → TaskMethod
submit_review now t = transition_task now TaskStatus.review true "" t

-- one dictionary of `criteria_results`; a key that is missing reads as `None`
pub record CriterionResult : Type 0 where
  pub criterion_id : Option String
  pub status : Option String

abbrev pub names : Option String → String → Bool
names none k = false
names (some j) k = j == k

-- `{c.get("criterion_id"): c.get("status") for c in criteria_results}.get(k)`, the last one wins
unfoldable pub result_from : Option String → String → List CriterionResult → Option String
result_from found k [] = found
result_from found k (c ∷ cs) = result_from (if names c.criterion_id k then c.status else found) k cs

abbrev pub is_pass : Option String → Bool
is_pass none = false
is_pass (some s) = s == "PASS"

abbrev pub criterion_passes : List CriterionResult → SuccessCriterion → Bool
criterion_passes results sc = is_pass (result_from none sc.id results)

unfoldable pub complete : ℕ → Option (List CriterionResult) → TaskMethod
complete now none t = (refuse t TaskStatus.completed "criteria_results required", t)
complete now (some results) t =
    if not (all (criterion_passes results) t.contract.success_criteria)
    then (refuse t TaskStatus.completed "every success criterion must be PASS", t)
    else if not (can task_transitions t.status TaskStatus.completed true)
    then (refuse t TaskStatus.completed "", t)
    else (ok TaskStatus.completed, enter now TaskStatus.completed t)

unfoldable pub fail : ℕ → String → TaskMethod
fail now message t =
    transition_task now TaskStatus.failed true "" (record t { error_message = some message })

-- `reason or None`
abbrev pub or_none : String → Option String
or_none s = if truthy s then some s else none

unfoldable pub requeue : ℕ → String → TaskMethod
requeue now reason t =
    transition_task now TaskStatus.ready true "" (record t { error_message = or_none reason })

unfoldable pub cancel : ℕ → String → TaskMethod
cancel now reason t =
    transition_task now TaskStatus.cancelled true "" (record t { error_message = or_none reason })
