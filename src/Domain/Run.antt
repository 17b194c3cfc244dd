-- ===== src/Domain/Run.antt =====
-- src/researchd/domain/run.py. Of the free-form `result` and `metadata` the model keeps the entries that the
-- program decides by; `usage` and the configuration that a run records are left out.
use researchd_agent.Domain.Base.{DomainModel}
use researchd_agent.Domain.Enums.Run.{RunStatus, run_status_eq}
use researchd_agent.Domain.Machines.Tables.{run_transitions}
use researchd_agent.Domain.StateMachine.{InvalidTransition, transition}
use researchd_agent.Domain.Task.{CriterionResult}
use researchd_agent.Prelude.{Result, ok, raise, ℕ, String, true, Option, some, List}

pub record RunResult : Type 0 where
  pub criteria_results : List CriterionResult

pub record RunMetadata : Type 0 where
  pub worker_run_id : Option String

pub record Run : Type 0 where
  pub base : DomainModel
  pub open base use *
  pub run_id : String
  pub task_id : String
  pub status : RunStatus
  pub executor : Option String
  pub executor_profile : Option String
  pub resolved_model : Option String
  pub session_id : Option String
  pub turn_id : Option String
  pub started_at : Option ℕ
  pub heartbeat_at : Option ℕ
  pub termination_reason : Option String
  pub lease_token : Option String
  pub outcome : Option String
  pub error_message : Option String
  pub repair_attempts : ℕ
  pub result : Option RunResult
  pub metadata : RunMetadata

abbrev run_moved :
    ℕ
    → Run
    → Result (InvalidTransition RunStatus) RunStatus
    → Result (InvalidTransition RunStatus) Run
run_moved now r (ok s) = ok (record r { base = record r.base { updated_at = now }; status = s })
run_moved now r (raise x) = raise x

unfoldable pub transition_run : ℕ → RunStatus → Run → Result (InvalidTransition RunStatus) Run
transition_run now target r =
    run_moved now r (transition run_transitions "run" r.status target true "")

-- the two readings of the clock
unfoldable pub heartbeat_run : ℕ → ℕ → Run → Run
heartbeat_run beat now r = record r {
  base = record r.base { updated_at = now };
  heartbeat_at = some beat;
}
