-- ===== src/Scheduler/Dispatch.antt =====
-- `RunDispatcher.dispatch_task` of src/researchd/scheduler/dispatch.py, over the tables that it writes. An event is its
-- type and the object it is about. A call that raises commits nothing.
pub mod Leased
pub mod Rows
use Prim.Native.String.{◌++◌ as str_append}
use researchd_agent.Application.Audit.Data.{base_of_task, with_task_base}
use researchd_agent.Domain.Base.{DomainModel}
use researchd_agent.Domain.Enums.Run.{RunStatus, run_status_eq}
use researchd_agent.Domain.Enums.Work.{TaskStatus, task_status_eq}
use researchd_agent.Domain.Run.{Run, transition_run}
use researchd_agent.Domain.StateMachine.{InvalidTransition}
use researchd_agent.Domain.Task.{Task, start}
use researchd_agent.Persistence.Repository.{StaleVersion, save}
use researchd_agent.Prelude.{
  Result, ok, raise, ◌>>=◌, ◌>>◌, ℕ, String, Bool, Option, none, some, List, [], ◌∷◌, ◌++◌,
}
use researchd_agent.Scheduler.Leases.{
  Leases, MultipleRows, default_lease_seconds, LeaseRequest, Draw, acquire,
}

pub record DispatchDb : Type 0 where
  pub runs : List Run
  pub tasks : List Task
  pub leases : Leases
  pub events : List (String × String)

pub data DispatchError : Type 0 where
  run_refused : InvalidTransition RunStatus → DispatchError
  task_refused : InvalidTransition TaskStatus → DispatchError
  stale_row : StaleVersion → DispatchError
  lease_failed : MultipleRows → DispatchError

-- the entries of the profile that the run keeps
pub record Profile : Type 0 where
  pub profile_name : Option String
  pub model : Option String

abbrev pub base_of_run : Run → DomainModel
base_of_run r = r.base

abbrev pub with_run_base : DomainModel → Run → Run
with_run_base b r = record r { base = b }

abbrev pub new_run : String → Profile → String → Task → ℕ → Run
new_run executor profile run_id t now = record {
  base = record {
    id = run_id;
    project_id = t.project_id;
    version = 1;
    created_at = now;
    updated_at = now;
    created_by = "system";
  };
  run_id = run_id;
  task_id = t.task_id;
  status = RunStatus.queued;
  executor = some executor;
  executor_profile = profile.profile_name;
  resolved_model = profile.model;
  session_id = none;
  turn_id = none;
  started_at = none;
  heartbeat_at = none;
  termination_reason = none;
  lease_token = none;
  outcome = none;
  error_message = none;
  repair_attempts = 0;
  result = none;
  metadata = record { worker_run_id = none };
}

abbrev pub or_refused {ℓ} : {E F A : Type ℓ} → (E → F) → Result E A → Result F A
or_refused wrap (ok a) = ok a
or_refused wrap (raise e) = raise (wrap e)

-- a method of the task: the task it leaves, or its exception
abbrev pub task_left :
    Result (InvalidTransition TaskStatus) TaskStatus × Task → Result DispatchError Task
task_left (ok s, t) = ok t
task_left (raise e, t) = raise (task_refused e)

abbrev pub save_run : ℕ → Run → List Run → Result DispatchError (Run × List Run)
save_run now r rows = or_refused stale_row (save base_of_run with_run_base now r rows)

abbrev pub save_task_row : ℕ → Task → List Task → Result DispatchError (Task × List Task)
save_task_row now t rows = or_refused stale_row (save base_of_task with_task_base now t rows)

abbrev pub move_run : ℕ → RunStatus → Run → Result DispatchError Run
move_run now target r = or_refused run_refused (transition_run now target r)

abbrev pub lease_request : String → String → Task → LeaseRequest
lease_request executor run_id t = record {
  project_id = t.project_id;
  task_id = some t.task_id;
  run_id = some run_id;
  owner = str_append "scheduler:" executor;
  lease_seconds = default_lease_seconds;
}

-- once the lease was asked for
unfoldable pub after_lease :
    ℕ
    → Run
    → Task
    → List Run
    → DispatchDb
    → Result MultipleRows (Option String) × Leases
    → Result DispatchError (Option (Run × Task) × DispatchDb)
unfolding transition_run start save
after_lease now r t runs db (raise e, leases) = raise (lease_failed e)
after_lease now r t runs db (ok none, leases) =
    ok (none, record db { runs = runs; leases = leases })
after_lease now r t runs db (ok (some token), leases) = do
  running ← move_run now RunStatus.running (record r { lease_token = some token })
  saved ← save_run now running runs
  started ← task_left (start now r.run_id token t)
  kept ← save_task_row now started db.tasks
  ok (
    some (saved.0, kept.0),
    record {
      runs = saved.1;
      tasks = kept.1;
      leases = leases;
      events = db.events ++ ("run.running", saved.0.run_id) ∷ ("task.started", kept.0.task_id) ∷ [];
    },
  )

unfoldable pub dispatch_task :
    (matches : String → String → Bool)
    → String
    → Profile
    → String
    → ℕ
    → Draw
    → Task
    → DispatchDb
    → Result DispatchError (Option (Run × Task) × DispatchDb)
unfolding after_lease transition_run save acquire
dispatch_task matches executor profile run_id now d t db = do
  starting ← move_run now RunStatus.starting (new_run executor profile run_id t now)
  saved ← save_run now starting db.runs
  after_lease now saved.0 t saved.1 db
      (acquire matches (lease_request executor run_id t) d db.leases)
