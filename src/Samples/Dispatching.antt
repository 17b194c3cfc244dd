-- ===== src/Samples/Dispatching.antt =====
-- A dispatch, and the collection of its run.
use researchd_agent.Application.Audit.Data.{base_of_task, with_task_base}
use researchd_agent.Domain.Enums.Run.{RunStatus, run_status_eq}
use researchd_agent.Domain.Enums.Work.{TaskStatus, task_status_eq}
use researchd_agent.Domain.Machines.Tables.{task_transitions, run_transitions}
use researchd_agent.Domain.Run.{Run}
use researchd_agent.Domain.StateMachine.{can, transition}
use researchd_agent.Domain.Task.{Task, enter, transition_task}
use researchd_agent.Persistence.Repository.{object_id, bumped}
use researchd_agent.Persistence.Table.{update_where, count_where, select_where, execute}
use researchd_agent.Persistence.Table.Keyed.{find}
use researchd_agent.Prelude.{
  nat_eq, string_eq, Result, ok, ◌≡◌, refl, Option, none, some, [], ◌∷◌, ◌++◌, option_eq,
}
use researchd_agent.Samples.Data.{task_in, run_of, any_owner, draw_at}
use researchd_agent.Scheduler.Collect.{collect_interrupt}
use researchd_agent.Scheduler.Collect.Released.{interrupted_run_gives_up_lease}
use researchd_agent.Scheduler.Dispatch.{
  DispatchDb, DispatchError, Profile, base_of_run, with_run_base, lease_request, dispatch_task,
}
use researchd_agent.Scheduler.Dispatch.Rows.{dispatched_is_leased}
use researchd_agent.Scheduler.Leases.{LeaseRow, scalar_one_or_none, new_lease, token_of}

abbrev ready_task : Task
ready_task = task_in TaskStatus.ready

abbrev dispatch_db : DispatchDb
dispatch_db = record { runs = []; tasks = ready_task ∷ []; leases = []; events = [] }

abbrev profile_one : Profile
profile_one = record { profile_name = some "default"; model = none }

abbrev dispatched : Result DispatchError (Option (Run × Task) × DispatchDb)
dispatched =
    dispatch_task any_owner "codex" profile_one "R-9" 50 (draw_at 50 "tok-9") ready_task dispatch_db

abbrev leased_run : Run
leased_run = record (run_of "R-9" none) {
  base = record {
    id = "R-9";
    project_id = some "P-1";
    version = 2;
    created_at = 50;
    updated_at = 50;
    created_by = "system";
  };
  executor = some "codex";
  executor_profile = some "default";
  lease_token = some "tok-9";
}

abbrev leased_task : Task
leased_task = bumped base_of_task with_task_base 50 (
    enter 50 TaskStatus.running
      (record ready_task { current_run_id = some "R-9"; lease_token = some "tok-9" }))

abbrev dispatch_db_after : DispatchDb
dispatch_db_after = record {
  runs = leased_run ∷ [];
  tasks = leased_task ∷ [];
  leases = new_lease any_owner (lease_request "codex" "R-9" ready_task) (draw_at 50 "tok-9") ∷ [];
  events = ("run.running", "R-9") ∷ ("task.started", "T-1") ∷ [];
}

dispatch_succeeds : dispatched ≡ ok (some (leased_run, leased_task), dispatch_db_after)
unfolding dispatch_task transition can run_transitions find scalar_one_or_none select_where
    count_where update_where
dispatch_succeeds = refl

run_is_new : find (object_id base_of_run) "R-9" dispatch_db.runs ≡ none
unfolding find
run_is_new = refl

task_is_there : find (object_id base_of_task) ready_task.id dispatch_db.tasks ≡ some ready_task
unfolding find
task_is_there = refl

dispatched_is_leased_example :
    (find (object_id base_of_run) "R-9" dispatch_db_after.runs ≡ some leased_run)
    × (find (object_id base_of_task) ready_task.id dispatch_db_after.tasks ≡ some leased_task)
    × (TaskStatus.ready ≡ TaskStatus.ready)
    × (RunStatus.running ≡ RunStatus.running)
    × (TaskStatus.running ≡ TaskStatus.running)
    × (leased_run.lease_token ≡ some "tok-9")
    × (leased_task.lease_token ≡ some "tok-9")
    × (leased_task.current_run_id ≡ some "R-9")
    × (dispatch_db_after.leases
        ≡ []
          ++ new_lease any_owner (lease_request "codex" "R-9" ready_task) (draw_at 50 "tok-9") ∷ [])
dispatched_is_leased_example =
    dispatched_is_leased any_owner "codex" profile_one "R-9" 50 (draw_at 50 "tok-9") ready_task
      leased_task leased_run dispatch_db dispatch_db_after run_is_new task_is_there
      dispatch_succeeds

abbrev stopped : Run
stopped = bumped base_of_run with_run_base 90 (record leased_run {
  status = RunStatus.interrupted;
  termination_reason = some "budget exceeded";
})

abbrev lease_nine : LeaseRow
lease_nine = new_lease any_owner (lease_request "codex" "R-9" ready_task) (draw_at 50 "tok-9")

abbrev returned_task : Task
returned_task = bumped base_of_task with_task_base 90 (
    enter 90 TaskStatus.ready
      (record leased_task { error_message = some "interrupted: budget exceeded" }))

abbrev collected_db : DispatchDb
collected_db = record {
  runs = stopped ∷ [];
  tasks = returned_task ∷ [];
  leases = record lease_nine { released_at = some 90 } ∷ [];
  events =
      ("run.running", "R-9")
      ∷ ("task.started", "T-1")
      ∷ ("task.ready", "T-1")
      ∷ ("run.interrupted", "R-9")
      ∷ [];
}

interrupt_collected :
    collect_interrupt 90 "budget exceeded" leased_run dispatch_db_after ≡ ok (stopped, collected_db)
unfolding collect_interrupt transition can run_transitions find count_where transition_task
    task_transitions update_where execute
interrupt_collected = refl

lease_nine_found : find token_of "tok-9" (lease_nine ∷ []) ≡ some lease_nine
unfolding find
lease_nine_found = refl

interrupted_run_gives_up_lease_example :
    (RunStatus.interrupted ≡ RunStatus.interrupted)
    × (find token_of "tok-9" collected_db.leases
        ≡ some (record lease_nine { released_at = some 90 }))
interrupted_run_gives_up_lease_example =
    interrupted_run_gives_up_lease 90 "budget exceeded" "tok-9" leased_run stopped lease_nine
      dispatch_db_after collected_db interrupt_collected refl lease_nine_found refl
