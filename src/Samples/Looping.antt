-- ===== src/Samples/Looping.antt =====
-- Passes of the scheduler.
use mathlib.Core.List.{Memᴰ}
use researchd_agent.Application.Audit.Data.{base_of_task, with_task_base}
use researchd_agent.Domain.Decision.{Decision}
use researchd_agent.Domain.Enums.Decision.{DecisionStatus, decision_status_eq}
use researchd_agent.Domain.Enums.Work.{TaskStatus, task_status_eq}
use researchd_agent.Domain.Machines.Tables.{task_transitions, run_transitions}
use researchd_agent.Domain.StateMachine.{can, transition}
use researchd_agent.Domain.Task.{Task, transition_task}
use researchd_agent.Persistence.Repository.{bumped}
use researchd_agent.Persistence.Table.{update_where, count_where}
use researchd_agent.Persistence.Table.Keyed.{find}
use researchd_agent.Prelude.{
  nat_eq, string_eq, length, ok, ◌≤◌, ◌≡◌, refl, ◌⊎◌, none, some, [], ◌∷◌, arith, option_eq,
}
use researchd_agent.Samples.Data.{base_one, task_in, run_of, any_owner, draw_at}
use researchd_agent.Samples.Storing.{decision_with}
use researchd_agent.Scheduler.Dispatch.{DispatchDb}
use researchd_agent.Scheduler.Leases.{scalar_one_or_none}
use researchd_agent.Scheduler.Loop.{
  ids_with_status, Dispatching, dispatch_ready, resolved_ids, unblock_resolved,
  requeue_worker_blocked,
}
use researchd_agent.Scheduler.Loop.Requeuing.{Retried, requeued_within_bound}
use researchd_agent.Scheduler.Loop.Slots.{slots_bound}
use researchd_agent.Scheduler.Loop.Unblocking.{Unblocked, released_by_resolution}

abbrev waiting : Task
waiting = record (task_in TaskStatus.blocked) { blocked_by = "D-1" ∷ [] }

abbrev answered_decision : Decision
answered_decision = record (decision_with []) { status = DecisionStatus.answered }

abbrev requeued : Task
requeued = bumped base_of_task with_task_base 9 (record waiting {
  base = record base_one { updated_at = 9 };
  status = TaskStatus.ready;
  blocked_by = [];
  error_message = some "blocking decision resolved";
})

pass_unblocks : unblock_resolved 9 (answered_decision ∷ []) (waiting ∷ []) ≡ ok (requeued ∷ [])
unfolding unblock_resolved transition_task transition can task_transitions find count_where
    update_where
pass_unblocks = refl

released_by_resolution_example :
    Unblocked (resolved_ids (answered_decision ∷ [])) (waiting ∷ []) requeued
released_by_resolution_example =
    released_by_resolution 9 (answered_decision ∷ []) (waiting ∷ []) (requeued ∷ []) requeued
      pass_unblocks (Memᴰ.head refl)

abbrev stuck : Task
stuck = task_in TaskStatus.blocked

abbrev tried_again : Task
tried_again = bumped base_of_task with_task_base 9 (record stuck {
  base = record base_one { updated_at = 9 };
  status = TaskStatus.ready;
  error_message = some "worker reported BLOCKED; dependencies satisfied";
})

abbrev stuck_db : DispatchDb
stuck_db = record { runs = run_of "R-1" none ∷ []; tasks = stuck ∷ []; leases = []; events = [] }

abbrev retried_db : DispatchDb
retried_db = record stuck_db { tasks = tried_again ∷ []; events = ("task.ready", "T-1") ∷ [] }

pass_retries : requeue_worker_blocked 9 stuck_db ≡ ok retried_db
unfolding requeue_worker_blocked transition_task transition can task_transitions find update_where
pass_retries = refl

requeued_within_bound_example :
    Memᴰ tried_again stuck_db.tasks
    ⊎ Retried (ids_with_status TaskStatus.completed stuck_db.tasks) stuck_db.runs tried_again
requeued_within_bound_example =
    requeued_within_bound 9 stuck_db retried_db tried_again pass_retries (Memᴰ.head refl)

abbrev started_with : Dispatching
started_with = record {
  matches = any_owner;
  executor = "reasonix";
  profile_of = λ t. record { profile_name = none; model = none };
  run_id_for = λ t. "R-7";
  draw_for = λ t. draw_at 9 "L-7";
}

abbrev ready_db : DispatchDb
ready_db = record { runs = []; tasks = task_in TaskStatus.ready ∷ []; leases = []; events = [] }

slots_bound_example :
    (length (dispatch_ready started_with 9 2 [] ("T-9" ∷ []) ready_db).0.active ≤ 2)
    × ((dispatch_ready started_with 9 2 [] ("T-9" ∷ []) ready_db).0.dispatched ≤ 1)
slots_bound_example = slots_bound started_with 9 2 [] ("T-9" ∷ []) ready_db (omega arith)

pass_dispatches :
    (dispatch_ready started_with 9 2 [] ("T-9" ∷ []) ready_db).0.active ≡ "T-9" ∷ "T-1" ∷ []
unfolding dispatch_ready transition can run_transitions find scalar_one_or_none count_where
pass_dispatches = refl
