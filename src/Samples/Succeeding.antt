-- ===== src/Samples/Succeeding.antt =====
-- A worker's success.
use mathlib.Core.List.{Memᴰ}
use researchd_agent.Application.Audit.Data.{base_of_task, with_task_base}
use researchd_agent.Application.Paths.{stays_inside, walk_parts}
use researchd_agent.Domain.Enums.Evidence.{EvidenceStatus, evidence_status_eq}
use researchd_agent.Domain.Enums.Run.{RunStatus, run_status_eq}
use researchd_agent.Domain.Enums.Work.{TaskStatus, task_status_eq}
use researchd_agent.Domain.Evidence.{Evidence}
use researchd_agent.Domain.Machines.Tables.{task_transitions, run_transitions}
use researchd_agent.Domain.Run.{Run}
use researchd_agent.Domain.StateMachine.{can, transition}
use researchd_agent.Domain.Task.{Task, enter, transition_task}
use researchd_agent.Persistence.Repository.{bumped}
use researchd_agent.Persistence.Table.{update_where, count_where, execute}
use researchd_agent.Persistence.Table.Keyed.{find}
use researchd_agent.Prelude.{nat_eq, string_eq, ok, ◌≡◌, refl, none, some, [], ◌∷◌, option_eq}
use researchd_agent.Samples.Applying.{files, before, reported, drawn, run_one, afterwards}
use researchd_agent.Samples.Data.{task_in, any_owner, draw_at}
use researchd_agent.Scheduler.Collect.{give_up}
use researchd_agent.Scheduler.Dispatch.{base_of_run, with_run_base}
use researchd_agent.Scheduler.Leases.{LeaseRow, new_lease}
use researchd_agent.Scheduler.Success.{
  Collected, CollectDb, finished_run, collect_success, submit_for_review,
}
use researchd_agent.Scheduler.Success.Settled.{TaskSettled, success_settles}

abbrev working : Task
working = record (task_in TaskStatus.running) { current_run_id = some "R-2" }

abbrev collected : Collected
collected = record {
  outcome = submit_for_review;
  criteria_results = [];
  findings = reported;
  session_id = some "S-1";
  turn_id = none;
}

abbrev held : LeaseRow
held =
    new_lease any_owner
      (record {
        project_id = some "P-1";
        task_id = some "T-1";
        run_id = some "R-2";
        owner = "scheduler:reasonix";
        lease_seconds = 60;
      })
      (draw_at 1 "tok-2")

abbrev holding : Run
holding = record run_one { lease_token = some "tok-2" }

abbrev collect_db : CollectDb
collect_db = record {
  runs_db = record { runs = holding ∷ []; tasks = working ∷ []; leases = held ∷ []; events = [] };
  tables = before;
}

abbrev succeeded_run : Run
succeeded_run =
    bumped base_of_run with_run_base 5
      (record (finished_run holding collected) { status = RunStatus.succeeded })

abbrev in_review : Task
in_review = bumped base_of_task with_task_base 5 (enter 5 TaskStatus.review working)

abbrev settled_db : CollectDb
settled_db = record {
  runs_db = record {
    runs = succeeded_run ∷ [];
    tasks = in_review ∷ [];
    leases = record held { released_at = some 5 } ∷ [];
    events = ("run.succeeded", "R-2") ∷ ("task.review_submitted", "T-1") ∷ [];
  };
  tables = afterwards;
}

success_collected :
    collect_success files 5 drawn holding collected collect_db ≡ ok (succeeded_run, settled_db)
unfolding collect_success find stays_inside walk_parts transition can run_transitions count_where
    transition_task task_transitions update_where execute
success_collected = refl

success_settles_example :
    (succeeded_run.status ≡ RunStatus.succeeded)
    × (settled_db.runs_db.leases ≡ give_up 5 (some "tok-2") (held ∷ []))
    × TaskSettled 5 holding submit_for_review (working ∷ []) (in_review ∷ [])
    × ((e : Evidence)
        → Memᴰ e afterwards.evidence
        → e.status ≡ EvidenceStatus.verified
        → Memᴰ e before.evidence)
success_settles_example =
    success_settles files 5 drawn holding collected collect_db (succeeded_run, settled_db)
      success_collected
