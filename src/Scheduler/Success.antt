-- ===== src/Scheduler/Success.antt =====
-- `RunDispatcher.collect_success` of src/researchd/scheduler/dispatch.py: the run closes, its task moves, and its
-- result is applied, in one transaction. The rows that one call writes are stamped with one reading of the clock.
pub mod Settled
use researchd_agent.Application.ApplyResult.Data.{ApplyDb, WorkResult, Draws, ApplyError}
use researchd_agent.Application.ApplyResult.Whole.{apply_work_result}
use researchd_agent.Application.Paths.{FileSystem}
use researchd_agent.Domain.Enums.Run.{RunStatus, run_status_eq}
use researchd_agent.Domain.Run.{Run}
use researchd_agent.Domain.Task.{TaskMethod, block, submit_review, CriterionResult, fail}
use researchd_agent.Persistence.Repository.{save}
use researchd_agent.Prelude.{
  Result, ok, ◌>>=◌, ◌>>◌, ℕ, String, Option, none, some, List, require_some,
}
use researchd_agent.Scheduler.Collect.{get_by_task_id, emit, close_run}
use researchd_agent.Scheduler.Dispatch.{
  DispatchDb, DispatchError, or_refused, task_left, save_task_row,
}

pub data WorkOutcome : Type 0 where
  submit_for_review reported_blocked reported_failed : WorkOutcome

abbrev pub work_outcome_value : WorkOutcome → String
work_outcome_value submit_for_review = "SUBMIT_FOR_REVIEW"
work_outcome_value reported_blocked = "BLOCKED"
work_outcome_value reported_failed = "FAILED"

-- the worker's result with what the executor says of its session
pub record Collected : Type 0 where
  pub outcome : WorkOutcome
  pub criteria_results : List CriterionResult
  pub findings : WorkResult
  pub session_id : Option String
  pub turn_id : Option String

-- The audit events of the two are kept apart: those that the dispatcher emits, and those that applying a result reads.
pub record CollectDb : Type 0 where
  pub runs_db : DispatchDb
  pub tables : ApplyDb

pub data CollectError : Type 0 where
  not_closed : DispatchError → CollectError
  task_missing : CollectError
  not_applied : ApplyError → CollectError

abbrev pub finished_run : Run → Collected → Run
finished_run r c = record r {
  result = some (record { criteria_results = c.criteria_results });
  session_id = c.session_id;
  turn_id = c.turn_id;
  outcome = some (work_outcome_value c.outcome);
}

unfoldable pub report_outcome : ℕ → WorkOutcome → TaskMethod
unfolding submit_review block fail
report_outcome now submit_for_review t = submit_review now t
report_outcome now reported_blocked t = block now none t
report_outcome now reported_failed t = fail now "worker reported FAILED" t

abbrev pub outcome_event : WorkOutcome → String
outcome_event submit_for_review = "task.review_submitted"
outcome_event _ = "task.failed"

unfoldable pub collect_success :
    FileSystem → ℕ → Draws → Run → Collected → CollectDb → Result CollectError (Run × CollectDb)
unfolding close_run get_by_task_id report_outcome save apply_work_result
collect_success fs now draws r c db = do
  closed ← or_refused not_closed (close_run now RunStatus.succeeded (finished_run r c) db.runs_db)
  t ← require_some (get_by_task_id r.task_id closed.1.tasks) task_missing
  left ← or_refused not_closed (task_left (report_outcome now c.outcome t))
  kept ← or_refused not_closed (save_task_row now left closed.1.tasks)
  results ← or_refused not_applied (apply_work_result fs now draws closed.0 c.findings db.tables)
  ok (
    closed.0,
    record {
      runs_db =
          emit (outcome_event c.outcome) kept.0.task_id
            (emit "run.succeeded" closed.0.run_id (record closed.1 { tasks = kept.1 }));
      tables = results.1;
    },
  )
