-- ===== src/Scheduler/Collect.antt =====
-- `RunDispatcher.collect_failure` and `collect_interrupt` of src/researchd/scheduler/dispatch.py. The rows that one call
-- writes are stamped with one reading of the clock.
pub mod Released
use Prim.Native.String.{◌++◌ as str_append}
use researchd_agent.Application.Audit.Data.{first_chars}
use researchd_agent.Domain.Enums.Run.{RunStatus, run_status_eq}
use researchd_agent.Domain.Enums.Work.{TaskStatus, task_status_eq}
use researchd_agent.Domain.Run.{Run, transition_run}
use researchd_agent.Domain.Task.{Task, TaskMethod, fail, requeue}
use researchd_agent.Persistence.Repository.{save}
use researchd_agent.Persistence.Table.Keyed.{find}
use researchd_agent.Prelude.{
  if◌then◌else◌, ◌==◌, nat_eq, string_eq, Result, ok, ◌>>=◌, ◌>>◌, ℕ, String, not, Option, none,
  some, List, [], ◌∷◌, ◌++◌, option_eq,
}
use researchd_agent.Scheduler.Dispatch.{
  DispatchDb, DispatchError, task_left, save_run, save_task_row, move_run,
}
use researchd_agent.Scheduler.Leases.{Leases, release_lease}

abbrev pub task_id_of : Task → String
task_id_of t = t.task_id

unfoldable pub get_by_task_id : String → List Task → Option Task
get_by_task_id k rows = find task_id_of k rows

-- `LeaseRepo(session).release(run.lease_token)`; no row has a token that is NULL
abbrev pub give_up : ℕ → Option String → Leases → Leases
give_up now none leases = leases
give_up now (some token) leases = (release_lease token now leases).0

abbrev pub emit : String → String → DispatchDb → DispatchDb
emit event_type k db = record db { events = db.events ++ (event_type, k) ∷ [] }

-- the run moves, is saved, and gives up its lease
unfoldable pub close_run :
    ℕ → RunStatus → Run → DispatchDb → Result DispatchError (Run × DispatchDb)
unfolding transition_run save release_lease
close_run now target r db = do
  closed ← move_run now target r
  saved ← save_run now closed db.runs
  ok (saved.0, record db { runs = saved.1; leases = give_up now saved.0.lease_token db.leases })

-- a method of the task, where the task is there and RUNNING
unfoldable pub on_running :
    Option Task → TaskMethod → String → ℕ → DispatchDb → Result DispatchError DispatchDb
unfolding save
on_running none method event_type now db = ok db
on_running (some t) method event_type now db =
    if not (t.status == TaskStatus.running) then ok db else (do
      left ← task_left (method t)
      kept ← save_task_row now left db.tasks
      ok (emit event_type kept.0.task_id (record db { tasks = kept.1 })))

unfoldable pub collect_failure :
    ℕ → String → Run → DispatchDb → Result DispatchError (Run × DispatchDb)
unfolding close_run on_running get_by_task_id fail
collect_failure now error r db = do
  closed ←
      close_run now RunStatus.failed (record r { error_message = some (first_chars 2000 error) }) db
  after ←
      on_running (get_by_task_id r.task_id closed.1.tasks) (fail now error) "task.failed" now
        closed.1
  ok (closed.0, emit "run.failed" closed.0.run_id after)

unfoldable pub collect_interrupt :
    ℕ → String → Run → DispatchDb → Result DispatchError (Run × DispatchDb)
unfolding close_run on_running get_by_task_id requeue
collect_interrupt now reason r db = do
  closed ← close_run now RunStatus.interrupted (record r { termination_reason = some reason }) db
  after ←
      on_running (get_by_task_id r.task_id closed.1.tasks)
        (requeue now (str_append "interrupted: " reason)) "task.ready" now closed.1
  ok (closed.0, emit "run.interrupted" closed.0.run_id after)
