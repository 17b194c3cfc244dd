-- ===== src/Scheduler/Loop.antt =====
-- The passes of the scheduler over the tasks, src/researchd/scheduler/loop.py: `_dispatch_ready`, `_unblock_resolved`, `_open_blocking_scope` and
-- `_requeue_worker_blocked`. The profile of a task, and what a dispatch draws, are given for each task.
pub mod Slots
pub mod Requeuing
pub mod Unblocking
use Prim.Native.Char.{code}
use Prim.Native.String.{◌++◌ as str_append}
use researchd_agent.Domain.Decision.{Decision}
use researchd_agent.Domain.Enums.Decision.{DecisionStatus, decision_status_eq}
use researchd_agent.Domain.Enums.Work.{TaskStatus, task_status_eq}
use researchd_agent.Domain.Run.{Run}
use researchd_agent.Domain.Task.{Task, requeue}
use researchd_agent.Persistence.Repository.{sort_onto, save}
use researchd_agent.Persistence.Table.{count_where, select_where}
use researchd_agent.Prelude.{
  ltb, leb, if◌then◌else◌, ◌==◌, nat_eq, string_eq, length, contains, truthy, Result, ok, raise,
  ◌>>=◌, ◌>>◌, ℕ, suc, ◌-◌, String, Bool, true, false, not, ◌&&◌, ◌||◌, Option, none, some, List,
  [], ◌∷◌, ◌++◌, map, option_eq,
}
use researchd_agent.Scheduler.Collect.{task_id_of}
use researchd_agent.Scheduler.Dispatch.{
  DispatchDb, DispatchError, Profile, task_left, save_task_row, dispatch_task,
}
use researchd_agent.Scheduler.Leases.{Draw}
use researchd_agent.Scheduler.Readiness.{
  DispatchDecision, not_completed, task_dispatch_decision, dispatch,
}

abbrev pub is_empty {ℓ} : {A : Type ℓ} → List A → Bool
is_empty [] = true
is_empty (x ∷ xs) = false

-- `if project_id: ... where(project_id == ...)`
abbrev pub in_project : Option String → Task → Bool
in_project none t = true
in_project (some k) t = if truthy k then t.project_id == some k else true

-- `TaskRepo.list_by_status`
unfoldable pub list_by_status : Option String → List TaskStatus → List Task → List Task
unfolding sort_onto select_where
list_by_status project_id statuses tasks =
    sort_onto (λ t. t.created_at) []
      (select_where
        (λ t. in_project project_id t && (is_empty statuses || contains t.status statuses)) tasks)

unfoldable pub ids_with_status : TaskStatus → List Task → List String
unfolding list_by_status
ids_with_status s tasks = map task_id_of (list_by_status none (s ∷ []) tasks)

-- `DecisionRepo.list_open`
unfoldable pub list_open : List Decision → List Decision
unfolding sort_onto select_where
list_open decisions =
    sort_onto (λ d. d.created_at) []
      (select_where (λ d. contains d.status (DecisionStatus.opened ∷ DecisionStatus.answered ∷ []))
        decisions)

abbrev pub is_opened : Decision → Bool
is_opened d = d.status == DecisionStatus.opened

abbrev pub decision_id_of : Decision → String
decision_id_of d = d.decision_id

abbrev pub scopes_of : List Decision → List String
scopes_of [] = []
scopes_of (d ∷ ds) = d.blocking_scope ++ scopes_of ds

-- the union, as a list
unfoldable pub open_blocking_scope : List Decision → List String
unfolding list_open
open_blocking_scope decisions = scopes_of (select_where is_opened (list_open decisions))

unfoldable pub open_decision_ids : List Decision → List String
unfolding list_open
open_decision_ids decisions = map decision_id_of (select_where is_opened (list_open decisions))

-- `CHEAP_DIAGNOSTIC_MARKER`
abbrev pub cheap_marker : String
cheap_marker = "cheap-diagnostic:"

unfoldable pub starts_with : String → String → Bool
starts_with String.[] s = true
starts_with (String.◌∷◌ c p) String.[] = false
starts_with (String.◌∷◌ c p) (String.◌∷◌ d s) = code c == code d && starts_with p s

abbrev pub is_cheap : Task → Bool
is_cheap t = starts_with cheap_marker t.contract.why_now

-- the order of the keys `(0 or 1, created_at)`
abbrev pub goes_before : Task → Task → Bool
goes_before t u =
    if is_cheap t
    then (if is_cheap u then ltb t.created_at u.created_at else true)
    else (if is_cheap u then false else ltb t.created_at u.created_at)

unfoldable pub insert_task : Task → List Task → List Task
unfolding starts_with
insert_task t [] = t ∷ []
insert_task t (u ∷ us) =
    let rest = insert_task t us in if goes_before t u then t ∷ u ∷ us else u ∷ rest

-- `tasks.sort(key=...)`, which is stable
unfoldable pub sort_tasks : List Task → List Task → List Task
unfolding insert_task
sort_tasks sorted [] = sorted
sort_tasks sorted (t ∷ ts) = sort_tasks (insert_task t sorted) ts

-- the session, what it has committed, the tasks of `self.active` and the free slots
pub record LoopState : Type 0 where
  pub session : DispatchDb
  pub committed : DispatchDb
  pub active : List String
  pub dispatched : ℕ
  pub slots : ℕ

-- what the dispatch of a task is given
pub record Dispatching : Type 0 where
  pub matches : String → String → Bool
  pub executor : String
  pub profile_of : Task → Profile
  pub run_id_for : Task → String
  pub draw_for : Task → Draw

abbrev pub activate : String → List String → List String
activate k active = if contains k active then active else active ++ k ∷ []

abbrev pub counted_in :
    LoopState
    → Result DispatchError (Option (Run × Task) × DispatchDb)
    → Result DispatchError LoopState
counted_in s (raise e) = raise e
counted_in s (ok (none, db)) = ok (record s { session = db })
counted_in s (ok (some (run, task), db)) = ok (record s {
  session = db;
  committed = db;
  active = activate run.task_id s.active;
  dispatched = suc s.dispatched;
  slots = s.slots - 1;
})

abbrev pub is_dispatch : DispatchDecision → Bool
is_dispatch dispatch = true
is_dispatch _ = false

-- the state when the loop ends or an exception leaves it, with the exception
abbrev pub Pass : Type 0
Pass = LoopState × Option DispatchError

abbrev pub then_pass : LoopState → (LoopState → Pass) → Result DispatchError LoopState → Pass
then_pass s rest (raise e) = (s, some e)
then_pass s rest (ok u) = rest u

unfoldable pub dispatch_each :
    Dispatching → ℕ → List Decision → List String → List Task → LoopState → Pass
unfolding open_blocking_scope open_decision_ids task_dispatch_decision dispatch_task
dispatch_each env now decisions done [] s = (s, none)
dispatch_each env now decisions done (t ∷ ts) s =
    let rest = dispatch_each env now decisions done ts in
    if s.slots == 0
    then (s, none)
    else if contains t.task_id s.active
    then rest s
    else if not (
        is_dispatch (
          task_dispatch_decision t (open_decision_ids decisions)
            (some (open_blocking_scope decisions)) (some done)))
    then rest s
    else then_pass s rest (
        counted_in s (
          dispatch_task env.matches env.executor (env.profile_of t) (env.run_id_for t) now
            (env.draw_for t) t s.session))

-- `slots` is used only in its comparison with 0, so a negative number of slots is 0 here
unfoldable pub dispatch_ready :
    Dispatching → ℕ → ℕ → List Decision → List String → DispatchDb → Pass
unfolding dispatch_each ids_with_status list_by_status sort_tasks
dispatch_ready env now max_parallel decisions active db =
    dispatch_each env now decisions (ids_with_status TaskStatus.completed db.tasks)
      (sort_tasks [] (list_by_status none (TaskStatus.ready ∷ []) db.tasks))
      (record {
        session = db;
        committed = db;
        active = active;
        dispatched = 0;
        slots = max_parallel - length active;
      })

-- `_unblock_resolved`

abbrev pub is_resolved : Decision → Bool
is_resolved d = contains d.status (
    DecisionStatus.answered ∷ DecisionStatus.applied ∷ DecisionStatus.closed
    ∷ DecisionStatus.withdrawn ∷ [])

abbrev pub resolved_ids : List Decision → List String
resolved_ids decisions = map decision_id_of (select_where is_resolved decisions)

unfoldable pub unblock_task : ℕ → List String → Task → List Task → Result DispatchError (List Task)
unfolding not_completed requeue save
unblock_task now resolved t tasks =
    let remaining = not_completed resolved t.blocked_by in
    let kept = record t { blocked_by = remaining } in
    if length remaining == length t.blocked_by then ok tasks else (do
      left ←
          if is_empty remaining
          then task_left (requeue now "blocking decision resolved" kept)
          else ok kept
      saved ← save_task_row now left tasks
      ok saved.1)

unfoldable pub unblock_each :
    ℕ → List String → List Task → List Task → Result DispatchError (List Task)
unfolding unblock_task
unblock_each now resolved [] tasks = ok tasks
unblock_each now resolved (t ∷ ts) tasks =
    unblock_task now resolved t tasks >>= unblock_each now resolved ts

unfoldable pub unblock_resolved : ℕ → List Decision → List Task → Result DispatchError (List Task)
unfolding unblock_each list_by_status
unblock_resolved now decisions tasks =
    if is_empty (resolved_ids decisions)
    then ok tasks
    else unblock_each now (resolved_ids decisions)
        (list_by_status none (TaskStatus.blocked ∷ []) tasks) tasks

-- `_requeue_worker_blocked`

abbrev pub max_worker_blocked_retries : ℕ
max_worker_blocked_retries = 2

-- `RunRepo.count_for_task`
unfoldable pub count_for_task : String → List Run → ℕ
unfolding count_where
count_for_task task_id runs = count_where (λ r. r.task_id == task_id) runs

abbrev pub may_retry : List String → List Run → Task → Bool
may_retry done runs t =
    is_empty t.blocked_by
    && is_empty (not_completed done t.depends_on)
    && leb (count_for_task t.task_id runs) max_worker_blocked_retries

abbrev pub ready_event : Task → String × String
ready_event t = ("task.ready", t.task_id)

unfoldable pub retry_task : ℕ → List String → Task → DispatchDb → Result DispatchError DispatchDb
unfolding not_completed count_for_task requeue save
retry_task now done t db = if not (may_retry done db.runs t) then ok db else (do
  left ← task_left (requeue now "worker reported BLOCKED; dependencies satisfied" t)
  saved ← save_task_row now left db.tasks
  ok (record db { tasks = saved.1; events = db.events ++ ready_event saved.0 ∷ [] }))

unfoldable pub retry_each :
    ℕ → List String → List Task → DispatchDb → Result DispatchError DispatchDb
unfolding retry_task
retry_each now done [] db = ok db
retry_each now done (t ∷ ts) db = retry_task now done t db >>= retry_each now done ts

unfoldable pub requeue_worker_blocked : ℕ → DispatchDb → Result DispatchError DispatchDb
unfolding retry_each list_by_status ids_with_status
requeue_worker_blocked now db =
    retry_each now (ids_with_status TaskStatus.completed db.tasks)
      (list_by_status none (TaskStatus.blocked ∷ []) db.tasks) db
