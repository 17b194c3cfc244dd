-- ===== src/Scheduler/Readiness.antt =====
-- `task_dispatch_decision` of src/researchd/scheduler/dispatch.py.
pub mod Dispatching
use researchd_agent.Domain.Enums.Work.{TaskStatus, task_status_eq}
use researchd_agent.Domain.Task.{Task}
use researchd_agent.Prelude.{
  if◌then◌else◌, ◌==◌, nat_eq, string_eq, contains, String, Bool, false, not, Option, none, some,
  List, [], ◌∷◌, option_eq,
}

-- `DispatchDecision`: its action with the reason it gives
pub data DispatchDecision : Type 0 where
  dispatch : DispatchDecision
  skip_for_status : TaskStatus → DispatchDecision
  blocked_by_scope : DispatchDecision
  blocked_by_decisions : List String → DispatchDecision
  skip_for_dependencies : List String → DispatchDecision

-- `ids and i in ids`, where `ids` may be `None`
abbrev pub in_some : Option (List String) → String → Bool
in_some none i = false
in_some (some ids) i = contains i ids

unfoldable pub still_open : List String → List String → List String
still_open open_ids [] = []
still_open open_ids (d ∷ ds) =
    let rest = still_open open_ids ds in if contains d open_ids then d ∷ rest else rest

unfoldable pub not_completed : List String → List String → List String
not_completed done [] = []
not_completed done (d ∷ ds) =
    let rest = not_completed done ds in if contains d done then rest else d ∷ rest

abbrev pub missing_of : Option (List String) → List String → List String
missing_of none ds = []
missing_of (some done) ds = not_completed done ds

abbrev pub await : List String → DispatchDecision
await [] = dispatch
await (d ∷ ds) = skip_for_dependencies (d ∷ ds)

abbrev pub await_decisions : List String → DispatchDecision → DispatchDecision
await_decisions [] otherwise = otherwise
await_decisions (d ∷ ds) otherwise = blocked_by_decisions (d ∷ ds)

unfoldable pub task_dispatch_decision :
    Task → List String → Option (List String) → Option (List String) → DispatchDecision
unfolding still_open not_completed
task_dispatch_decision t open_ids blocked_ids completed_ids =
    if not (t.status == TaskStatus.ready)
    then skip_for_status t.status
    else if in_some blocked_ids t.task_id
    then blocked_by_scope
    else await_decisions (still_open open_ids t.blocked_by)
        (await (missing_of completed_ids t.depends_on))
