-- ===== src/Scheduler/Success/Settled.antt =====
-- What `RunDispatcher.collect_success` of src/researchd/scheduler/dispatch.py leaves where it returns.
use mathlib.Core.List.{Memᴰ}
use researchd_agent.Application.ApplyResult.Data.{Draws}
use researchd_agent.Application.ApplyResult.Unverified.{worker_never_verifies}
use researchd_agent.Application.ApplyResult.Whole.{apply_work_result}
use researchd_agent.Application.Paths.{FileSystem}
use researchd_agent.Domain.Enums.Evidence.{EvidenceStatus, evidence_status_eq}
use researchd_agent.Domain.Enums.Run.{RunStatus, run_status_eq}
use researchd_agent.Domain.Enums.Work.{TaskStatus, task_status_eq}
use researchd_agent.Domain.Evidence.{Evidence}
use researchd_agent.Domain.Machines.Tables.{task_transitions}
use researchd_agent.Domain.Run.{Run}
use researchd_agent.Domain.StateMachine.{can, transition}
use researchd_agent.Domain.Task.{Task, transition_task, block, submit_review, fail}
use researchd_agent.Prelude.{
  Bool-cases, ◌==◌, nat_eq, string_eq, ok, ℕ, String, ◌≡◌, sym, ap, subst, ◌∙◌, inl, inr, true,
  some, List, ok-injective, raise-ne-ok, option_eq, require_some, bind-ok, require_some-ok, list_eq,
}
use researchd_agent.Scheduler.Collect.{get_by_task_id, give_up, close_run}
use researchd_agent.Scheduler.Collect.Released.{close_run-ok, close_run-keeps}
use researchd_agent.Scheduler.Dispatch.{or_refused, task_left, save_task_row}
use researchd_agent.Scheduler.Dispatch.Leased.{or_refused-ok}
use researchd_agent.Scheduler.Success.{
  WorkOutcome, Collected, CollectDb, finished_run, report_outcome, collect_success,
  submit_for_review, reported_blocked, reported_failed, not_closed, task_missing, not_applied,
}

-- the status that each outcome sends the task to
abbrev pub status_for : WorkOutcome → TaskStatus
status_for submit_for_review = TaskStatus.review
status_for reported_blocked = TaskStatus.blocked
status_for reported_failed = TaskStatus.failed

pub transition_task-ok :
    (now : ℕ) (target : TaskStatus) (reason : String) (t left : Task)
    → task_left (transition_task now target true reason t) ≡ ok left
    → (left.status ≡ target)
      × (can task_transitions t.status target true ≡ true)
      × (left.task_id ≡ t.task_id)
unfolding transition_task transition
transition_task-ok now target reason t left h = elim (Bool-cases (target == TaskStatus.completed)) [
  | inl y ↦ absurd (raise-ne-ok (rw y at h))
  | inr n ↦ elim (Bool-cases (can task_transitions t.status target true)) [
    | inl c ↦
        let out = ok-injective (rw (n, c) at h) in
        (ap (λ x. x.status) (sym out), c, ap (λ x. x.task_id) (sym out))
    | inr b ↦ absurd (raise-ne-ok (rw (n, b) at h))
  ]
]

report_outcome-ok :
    (now : ℕ) (o : WorkOutcome) (t left : Task)
    → task_left (report_outcome now o t) ≡ ok left
    → (left.status ≡ status_for o)
      × (can task_transitions t.status (status_for o) true ≡ true)
      × (left.task_id ≡ t.task_id)
unfolding report_outcome submit_review block fail
report_outcome-ok now submit_for_review t left h =
    transition_task-ok now TaskStatus.review "" t left h
report_outcome-ok now reported_blocked t left h =
    transition_task-ok now TaskStatus.blocked "" t left h
report_outcome-ok now reported_failed t left h =
    transition_task-ok now TaskStatus.failed ""
      (record t { error_message = some "worker reported FAILED" }) left h

-- the task of the run moved along an edge of its machine, and its row is the saved one
abbrev pub TaskSettled : ℕ → Run → WorkOutcome → List Task → List Task → Type 0
TaskSettled now r o before after =
    (t : Task) × (left : Task) × (kept : Task) × (get_by_task_id r.task_id before ≡ some t)
    × (can task_transitions t.status (status_for o) true ≡ true)
    × (left.status ≡ status_for o)
    × (left.task_id ≡ t.task_id)
    × (save_task_row now left before ≡ ok (kept, after))

-- Where `collect_success` returns, the run is SUCCEEDED and its lease is given up; its task was there and went, along
-- an edge of its machine, to REVIEW, BLOCKED or FAILED, as the worker's outcome says, and is the one task row written;
-- and every evidence that is VERIFIED afterwards was stored as such before: a result never verifies its own evidence.
pub success_settles :
    (fs : FileSystem) (now : ℕ) (draws : Draws) (r : Run) (c : Collected) (db : CollectDb)
    (out : Run × CollectDb)
    → collect_success fs now draws r c db ≡ ok out
    → (out.0.status ≡ RunStatus.succeeded)
      × (out.1.runs_db.leases ≡ give_up now r.lease_token db.runs_db.leases)
      × TaskSettled now r c.outcome db.runs_db.tasks out.1.runs_db.tasks
      × ((e : Evidence)
          → Memᴰ e out.1.tables.evidence
          → e.status ≡ EvidenceStatus.verified
          → Memᴰ e db.tables.evidence)
unfolding collect_success
success_settles fs now draws r c db out h =
    let done = finished_run r c in
    let (closed, h1, g1) =
      bind-ok (or_refused not_closed (close_run now RunStatus.succeeded done db.runs_db)) h in
    let (t, h2, g2) =
      bind-ok (require_some (get_by_task_id r.task_id closed.1.tasks) task_missing) g1 in
    let (left, h3, g3) =
      bind-ok (or_refused not_closed (task_left (report_outcome now c.outcome t))) g2 in
    let (kept, h4, g4) =
      bind-ok (or_refused not_closed (save_task_row now left closed.1.tasks)) g3 in
    let (results, h5, g5) =
      bind-ok
        (or_refused not_applied (apply_work_result fs now draws closed.0 c.findings db.tables))
        g4 in
    let final = sym (ok-injective g5) in
    let ran =
      or_refused-ok not_closed (close_run now RunStatus.succeeded done db.runs_db) closed h1 in
    let (status, leases) = close_run-ok now RunStatus.succeeded done db.runs_db closed ran in
    let same = (close_run-keeps now RunStatus.succeeded done db.runs_db closed ran).0 in
    let (goes, edge, named) =
      report_outcome-ok now c.outcome t left
        (or_refused-ok not_closed (task_left (report_outcome now c.outcome t)) left h3) in
    let stored = or_refused-ok not_closed (save_task_row now left closed.1.tasks) kept h4 in
    (
      ap (λ z. z.0.status) final ∙ status,
      ap (λ z. z.1.runs_db.leases) final ∙ leases,
      (
        t,
        left,
        kept.0,
        subst (λ l. get_by_task_id r.task_id l ≡ some t) same
            (require_some-ok (get_by_task_id r.task_id closed.1.tasks) task_missing h2),
        edge,
        goes,
        named,
        subst (λ l. save_task_row now left l ≡ ok (kept.0, out.1.runs_db.tasks)) same
            (stored ∙ ap (λ l. ok (kept.0, l)) (sym (ap (λ z. z.1.runs_db.tasks) final))),
      ),
      λ e m v.
          worker_never_verifies fs now draws closed.0 c.findings db.tables results.1 results.0 e
            (or_refused-ok not_applied
              (apply_work_result fs now draws closed.0 c.findings db.tables) results h5)
            (subst (λ z. Memᴰ e z.1.tables.evidence) final m) v,
    )
