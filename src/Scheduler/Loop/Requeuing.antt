-- ===== src/Scheduler/Loop/Requeuing.antt =====
-- Which tasks that a worker reported BLOCKED are tried again.
use mathlib.Core.List.{Memᴰ}
use researchd_agent.Application.Audit.Data.{base_of_task, with_task_base}
use researchd_agent.Domain.Base.{DomainModel}
use researchd_agent.Domain.Enums.Work.{TaskStatus, task_status_eq}
use researchd_agent.Domain.Machines.Tables.{task_transitions}
use researchd_agent.Domain.Run.{Run}
use researchd_agent.Domain.StateMachine.{can, transition}
use researchd_agent.Domain.Task.{Task, transition_task, complete, requeue}
use researchd_agent.Persistence.Repository.{StaleVersion, save}
use researchd_agent.Persistence.Repository.Others.{save-All}
use researchd_agent.Prelude.{
  leb, Bool-cases, Result, ok, raise, ℕ, String, ◌≡◌, refl, sym, ap, subst, ◌∙◌, ◌⊎◌, inl, inr,
  Bool, true, ◌&&◌, none, List, [], ◌∷◌, arith, All, ok-injective, raise-ne-ok, bind-ok, member_has,
  All-members,
}
use researchd_agent.Scheduler.Dispatch.{DispatchDb, or_refused, task_left, save_task_row, stale_row}
use researchd_agent.Scheduler.Loop.{
  is_empty, list_by_status, ids_with_status, max_worker_blocked_retries, count_for_task, may_retry,
  retry_task, retry_each, requeue_worker_blocked,
}
use researchd_agent.Scheduler.Readiness.{not_completed}

pub is_empty-nil : {A : Type 0} (xs : List A) → is_empty xs ≡ true → xs ≡ []
is_empty-nil [] h = refl
is_empty-nil (x ∷ xs) h = cc

pub saved_task-All :
    (now : ℕ) (P : Task → Type 0) (left : Task) (rows : List Task) (p : Task × List Task)
    → P left
    → ((b : DomainModel) → P (record left { base = b }))
    → All P rows
    → save_task_row now left rows ≡ ok p
    → All P p.1
saved_task-All now P left rows p kept lands a h =
    save-All base_of_task with_task_base (λ b r. refl) P left kept (λ b same. lands b) now rows p a
      (refused_ok (save base_of_task with_task_base now left rows) h)
  where
    refused_ok :
        (r : Result StaleVersion (Task × List Task)) → or_refused stale_row r ≡ ok p → r ≡ ok p
    refused_ok (ok x) q = ap ok (ok-injective q)
    refused_ok (raise x) q = absurd (raise-ne-ok q)

-- `requeue` where it returns
pub requeue-ok :
    (now : ℕ) (reason : String) (t u : Task)
    → task_left (requeue now reason t) ≡ ok u
    → (u.status ≡ TaskStatus.ready)
      × (u.blocked_by ≡ t.blocked_by)
      × (u.depends_on ≡ t.depends_on)
      × (u.task_id ≡ t.task_id)
unfolding requeue transition_task transition
requeue-ok now reason t u h =
    elim (Bool-cases (can task_transitions t.status TaskStatus.ready true)) [
      | inl y ↦
          let same = ok-injective (rw y at h) in
          (
            ap (λ x. x.status) (sym same),
            ap (λ x. x.blocked_by) (sym same),
            ap (λ x. x.depends_on) (sym same),
            ap (λ x. x.task_id) (sym same),
          )
      | inr n ↦ absurd (raise-ne-ok (rw n at h))
    ]

-- READY, with nothing to wait for and a retry left
abbrev pub Retried : List String → List Run → Task → Type 0
Retried done runs t =
    (t.status ≡ TaskStatus.ready)
    × (t.blocked_by ≡ [])
    × (not_completed done t.depends_on ≡ [])
    × (leb (count_for_task t.task_id runs) max_worker_blocked_retries ≡ true)

three_true : (a b c : Bool) → a && b && c ≡ true → (a ≡ true) × (b ≡ true) × (c ≡ true)
three_true a b c h = (ground arith, ground arith, ground arith)

retry_task-Retried :
    (now : ℕ) (done : List String) (before : List Task) (runs : List Run) (t : Task)
    (db after : DispatchDb)
    → db.runs ≡ runs
    → All (λ x. Memᴰ x before ⊎ Retried done runs x) db.tasks
    → retry_task now done t db ≡ ok after
    → (after.runs ≡ runs) × All (λ x. Memᴰ x before ⊎ Retried done runs x) after.tasks
unfolding retry_task
retry_task-Retried now done before runs t db after same a h =
    elim (Bool-cases (may_retry done db.runs t)) [
      | inr n ↦
          let end = ok-injective (rw n at h) in
          (
            ap (λ z. z.runs) (sym end) ∙ same,
            subst (λ z. All (λ x. Memᴰ x before ⊎ Retried done runs x) z.tasks) end a,
          )
      | inl y ↦
          let (left, h1, g1) =
            bind-ok (task_left (requeue now "worker reported BLOCKED; dependencies satisfied" t))
              (rw y at h) in
          let (saved, h2, g2) = bind-ok (save_task_row now left db.tasks) g1 in
          let end = ok-injective g2 in
          let (status, blocked, deps, id) =
            requeue-ok now "worker reported BLOCKED; dependencies satisfied" t left h1 in
          let (nothing, complete, few) =
            three_true (is_empty t.blocked_by) (is_empty (not_completed done t.depends_on))
              (leb (count_for_task t.task_id db.runs) max_worker_blocked_retries) y in
          let retried : Retried done runs left = (
            status,
            blocked ∙ is_empty-nil t.blocked_by nothing,
            ap (not_completed done) deps ∙ is_empty-nil (not_completed done t.depends_on) complete,
            ap (λ k. leb (count_for_task k runs) max_worker_blocked_retries) id
                ∙ ap (λ l. leb (count_for_task t.task_id l) max_worker_blocked_retries) (sym same)
                ∙ few,
          ) in
          (
            ap (λ z. z.runs) (sym end) ∙ same,
            subst (λ z. All (λ x. Memᴰ x before ⊎ Retried done runs x) z.tasks) end
                (saved_task-All now (λ x. Memᴰ x before ⊎ Retried done runs x) left db.tasks saved
                  (inr retried) (λ b. inr retried) a h2),
          )
    ]

retry_each-Retried :
    (now : ℕ) (done : List String) (before : List Task) (runs : List Run) (ts : List Task)
    (db after : DispatchDb)
    → db.runs ≡ runs
    → All (λ x. Memᴰ x before ⊎ Retried done runs x) db.tasks
    → retry_each now done ts db ≡ ok after
    → All (λ x. Memᴰ x before ⊎ Retried done runs x) after.tasks
unfolding retry_each
retry_each-Retried now done before runs [] db after same a h =
    subst (λ z. All (λ x. Memᴰ x before ⊎ Retried done runs x) z.tasks) (ok-injective h) a
retry_each-Retried now done before runs (t ∷ ts) db after same a h =
    let (m, h1, h2) = bind-ok (retry_task now done t db) h in
    let (same_runs, kept) = retry_task-Retried now done before runs t db m same a h1 in
    retry_each-Retried now done before runs ts m after same_runs kept h2

-- After the pass over the tasks that workers reported BLOCKED, each task is as it was, or is READY, waits for no
-- decision and for no task that was not COMPLETED, and had at most two runs before.
pub requeued_within_bound :
    (now : ℕ) (db after : DispatchDb) (t : Task)
    → requeue_worker_blocked now db ≡ ok after
    → Memᴰ t after.tasks
    → Memᴰ t db.tasks ⊎ Retried (ids_with_status TaskStatus.completed db.tasks) db.runs t
unfolding requeue_worker_blocked
requeued_within_bound now db after t h m =
    let done = ids_with_status TaskStatus.completed db.tasks in
    member_has (λ x. Memᴰ x db.tasks ⊎ Retried done db.runs x) t after.tasks
      (retry_each-Retried now done db.tasks db.runs
        (list_by_status none (TaskStatus.blocked ∷ []) db.tasks) db after refl
        (All-members (λ x. Memᴰ x db.tasks ⊎ Retried done db.runs x) db.tasks (λ x i. inl i)) h)
      m
