-- ===== src/Scheduler/Collect/Released.antt =====
-- What a run that was interrupted leaves behind.
use Prim.Native.String.{◌++◌ as str_append}
use researchd_agent.Domain.Enums.Run.{RunStatus, run_status_eq}
use researchd_agent.Domain.Enums.Work.{TaskStatus, task_status_eq}
use researchd_agent.Domain.Run.{Run}
use researchd_agent.Domain.Task.{Task, TaskMethod, requeue}
use researchd_agent.Persistence.Outbox.{held}
use researchd_agent.Persistence.Table.{execute}
use researchd_agent.Persistence.Table.Keyed.{find, if_meets, find-update_self}
use researchd_agent.Prelude.{
  Bool-cases, ◌==◌, nat_eq, string_eq, ok, ℕ, String, ◌≡◌, refl, sym, ap, ◌∙◌, inl, inr, Option,
  none, some, ok-injective, option_eq, bind-ok,
}
use researchd_agent.Scheduler.Collect.{
  get_by_task_id, give_up, close_run, on_running, collect_interrupt,
}
use researchd_agent.Scheduler.Dispatch.{DispatchDb, task_left, save_run, save_task_row, move_run}
use researchd_agent.Scheduler.Dispatch.Leased.{save_run-SameRun, move_run-ok}
use researchd_agent.Scheduler.Leases.{LeaseRow, token_of, unreleased, release_lease}

pub close_run-ok :
    (now : ℕ) (target : RunStatus) (r : Run) (db : DispatchDb) (c : Run × DispatchDb)
    → close_run now target r db ≡ ok c
    → (c.0.status ≡ target) × (c.1.leases ≡ give_up now r.lease_token db.leases)
unfolding close_run
close_run-ok now target r db c h =
    let (closed, h1, g1) = bind-ok (move_run now target r) h in
    let (saved, h2, g2) = bind-ok (save_run now closed db.runs) g1 in
    let (status, lease, _) = move_run-ok now target r closed h1 in
    let (s_status, s_lease, _) = save_run-SameRun now closed db.runs saved h2 in
    let out = ok-injective g2 in
    (
      ap (λ z. z.0.status) (sym out) ∙ s_status ∙ status,
      ap (λ z. z.1.leases) (sym out) ∙ ap (λ l. give_up now l db.leases) (s_lease ∙ lease),
    )

pub close_run-keeps :
    (now : ℕ) (target : RunStatus) (r : Run) (db : DispatchDb) (c : Run × DispatchDb)
    → close_run now target r db ≡ ok c
    → (c.1.tasks ≡ db.tasks) × (c.1.events ≡ db.events)
unfolding close_run
close_run-keeps now target r db c h =
    let (closed, h1, g1) = bind-ok (move_run now target r) h in
    let (saved, h2, g2) = bind-ok (save_run now closed db.runs) g1 in
    let out = sym (ok-injective g2) in (ap (λ z. z.1.tasks) out, ap (λ z. z.1.events) out)

on_running-leases :
    (o : Option Task) (method : TaskMethod) (event_type : String) (now : ℕ) (db after : DispatchDb)
    → on_running o method event_type now db ≡ ok after
    → after.leases ≡ db.leases
unfolding on_running
on_running-leases none method event_type now db after h = ap (λ z. z.leases) (sym (ok-injective h))
on_running-leases (some t) method event_type now db after h =
    elim (Bool-cases (t.status == TaskStatus.running)) [
      | inr n ↦ ap (λ z. z.leases) (sym (ok-injective (rw n at h)))
      | inl y ↦
          let (left, h1, g1) = bind-ok (task_left (method t)) (rw y at h) in
          let (kept, h2, g2) = bind-ok (save_task_row now left db.tasks) g1 in
          ap (λ z. z.leases) (sym (ok-injective g2))
    ]

-- Once an interrupt was collected, the run is INTERRUPTED, and the lease that the run held, which had not been
-- released, is released at that time.
pub interrupted_run_gives_up_lease :
    (now : ℕ) (reason token : String) (r r' : Run) (l : LeaseRow) (db after : DispatchDb)
    → collect_interrupt now reason r db ≡ ok (r', after)
    → r.lease_token ≡ some token
    → find token_of token db.leases ≡ some l
    → l.released_at ≡ none
    → (r'.status ≡ RunStatus.interrupted)
      × (find token_of token after.leases ≡ some (record l { released_at = some now }))
unfolding collect_interrupt release_lease execute
interrupted_run_gives_up_lease now reason token r r' l db after h held found free =
    let r1 = record r { termination_reason = some reason } in
    let (c, h1, g1) = bind-ok (close_run now RunStatus.interrupted r1 db) h in
    let (a, h2, g2) =
      bind-ok
        (on_running (get_by_task_id r.task_id c.1.tasks)
          (requeue now (str_append "interrupted: " reason)) "task.ready" now c.1)
        g1 in
    let (status, leases) = close_run-ok now RunStatus.interrupted r1 db c h1 in
    let kept =
      on_running-leases (get_by_task_id r.task_id c.1.tasks)
        (requeue now (str_append "interrupted: " reason)) "task.ready" now c.1 a h2 in
    let out = ok-injective g2 in
    let all_leases =
      ap (λ z. z.1.leases) (sym out) ∙ kept ∙ leases ∙ ap (λ k. give_up now k db.leases) held in
    (
      ap (λ z. z.0.status) (sym out) ∙ status,
      ap (find token_of token) all_leases
          ∙ find-update_self token_of token unreleased (λ x. record x { released_at = some now })
              db.leases (λ x. refl)
          ∙ ap (if_meets token_of unreleased (λ x. record x { released_at = some now })) found
          ∙ rw free refl,
    )
