-- ===== src/Scheduler/Dispatch/Rows.antt =====
-- The rows that `RunDispatcher.dispatch_task` of src/researchd/scheduler/dispatch.py leaves.
use researchd_agent.Application.Audit.Data.{base_of_task, with_task_base}
use researchd_agent.Domain.Base.{DomainModel}
use researchd_agent.Domain.Enums.Run.{RunStatus, run_status_eq}
use researchd_agent.Domain.Enums.Work.{TaskStatus, task_status_eq}
use researchd_agent.Domain.Machines.Tables.{run_transitions}
use researchd_agent.Domain.Run.{Run, transition_run}
use researchd_agent.Domain.StateMachine.{can, transition}
use researchd_agent.Domain.Task.{Task, start}
use researchd_agent.Persistence.Repository.{object_id, save}
use researchd_agent.Persistence.Repository.Stored.{save-new, save-current}
use researchd_agent.Persistence.Table.Keyed.{find}
use researchd_agent.Prelude.{
  Bool-cases, ◌==◌, nat_eq, string_eq, Result, ok, raise, ℕ, String, ◌≡◌, refl, sym, ap, subst, ◌∙◌,
  inl, inr, Bool, true, Option, none, some, List, [], ◌∷◌, ◌++◌, ok-injective, raise-ne-ok,
  option_eq, bind-ok,
}
use researchd_agent.Scheduler.Dispatch.{
  DispatchDb, Profile, base_of_run, with_run_base, new_run, task_left, save_run, save_task_row,
  move_run, lease_request, after_lease, dispatch_task, stale_row,
}
use researchd_agent.Scheduler.Dispatch.Leased.{or_refused-ok, none-ne-some, dispatch_task-ok}
use researchd_agent.Scheduler.Leases.{Leases, MultipleRows, Draw, new_lease, acquire}

-- a method of an object that keeps its version and its time of creation
abbrev SameRow : DomainModel → DomainModel → Type 0
SameRow a b = (a.id ≡ b.id) × (a.version ≡ b.version) × (a.created_at ≡ b.created_at)

move_run-SameRow :
    (now : ℕ) (target : RunStatus) (r s : Run)
    → move_run now target r ≡ ok s
    → SameRow r.base s.base
unfolding transition_run transition
move_run-SameRow now target r s h = elim (Bool-cases (can run_transitions r.status target true)) [
  | inl c ↦
      let same = ok-injective (rw c at h) in
      (ap (λ x. x.id) same, ap (λ x. x.version) same, ap (λ x. x.created_at) same)
  | inr n ↦ absurd (raise-ne-ok (rw n at h))
]

start-SameRow :
    (now : ℕ) (run_id token : String) (t u : Task)
    → task_left (start now run_id token t) ≡ ok u
    → SameRow t.base u.base
unfolding start
start-SameRow now run_id token t u h = elim (Bool-cases (t.status == TaskStatus.ready)) [
  | inl y ↦
      let same = ok-injective (rw y at h) in
      (ap (λ x. x.id) same, ap (λ x. x.version) same, ap (λ x. x.created_at) same)
  | inr n ↦ absurd (raise-ne-ok (rw n at h))
]

abbrev run_key : Run → String
run_key = object_id base_of_run

abbrev task_key : Task → String
task_key = object_id base_of_task

-- the rows of the run and of the task are those that are handed back
abbrev InTables : Option (Run × Task) → String → String → DispatchDb → Type 0
InTables none k j db = Unit
InTables (some (r, u)) k j db =
    (find run_key k db.runs ≡ some r) × (find task_key j db.tasks ≡ some u)

after_lease-InTables :
    (now : ℕ) (r0 r : Run) (t u : Task) (runs : List Run) (db after : DispatchDb)
    (a : Result MultipleRows (Option String) × Leases)
    → find run_key r0.id runs ≡ some r0
    → find task_key t.id db.tasks ≡ some t
    → after_lease now r0 t runs db a ≡ ok (some (r, u), after)
    → InTables (some (r, u)) r0.id t.id after
unfolding after_lease
after_lease-InTables now r0 r t u runs db after (raise e, leases) f g h = absurd (raise-ne-ok h)
after_lease-InTables now r0 r t u runs db after (ok none, leases) f g h =
    absurd (none-ne-some (ap (λ z. z.0) (ok-injective h)))
after_lease-InTables now r0 r t u runs db after (ok (some token), leases) f g h =
    let holding = record r0 { lease_token = some token } in
    let (running, h1, g1) = bind-ok (move_run now RunStatus.running holding) h in
    let (saved, h2, g2) = bind-ok (save_run now running runs) g1 in
    let (started, h3, g3) = bind-ok (task_left (start now r0.run_id token t)) g2 in
    let (kept, h4, g4) = bind-ok (save_task_row now started db.tasks) g3 in
    let (r_id, r_version, r_created) = move_run-SameRow now RunStatus.running holding running h1 in
    let (t_id, t_version, t_created) = start-SameRow now r0.run_id token t started h3 in
    let run_there =
      save-current base_of_run with_run_base (λ b x. refl) now running r0 runs saved
        (subst (λ k. find run_key k runs ≡ some r0) r_id f) r_version r_created
        (or_refused-ok stale_row (save base_of_run with_run_base now running runs) saved h2) in
    let task_there =
      save-current base_of_task with_task_base (λ b x. refl) now started t db.tasks kept
        (subst (λ k. find task_key k db.tasks ≡ some t) t_id g) t_version t_created
        (or_refused-ok stale_row (save base_of_task with_task_base now started db.tasks) kept h4) in
    subst (λ z. InTables z.0 r0.id t.id z.1) (ok-injective g4)
      (
        subst (λ k. find run_key k saved.1 ≡ some saved.0) (sym r_id) run_there,
        subst (λ k. find task_key k kept.1 ≡ some kept.0) (sym t_id) task_there,
      )

-- A dispatch, under a run id that no run has, of a task that is the row of its table: where it hands back a run, the
-- task was READY, and the rows of the run and of the task are then RUNNING with the token that the call drew, the task
-- names the run, and the lease with that token was added to the table.
pub dispatched_is_leased :
    (matches : String → String → Bool) (executor : String) (profile : Profile) (run_id : String)
    (now : ℕ) (d : Draw) (t u : Task) (r : Run) (db after : DispatchDb)
    → find run_key run_id db.runs ≡ none
    → find task_key t.id db.tasks ≡ some t
    → dispatch_task matches executor profile run_id now d t db ≡ ok (some (r, u), after)
    → (find run_key run_id after.runs ≡ some r)
      × (find task_key t.id after.tasks ≡ some u)
      × (t.status ≡ TaskStatus.ready)
      × (r.status ≡ RunStatus.running)
      × (u.status ≡ TaskStatus.running)
      × (r.lease_token ≡ some d.token)
      × (u.lease_token ≡ some d.token)
      × (u.current_run_id ≡ some r.run_id)
      × (after.leases ≡ db.leases ++ new_lease matches (lease_request executor run_id t) d ∷ [])
unfolding dispatch_task
dispatched_is_leased matches executor profile run_id now d t u r db after new there h =
    let q = lease_request executor run_id t in
    let first = new_run executor profile run_id t now in
    let (starting, h1, g1) = bind-ok (move_run now RunStatus.starting first) h in
    let (saved, h2, g2) = bind-ok (save_run now starting db.runs) g1 in
    let (id, _, _) = move_run-SameRow now RunStatus.starting first starting h1 in
    let (same, run_there) =
      save-new base_of_run with_run_base (λ b x. refl) now starting db.runs saved
        (subst (λ k. find run_key k db.runs ≡ none) id new)
        (or_refused-ok stale_row (save base_of_run with_run_base now starting db.runs) saved h2) in
    let named = ap (λ x. x.id) same ∙ sym id in
    let (run_row, task_row) =
      after_lease-InTables now saved.0 r t u saved.1 db after (acquire matches q d db.leases)
        (subst (λ x. find run_key x.id saved.1 ≡ some x) (sym same) run_there) there g2 in
    let (ready, r_status, u_status, r_token, u_token, u_run, leases) =
      dispatch_task-ok matches executor profile run_id now d t u r db after h in
    (
      subst (λ k. find run_key k after.runs ≡ some r) named run_row,
      task_row,
      ready,
      r_status,
      u_status,
      r_token,
      u_token,
      u_run,
      leases,
    )
