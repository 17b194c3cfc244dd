-- ===== src/Scheduler/Auditing/Opened.antt =====
-- What `RunDispatcher.dispatch_audit_run` of src/researchd/scheduler/dispatch.py leaves.
use researchd_agent.Domain.Enums.Run.{RunStatus, run_status_eq}
use researchd_agent.Domain.Run.{Run}
use researchd_agent.Domain.Task.{Task}
use researchd_agent.Prelude.{
  Result, ok, raise, ℕ, String, ◌≡◌, sym, ap, subst, ◌∙◌, Bool, Option, none, some, List, [], ◌∷◌,
  ◌++◌, ok-injective, raise-ne-ok, bind-ok,
}
use researchd_agent.Scheduler.Auditing.{
  audit_run_of, audit_request, after_audit_lease, dispatch_audit_run,
}
use researchd_agent.Scheduler.Dispatch.{DispatchDb, Profile, save_run, move_run}
use researchd_agent.Scheduler.Dispatch.Leased.{save_run-SameRun, move_run-ok, none-ne-some}
use researchd_agent.Scheduler.Leases.{Leases, MultipleRows, Draw, new_lease, acquire}
use researchd_agent.Scheduler.Leases.Renewal.{acquire_granted}

-- a run that is handed back is RUNNING with the token
abbrev Holding : Option Run → String → Type 0
Holding none token = Unit
Holding (some r) token = (r.status ≡ RunStatus.running) × (r.lease_token ≡ some token)

after_audit_lease-ok :
    (now : ℕ) (r0 r : Run) (runs : List Run) (db after : DispatchDb)
    (a : Result MultipleRows (Option String) × Leases)
    → after_audit_lease now r0 runs db a ≡ ok (some r, after)
    → (token : String) × (a ≡ (ok (some token), after.leases))
      × (r.status ≡ RunStatus.running)
      × (r.lease_token ≡ some token)
      × (after.tasks ≡ db.tasks)
unfolding after_audit_lease
after_audit_lease-ok now r0 r runs db after (raise e, leases) h = absurd (raise-ne-ok h)
after_audit_lease-ok now r0 r runs db after (ok none, leases) h =
    absurd (none-ne-some (ap (λ z. z.0) (ok-injective h)))
after_audit_lease-ok now r0 r runs db after (ok (some token), leases) h =
    let (running, h1, g1) =
      bind-ok (move_run now RunStatus.running (record r0 { lease_token = some token })) h in
    let (saved, h2, g2) = bind-ok (save_run now running runs) g1 in
    let (status, lease, _) =
      move_run-ok now RunStatus.running (record r0 { lease_token = some token }) running h1 in
    let (s_status, s_lease, _) = save_run-SameRun now running runs saved h2 in
    let out = ok-injective g2 in
    let held =
      subst (λ z. Holding z token) (ap (λ z. z.0) out) (s_status ∙ status, s_lease ∙ lease) in
    (
      token,
      ap (λ z. (ok (some token), z.1.leases)) out,
      held.0,
      held.1,
      ap (λ z. z.1.tasks) (sym out),
    )

-- A dispatch of an audit that hands back a run leaves every task as it was; the run is RUNNING with the token that the
-- call drew, and the lease with that token was added to the table in the slot of the auditors.
pub audit_keeps_task :
    (matches : String → String → Bool) (executor : String) (profile : Profile) (run_id : String)
    (worker_run_id : Option String) (now : ℕ) (d : Draw) (t : Task) (r : Run)
    (db after : DispatchDb)
    → dispatch_audit_run matches executor profile run_id worker_run_id now d t db
      ≡ ok (some r, after)
    → (after.tasks ≡ db.tasks)
      × (r.status ≡ RunStatus.running)
      × (r.lease_token ≡ some d.token)
      × (after.leases ≡ db.leases ++ new_lease matches (audit_request executor run_id t) d ∷ [])
unfolding dispatch_audit_run
audit_keeps_task matches executor profile run_id worker_run_id now d t r db after h =
    let q = audit_request executor run_id t in
    let (starting, h1, g1) =
      bind-ok
        (move_run now RunStatus.starting (audit_run_of executor profile run_id worker_run_id t now))
        h in
    let (saved, h2, g2) = bind-ok (save_run now starting db.runs) g1 in
    let (token, got, status, lease, tasks) =
      after_audit_lease-ok now saved.0 r saved.1 db after (acquire matches q d db.leases) g2 in
    let (drawn, added) = acquire_granted matches q d db.leases after.leases token got in
    (tasks, status, lease ∙ ap some drawn, added)
