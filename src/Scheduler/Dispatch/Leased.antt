-- ===== src/Scheduler/Dispatch/Leased.antt =====
-- What a dispatch leaves behind.
use researchd_agent.Application.Audit.Data.{base_of_task, with_task_base}
use researchd_agent.Domain.Enums.Run.{RunStatus, run_status_eq}
use researchd_agent.Domain.Enums.Work.{TaskStatus, task_status_beq_iff, task_status_eq}
use researchd_agent.Domain.Machines.Tables.{run_transitions}
use researchd_agent.Domain.Run.{Run, transition_run}
use researchd_agent.Domain.StateMachine.{can, transition}
use researchd_agent.Domain.Task.{Task, start}
use researchd_agent.Persistence.Repository.{object_id, save}
use researchd_agent.Persistence.Repository.Others.{saved_object}
use researchd_agent.Persistence.Table.Keyed.{find}
use researchd_agent.Prelude.{
  Bool-cases, ◌==◌, nat_eq, string_eq, Result, ok, raise, ℕ, String, ◌≡◌, refl, sym, ap, subst, ◌∙◌,
  ◌≢◌, inl, inr, Bool, true, Option, none, some, List, [], ◌∷◌, ◌++◌, ok-injective, raise-ne-ok,
  option_eq, bind-ok,
}
use researchd_agent.Scheduler.Dispatch.{
  DispatchDb, Profile, base_of_run, with_run_base, new_run, or_refused, task_left, save_run,
  save_task_row, move_run, lease_request, after_lease, dispatch_task, stale_row,
}
use researchd_agent.Scheduler.Leases.{Leases, MultipleRows, Draw, new_lease, acquire}
use researchd_agent.Scheduler.Leases.Renewal.{acquire_granted}

pub or_refused-ok :
    {E F A : Type 0} (wrap : E → F) (r : Result E A) (a : A) → or_refused wrap r ≡ ok a → r ≡ ok a
or_refused-ok wrap (ok x) a h = ap ok (ok-injective h)
or_refused-ok wrap (raise e) a h = absurd (raise-ne-ok h)

abbrev pub SameRun : Run → Run → Type 0
SameRun a b = (a.status ≡ b.status) × (a.lease_token ≡ b.lease_token) × (a.run_id ≡ b.run_id)

abbrev SameTask : Task → Task → Type 0
SameTask a b =
    (a.status ≡ b.status) × (a.lease_token ≡ b.lease_token) × (a.current_run_id ≡ b.current_run_id)

pub save_run-SameRun :
    (now : ℕ) (r : Run) (rows : List Run) (p : Run × List Run)
    → save_run now r rows ≡ ok p
    → SameRun p.0 r
unfolding save
save_run-SameRun now r rows p h =
    elim (saved_object base_of_run with_run_base now r rows
      (find (object_id base_of_run) (object_id base_of_run r) rows) p
      (or_refused-ok stale_row (save base_of_run with_run_base now r rows) p h)) [
        | inl e ↦ rw e (refl, refl, refl)
        | inr e ↦ rw e (refl, refl, refl)
      ]

save_task_row-SameTask :
    (now : ℕ) (t : Task) (rows : List Task) (p : Task × List Task)
    → save_task_row now t rows ≡ ok p
    → SameTask p.0 t
unfolding save
save_task_row-SameTask now t rows p h =
    elim (saved_object base_of_task with_task_base now t rows
      (find (object_id base_of_task) (object_id base_of_task t) rows) p
      (or_refused-ok stale_row (save base_of_task with_task_base now t rows) p h)) [
        | inl e ↦ rw e (refl, refl, refl)
        | inr e ↦ rw e (refl, refl, refl)
      ]

pub move_run-ok :
    (now : ℕ) (target : RunStatus) (r s : Run)
    → move_run now target r ≡ ok s
    → (s.status ≡ target) × (s.lease_token ≡ r.lease_token) × (s.run_id ≡ r.run_id)
unfolding transition_run transition
move_run-ok now target r s h = elim (Bool-cases (can run_transitions r.status target true)) [
  | inl c ↦
      let same = ok-injective (rw c at h) in
      (
        ap (λ x. x.status) (sym same),
        ap (λ x. x.lease_token) (sym same),
        ap (λ x. x.run_id) (sym same),
      )
  | inr n ↦ absurd (raise-ne-ok (rw n at h))
]

start-ok :
    (now : ℕ) (run_id token : String) (t u : Task)
    → task_left (start now run_id token t) ≡ ok u
    → (t.status ≡ TaskStatus.ready)
      × (u.status ≡ TaskStatus.running)
      × (u.lease_token ≡ some token)
      × (u.current_run_id ≡ some run_id)
unfolding start
start-ok now run_id token t u h = elim (Bool-cases (t.status == TaskStatus.ready)) [
  | inl y ↦
      let same = ok-injective (rw y at h) in
      (
        (task_status_beq_iff t.status TaskStatus.ready).0 y,
        ap (λ x. x.status) (sym same),
        ap (λ x. x.lease_token) (sym same),
        ap (λ x. x.current_run_id) (sym same),
      )
  | inr n ↦ absurd (raise-ne-ok (rw n at h))
]

-- the run and the task share the token of the lease, and both are RUNNING
abbrev Started : Run → Task → String → Type 0
Started r u token =
    (r.status ≡ RunStatus.running)
    × (u.status ≡ TaskStatus.running)
    × (r.lease_token ≡ some token)
    × (u.lease_token ≡ some token)
    × (u.current_run_id ≡ some r.run_id)

abbrev WhenSome : Option (Run × Task) → String → Type 0
WhenSome none token = Unit
WhenSome (some (r, u)) token = Started r u token

pub none-ne-some : {A : Type 0} {a : A} → ◌≢◌ {A = Option A} none (some a)
none-ne-some h = cc

after_lease-ok :
    (now : ℕ) (r0 r : Run) (t u : Task) (runs : List Run) (db after : DispatchDb)
    (a : Result MultipleRows (Option String) × Leases)
    → after_lease now r0 t runs db a ≡ ok (some (r, u), after)
    → (token : String) × (a ≡ (ok (some token), after.leases))
      × (t.status ≡ TaskStatus.ready)
      × Started r u token
unfolding after_lease
after_lease-ok now r0 r t u runs db after (raise e, leases) h = absurd (raise-ne-ok h)
after_lease-ok now r0 r t u runs db after (ok none, leases) h =
    absurd (none-ne-some (ap (λ z. z.0) (ok-injective h)))
after_lease-ok now r0 r t u runs db after (ok (some token), leases) h =
    let (running, h1, g1) =
      bind-ok (move_run now RunStatus.running (record r0 { lease_token = some token })) h in
    let (saved, h2, g2) = bind-ok (save_run now running runs) g1 in
    let (started, h3, g3) = bind-ok (task_left (start now r0.run_id token t)) g2 in
    let (kept, h4, g4) = bind-ok (save_task_row now started db.tasks) g3 in
    let (status, lease, id) =
      move_run-ok now RunStatus.running (record r0 { lease_token = some token }) running h1 in
    let (s_status, s_lease, s_id) = save_run-SameRun now running runs saved h2 in
    let (was, t_status, t_lease, t_run) = start-ok now r0.run_id token t started h3 in
    let (k_status, k_lease, k_run) = save_task_row-SameTask now started db.tasks kept h4 in
    let out = ok-injective g4 in
    let same_run = ap (λ z. z.0) out in
    (
      token,
      ap (λ z. (ok (some token), z.1.leases)) out,
      was,
      subst (λ z. WhenSome z token) same_run
          (
            s_status ∙ status,
            k_status ∙ t_status,
            s_lease ∙ lease,
            k_lease ∙ t_lease,
            k_run ∙ t_run ∙ ap some (sym (s_id ∙ id)),
          ),
    )

-- what the caller is handed
pub dispatch_task-ok :
    (matches : String → String → Bool) (executor : String) (profile : Profile) (run_id : String)
    (now : ℕ) (d : Draw) (t u : Task) (r : Run) (db after : DispatchDb)
    → dispatch_task matches executor profile run_id now d t db ≡ ok (some (r, u), after)
    → (t.status ≡ TaskStatus.ready)
      × (r.status ≡ RunStatus.running)
      × (u.status ≡ TaskStatus.running)
      × (r.lease_token ≡ some d.token)
      × (u.lease_token ≡ some d.token)
      × (u.current_run_id ≡ some r.run_id)
      × (after.leases ≡ db.leases ++ new_lease matches (lease_request executor run_id t) d ∷ [])
unfolding dispatch_task
dispatch_task-ok matches executor profile run_id now d t u r db after h =
    let q = lease_request executor run_id t in
    let (starting, h1, g1) =
      bind-ok (move_run now RunStatus.starting (new_run executor profile run_id t now)) h in
    let (saved, h2, g2) = bind-ok (save_run now starting db.runs) g1 in
    let (token, got, was, (r_status, u_status, r_lease, u_lease, u_run)) =
      after_lease-ok now saved.0 r t u saved.1 db after (acquire matches q d db.leases) g2 in
    let (drawn, added) = acquire_granted matches q d db.leases after.leases token got in
    (was, r_status, u_status, r_lease ∙ ap some drawn, u_lease ∙ ap some drawn, u_run, added)
