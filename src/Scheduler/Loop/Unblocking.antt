-- ===== src/Scheduler/Loop/Unblocking.antt =====
-- Which tasks leave BLOCKED when decisions are resolved.
use mathlib.Core.List.{Memᴰ}
use researchd_agent.Domain.Decision.{Decision}
use researchd_agent.Domain.Enums.Work.{TaskStatus, task_status_eq}
use researchd_agent.Domain.Task.{Task, requeue}
use researchd_agent.Persistence.Repository.{insert_by, sort_onto}
use researchd_agent.Persistence.Table.{select_where}
use researchd_agent.Prelude.{
  ltb, Bool-cases, ◌==◌, nat_eq, string_eq, length, contains, ok, ℕ, String, ◌≡◌, refl, sym, subst,
  ◌∙◌, ◌⊎◌, inl, inr, Bool, true, false, none, List, [], ◌∷◌, arith, All, ok-injective, option_eq,
  bind-ok, member_has, All-members,
}
use researchd_agent.Scheduler.Dispatch.{task_left, save_task_row}
use researchd_agent.Scheduler.Loop.{
  is_empty, list_by_status, resolved_ids, unblock_task, unblock_each, unblock_resolved,
}
use researchd_agent.Scheduler.Loop.Requeuing.{is_empty-nil, saved_task-All, requeue-ok}
use researchd_agent.Scheduler.Readiness.{not_completed}

-- The task `b` with its resolved decisions taken off, of which there was one: READY where none is left, else BLOCKED still.
abbrev pub ReleasedFrom : List String → Task → Task → Type 0
ReleasedFrom resolved b t =
    (b.status ≡ TaskStatus.blocked)
    × (t.task_id ≡ b.task_id)
    × (t.depends_on ≡ b.depends_on)
    × (t.blocked_by ≡ not_completed resolved b.blocked_by)
    × ((length t.blocked_by == length b.blocked_by) ≡ false)
    × ((t.status ≡ TaskStatus.ready) × (t.blocked_by ≡ [])
        ⊎ (t.status ≡ TaskStatus.blocked) × (is_empty t.blocked_by ≡ false))

-- as it was, or released from a task that was there
abbrev pub Unblocked : List String → List Task → Task → Type 0
Unblocked resolved before t =
    Memᴰ t before ⊎ ((b : Task) × Memᴰ b before × ReleasedFrom resolved b t)

unblock_task-Unblocked :
    (now : ℕ) (resolved : List String) (before : List Task) (t : Task) (rows after : List Task)
    → t.status ≡ TaskStatus.blocked
    → Memᴰ t before
    → All (Unblocked resolved before) rows
    → unblock_task now resolved t rows ≡ ok after
    → All (Unblocked resolved before) after
unfolding unblock_task
unblock_task-Unblocked now resolved before t rows after status there a h =
    let remaining = not_completed resolved t.blocked_by in
    let P = Unblocked resolved before in
    let kept = record t { blocked_by = remaining } in
    elim (Bool-cases (length remaining == length t.blocked_by)) [
      | inl y ↦ subst (All P) (ok-injective (rw y at h)) a
      | inr n ↦ elim (Bool-cases (is_empty remaining)) [
        | inl e ↦
            let (left, h1, g1) =
              bind-ok (task_left (requeue now "blocking decision resolved" kept))
                (rw (n, e) at h) in
            let (saved, h2, g2) = bind-ok (save_task_row now left rows) g1 in
            let (is_ready, waits, depends, named) =
              requeue-ok now "blocking decision resolved" kept left h1 in
            let shorter : (length left.blocked_by == length t.blocked_by) ≡ false =
              subst (λ l. (length l == length t.blocked_by) ≡ false) (sym waits) n in
            let from : ReleasedFrom resolved t left = (
              status,
              named,
              depends,
              waits,
              shorter,
              inl (is_ready, waits ∙ is_empty-nil remaining e),
            ) in
            subst (All P) (ok-injective g2) (
              saved_task-All now P left rows saved (inr (t, there, from))
                (λ b. inr (t, there, from)) a h2)
        | inr e ↦
            let (saved, h2, g2) = bind-ok (save_task_row now kept rows) (rw (n, e) at h) in
            let from : ReleasedFrom resolved t kept =
              (status, refl, refl, refl, n, inr (status, e)) in
            subst (All P) (ok-injective g2) (
              saved_task-All now P kept rows saved (inr (t, there, from))
                (λ b. inr (t, there, from)) a h2)
      ]
    ]

insert_by-All :
    (P : Task → Type 0) (t : Task) (ts : List Task)
    → P t
    → All P ts
    → All P (insert_by (λ x. x.created_at) t ts)
unfolding insert_by
insert_by-All P t [] p a = (p, tt)
insert_by-All P t (u ∷ us) p a = elim (Bool-cases (ltb t.created_at u.created_at)) [
  | inl y ↦ rw y (p, a)
  | inr n ↦ rw n (a.0, insert_by-All P t us p a.1)
]

sort_onto-All :
    (P : Task → Type 0) (sorted ts : List Task)
    → All P sorted
    → All P ts
    → All P (sort_onto (λ x. x.created_at) sorted ts)
unfolding sort_onto
sort_onto-All P sorted [] s a = s
sort_onto-All P sorted (t ∷ ts) s a =
    sort_onto-All P (insert_by (λ x. x.created_at) t sorted) ts (insert_by-All P t sorted a.0 s) a.1

select_where-All :
    (p : Task → Bool) (Q P : Task → Type 0) (ts : List Task)
    → All Q ts
    → ((t : Task) → Q t → p t ≡ true → P t)
    → All P (select_where p ts)
unfolding select_where
select_where-All p Q P [] a f = tt
select_where-All p Q P (t ∷ ts) a f = elim (Bool-cases (p t)) [
  | inl y ↦ rw y (f t a.0 y, select_where-All p Q P ts a.1 f)
  | inr n ↦ rw n (select_where-All p Q P ts a.1 f)
]

abbrev BlockedIn : List Task → Task → Type 0
BlockedIn before t = (t.status ≡ TaskStatus.blocked) × Memᴰ t before

listed_blocked :
    (tasks : List Task)
    → All (BlockedIn tasks) (list_by_status none (TaskStatus.blocked ∷ []) tasks)
unfolding list_by_status
listed_blocked tasks = sort_onto-All (BlockedIn tasks) [] _ tt (
    select_where-All _ (λ t. Memᴰ t tasks) (BlockedIn tasks) tasks
      (All-members (λ t. Memᴰ t tasks) tasks (λ t i. i)) (λ t i h. (only_blocked t.status h, i)))
  where
    only_blocked :
        (s : TaskStatus) → contains s (TaskStatus.blocked ∷ []) ≡ true → s ≡ TaskStatus.blocked
    only_blocked s h = ground arith

unblock_each-Unblocked :
    (now : ℕ) (resolved : List String) (before ts rows after : List Task)
    → All (BlockedIn before) ts
    → All (Unblocked resolved before) rows
    → unblock_each now resolved ts rows ≡ ok after
    → All (Unblocked resolved before) after
unfolding unblock_each
unblock_each-Unblocked now resolved before [] rows after b a h =
    subst (All (Unblocked resolved before)) (ok-injective h) a
unblock_each-Unblocked now resolved before (t ∷ ts) rows after b a h =
    let (m, h1, h2) = bind-ok (unblock_task now resolved t rows) h in
    unblock_each-Unblocked now resolved before ts m after b.1
      (unblock_task-Unblocked now resolved before t rows m b.0.0 b.0.1 a h1) h2

-- After the pass over the resolved decisions, each task is a task as it was, or it comes from a BLOCKED task, whose
-- decisions it waits for but for the resolved ones, of which there was one: it is READY where none is left and BLOCKED
-- where some are.
pub released_by_resolution :
    (now : ℕ) (decisions : List Decision) (tasks after : List Task) (t : Task)
    → unblock_resolved now decisions tasks ≡ ok after
    → Memᴰ t after
    → Unblocked (resolved_ids decisions) tasks t
unfolding unblock_resolved
released_by_resolution now decisions tasks after t h m =
    let resolved = resolved_ids decisions in
    elim (Bool-cases (is_empty resolved)) [
      | inl y ↦ inl (subst (Memᴰ t) (sym (ok-injective (rw y at h))) m)
      | inr n ↦
          member_has (Unblocked resolved tasks) t after
            (unblock_each-Unblocked now resolved tasks
              (list_by_status none (TaskStatus.blocked ∷ []) tasks) tasks after
              (listed_blocked tasks) (All-members (Unblocked resolved tasks) tasks (λ x i. inl i))
              (rw n at h))
            m
    ]
