-- ===== src/Scheduler/Readiness/Dispatching.antt =====
-- Which tasks are dispatched.
use mathlib.Core.Bool.{false≢true}
use researchd_agent.Domain.Enums.Work.{TaskStatus, task_status_beq_iff, task_status_eq}
use researchd_agent.Domain.Task.{Task}
use researchd_agent.Prelude.{
  Bool-cases, ◌==◌, nat_eq, string_eq, contains, String, ◌≡◌, refl, sym, ◌∙◌, ◌≢◌, ◌↔◌, inl, inr,
  true, false, Option, none, some, List, [], ◌∷◌, All, option_eq,
}
use researchd_agent.Scheduler.Readiness.{
  DispatchDecision, in_some, still_open, not_completed, missing_of, await, await_decisions,
  task_dispatch_decision, dispatch, skip_for_status, blocked_by_scope,
}

abbrev Apart : List String → List String → Type 0
Apart open_ids = All (λ d. contains d open_ids ≡ false)

-- where no set is given, nothing is asked
abbrev pub Completed : Option (List String) → List String → Type 0
Completed none ds = Unit
Completed (some done) ds = All (λ d. contains d done ≡ true) ds

still_open-empty : (open_ids ds : List String) → (still_open open_ids ds ≡ []) ↔ Apart open_ids ds
unfolding still_open
still_open-empty open_ids [] = ((λ h. tt), (λ h. refl))
still_open-empty open_ids (d ∷ ds) = elim (Bool-cases (contains d open_ids)) [
  | inl y ↦ ((λ h. cc (rw y at h)), (λ a. absurd (false≢true (sym a.0 ∙ y))))
  | inr n ↦
      let (to, from) = still_open-empty open_ids ds in
      ((λ h. (n, to (rw n at h))), (λ a. rw n (from a.1)))
]

not_completed-empty :
    (done ds : List String) → (not_completed done ds ≡ []) ↔ All (λ d. contains d done ≡ true) ds
unfolding not_completed
not_completed-empty done [] = ((λ h. tt), (λ h. refl))
not_completed-empty done (d ∷ ds) = elim (Bool-cases (contains d done)) [
  | inl y ↦
      let (to, from) = not_completed-empty done ds in
      ((λ h. (y, to (rw y at h))), (λ a. rw y (from a.1)))
  | inr n ↦ ((λ h. cc (rw n at h)), (λ a. absurd (false≢true (sym n ∙ a.0))))
]

missing-empty :
    (completed_ids : Option (List String)) (ds : List String)
    → (missing_of completed_ids ds ≡ []) ↔ Completed completed_ids ds
missing-empty none ds = ((λ h. tt), (λ h. refl))
missing-empty (some done) ds = not_completed-empty done ds

await-dispatch : (ds : List String) → (await ds ≡ dispatch) ↔ (ds ≡ [])
await-dispatch [] = ((λ h. refl), (λ h. refl))
await-dispatch (d ∷ ds) = ((λ h. cc), (λ h. cc))

await_decisions-dispatch :
    (ds : List String) (otherwise : DispatchDecision)
    → (await_decisions ds otherwise ≡ dispatch) ↔ ((ds ≡ []) × (otherwise ≡ dispatch))
await_decisions-dispatch [] otherwise = ((λ h. (refl, h)), (λ h. h.1))
await_decisions-dispatch (d ∷ ds) otherwise = ((λ h. cc), (λ h. cc))

scope-ne-dispatch : blocked_by_scope ≢ dispatch
scope-ne-dispatch h = cc

status-ne-dispatch : {s : TaskStatus} → skip_for_status s ≢ dispatch
status-ne-dispatch h = cc

-- A task is dispatched exactly when it is READY, it is not in the blocking scope, none of the decisions that
-- block it is open, and, where the completed tasks are given, every task it depends on is one of them.
pub dispatches_exactly :
    (t : Task) (open_ids : List String) (blocked_ids completed_ids : Option (List String))
    → (task_dispatch_decision t open_ids blocked_ids completed_ids ≡ dispatch) ↔ (
        (t.status ≡ TaskStatus.ready)
        × (in_some blocked_ids t.task_id ≡ false)
        × All (λ d. contains d open_ids ≡ false) t.blocked_by
        × Completed completed_ids t.depends_on)
unfolding task_dispatch_decision
dispatches_exactly t open_ids blocked_ids completed_ids =
    elim (Bool-cases (t.status == TaskStatus.ready)) [
      | inl r ↦ elim (Bool-cases (in_some blocked_ids t.task_id)) [
        | inl y ↦ (
          (λ h. absurd (scope-ne-dispatch (rw (r, y) at h))),
          (λ a. absurd (false≢true (sym a.1 ∙ y))),
        )
        | inr n ↦
            let (split, join) =
              await_decisions-dispatch (still_open open_ids t.blocked_by)
                (await (missing_of completed_ids t.depends_on)) in
            let (apart, unblocked) = still_open-empty open_ids t.blocked_by in
            let (done, waits) = missing-empty completed_ids t.depends_on in
            let (none_left, go) = await-dispatch (missing_of completed_ids t.depends_on) in
            (
              (λ h.
                  let (a, b) = split (rw (r, n) at h) in
                  (
                    (task_status_beq_iff t.status TaskStatus.ready).0 r,
                    n,
                    apart a,
                    done (none_left b),
                  )),
              (λ a. rw (r, n) (join (unblocked a.2, go (waits a.3)))),
            )
      ]
      | inr n ↦ (
        (λ h. absurd (status-ne-dispatch (rw n at h))),
        (λ a. absurd (false≢true (sym n ∙ (task_status_beq_iff t.status TaskStatus.ready).1 a.0))),
      )
    ]
