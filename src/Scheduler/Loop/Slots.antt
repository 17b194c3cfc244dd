-- ===== src/Scheduler/Loop/Slots.antt =====
-- How many tasks a pass may start.
use researchd_agent.Domain.Decision.{Decision}
use researchd_agent.Domain.Enums.Work.{TaskStatus, task_status_eq}
use researchd_agent.Domain.Run.{Run}
use researchd_agent.Domain.Task.{Task}
use researchd_agent.Prelude.{
  Bool-cases, ◌==◌, nat_eq, string_eq, length, contains, Result, ok, raise, ℕ, suc, ◌+◌, ◌-◌, ◌≤◌,
  String, ◌≡◌, refl, ap, subst, inl, inr, false, Option, none, some, List, [], ◌∷◌, ◌++◌, arith,
  ok-injective, raise-ne-ok, option_eq,
}
use researchd_agent.Scheduler.Dispatch.{DispatchDb, DispatchError, dispatch_task}
use researchd_agent.Scheduler.Loop.{
  list_by_status, ids_with_status, open_blocking_scope, open_decision_ids, sort_tasks, LoopState,
  Dispatching, activate, counted_in, is_dispatch, Pass, then_pass, dispatch_each, dispatch_ready,
}
use researchd_agent.Scheduler.Readiness.{task_dispatch_decision}

length-append : (k : String) (xs : List String) → length (xs ++ k ∷ []) ≡ suc (length xs)
length-append k [] = refl
length-append k (x ∷ xs) = ap suc (length-append k xs)

activate_grows :
    (k : String) (active : List String) → length (activate k active) ≤ suc (length active)
activate_grows k active = elim (Bool-cases (contains k active)) [
  | inl y ↦ rw y (omega arith)
  | inr n ↦ rw (n, length-append k active) (omega arith)
]

-- the active tasks with the free slots stay under a bound, and so do the dispatches
abbrev Fits : ℕ → ℕ → LoopState → Type 0
Fits n m s = (length s.active + s.slots ≤ n) × (s.dispatched + s.slots ≤ m)

fill_slot :
    (a a' slots n : ℕ) → a' ≤ suc a → (slots == 0) ≡ false → a + slots ≤ n → a' + (slots - 1) ≤ n
fill_slot a a' slots n grows free fits = ground arith

counted_in-Fits :
    (n m : ℕ) (s u : LoopState) (r : Result DispatchError (Option (Run × Task) × DispatchDb))
    → (s.slots == 0) ≡ false
    → Fits n m s
    → counted_in s r ≡ ok u
    → Fits n m u
counted_in-Fits n m s u (raise e) free f h = absurd (raise-ne-ok h)
counted_in-Fits n m s u (ok (none, db)) free f h = subst (Fits n m) (ok-injective h) f
counted_in-Fits n m s u (ok (some (run, task), db)) free f h = subst (Fits n m) (ok-injective h) (
  fill_slot (length s.active) (length (activate run.task_id s.active)) s.slots n
      (activate_grows run.task_id s.active) free f.0,
  fill_slot s.dispatched (suc s.dispatched) s.slots m (omega arith) free f.1,
)

then_pass-Fits :
    (n m : ℕ) (s : LoopState) (rest : LoopState → Pass) (r : Result DispatchError LoopState)
    → Fits n m s
    → ((u : LoopState) → r ≡ ok u → Fits n m (rest u).0)
    → Fits n m (then_pass s rest r).0
then_pass-Fits n m s rest (raise e) f k = f
then_pass-Fits n m s rest (ok u) f k = k u refl

dispatch_each-Fits :
    (env : Dispatching) (now n m : ℕ) (decisions : List Decision) (done : List String)
    (ts : List Task) (s : LoopState)
    → Fits n m s
    → Fits n m (dispatch_each env now decisions done ts s).0
unfolding dispatch_each
dispatch_each-Fits env now n m decisions done [] s f = f
dispatch_each-Fits env now n m decisions done (t ∷ ts) s f =
    let chosen = is_dispatch (
      task_dispatch_decision t (open_decision_ids decisions) (some (open_blocking_scope decisions))
        (some done)) in
    elim (Bool-cases (s.slots == 0)) [
      | inl y ↦ rw y f
      | inr free ↦ elim (Bool-cases (contains t.task_id s.active)) [
        | inl y ↦ rw (free, y) (dispatch_each-Fits env now n m decisions done ts s f)
        | inr o ↦ elim (Bool-cases chosen) [
          | inr c ↦ rw (free, o, c) (dispatch_each-Fits env now n m decisions done ts s f)
          | inl c ↦
              rw (free, o, c)
                (then_pass-Fits n m s (dispatch_each env now decisions done ts)
                  (counted_in s (
                    dispatch_task env.matches env.executor (env.profile_of t) (env.run_id_for t) now
                      (env.draw_for t) t s.session))
                  f
                  (λ u h.
                    dispatch_each-Fits env now n m decisions done ts u
                      (counted_in-Fits n m s u _ free f h)))
        ]
      ]
    ]

under_bound : (a slots n : ℕ) → a + slots ≤ n → a ≤ n
under_bound a slots n h = omega arith

all_slots : (a n : ℕ) → a ≤ n → a + (n - a) ≤ n
all_slots a n h = omega arith

-- A pass that begins with at most `max_parallel` active tasks ends with at most so many, and it dispatches no more
-- tasks than there were free slots, also when an exception ends it.
pub slots_bound :
    (env : Dispatching) (now max_parallel : ℕ) (decisions : List Decision) (active : List String)
    (db : DispatchDb)
    → length active ≤ max_parallel
    → (length (dispatch_ready env now max_parallel decisions active db).0.active ≤ max_parallel)
      × ((dispatch_ready env now max_parallel decisions active db).0.dispatched
          ≤ max_parallel - length active)
unfolding dispatch_ready
slots_bound env now max_parallel decisions active db h =
    let free = max_parallel - length active in
    let start_state : LoopState = record {
      session = db;
      committed = db;
      active = active;
      dispatched = 0;
      slots = free;
    } in
    let (few, dispatched_few) =
      dispatch_each-Fits env now max_parallel free decisions
        (ids_with_status TaskStatus.completed db.tasks)
        (sort_tasks [] (list_by_status none (TaskStatus.ready ∷ []) db.tasks)) start_state
        (all_slots (length active) max_parallel h, omega arith) in
    (under_bound _ _ max_parallel few, under_bound _ _ free dispatched_few)
