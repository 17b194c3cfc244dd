-- ===== src/Domain/Machines/Paths.antt =====
-- What sequences of accepted transitions can do, machine by machine.
use researchd_agent.Domain.Enums.Claim.{ClaimReviewLevel, claim_review_level_eq}
use researchd_agent.Domain.Enums.Decision.{DecisionStatus, decision_status_eq}
use researchd_agent.Domain.Enums.Run.{RunStatus, run_status_eq}
use researchd_agent.Domain.Enums.Work.{TaskStatus, task_status_eq}
use researchd_agent.Domain.Machines.Tables.{
  task_transitions, run_transitions, decision_transitions, claim_review_transitions,
}
use researchd_agent.Domain.StateMachine.{can, transition}
use researchd_agent.Prelude.{
  Eq, ok, ℕ, zero, suc, ◌+◌, ◌≤◌, ◌<◌, String, ◌≡◌, refl, ◌≢◌, ◌⊎◌, Bool, true, List, arith,
}

-- `n` calls of `transition` that did not raise lead from `s` to the last state.
pub data Accepted {ℓ} {S : Type ℓ} ⦃e : Eq S⦄ (table : S → List S) (s : S) : ℕ → S → Type ℓ where
  here : Accepted table s zero s
  next :
      {n : ℕ} {t u : S} (name : String) (target : S) (guard : Bool) (reason : String)
      → Accepted table s n t
      → transition table name t target guard reason ≡ ok u
      → Accepted table s (suc n) u

-- `rank` grows along every edge of the table
abbrev Climbs {ℓ} : {S : Type ℓ} ⦃e : Eq S⦄ → (S → List S) → (S → ℕ) → Type ℓ
Climbs {S = S} table rank = (t u : S) → can table t u true ≡ true → rank t < rank u

module _ {ℓ} {S : Type ℓ} ⦃e : Eq S⦄ (table : S → List S) where
  transition-ok :
      (name : String) (t target u : S) (guard : Bool) (reason : String)
      → transition table name t target guard reason ≡ ok u
      → can table t u true ≡ true
  unfolding transition can
  transition-ok name t target u guard reason h = ground arith

  rank-le :
      (rank : S → ℕ)
      → Climbs table rank
      → {s t : S} {n : ℕ} → Accepted table s n t
      → rank s + n ≤ rank t
  rank-le rank up here = omega arith
  rank-le rank up (next {t = t} {u = u} name target guard reason a h) =
      omega (arith, up t u (transition-ok name t target u guard reason h), rank-le rank up a)

  transition-target :
      (name : String) (t target u : S) (guard : Bool) (reason : String)
      → transition table name t target guard reason ≡ ok u
      → target ≡ u
  unfolding transition can
  transition-target name t target u guard reason h = ground arith

run_rank : RunStatus → ℕ
run_rank RunStatus.queued = 0
run_rank RunStatus.starting = 1
run_rank RunStatus.running = 2
run_rank _ = 3

run-Climbs : Climbs run_transitions run_rank
unfolding can run_transitions run_rank
run-Climbs t u h = ground arith

run_rank-le : (t : RunStatus) → run_rank t ≤ 3
unfolding run_rank
run_rank-le t = ground arith

-- From any status a run takes at most three transitions.
pub run_lifetime : {s t : RunStatus} {n : ℕ} → Accepted run_transitions s n t → n ≤ 3
run_lifetime {t = t} a = omega (arith, rank-le run_transitions run_rank run-Climbs a, run_rank-le t)

decision_rank : DecisionStatus → ℕ
decision_rank DecisionStatus.candidate = 0
decision_rank DecisionStatus.opened = 1
decision_rank DecisionStatus.answered = 2
decision_rank DecisionStatus.applied = 3
decision_rank _ = 4

decision-Climbs : Climbs decision_transitions decision_rank
unfolding can decision_transitions decision_rank
decision-Climbs t u h = ground arith

decision_rank-le : (t : DecisionStatus) → decision_rank t ≤ 4
unfolding decision_rank
decision_rank-le t = ground arith

-- From any status a decision takes at most four transitions, so an answer is never reopened.
pub decision_lifetime : {s t : DecisionStatus} {n : ℕ} → Accepted decision_transitions s n t → n ≤ 4
decision_lifetime {t = t} a =
    omega (arith, rank-le decision_transitions decision_rank decision-Climbs a, decision_rank-le t)

pub review_rank : ClaimReviewLevel → ℕ
review_rank ClaimReviewLevel.none = 0
review_rank ClaimReviewLevel.internal = 1
review_rank ClaimReviewLevel.cross_model = 2
review_rank ClaimReviewLevel.pi = 3

review-Climbs : Climbs claim_review_transitions review_rank
unfolding can claim_review_transitions review_rank
review-Climbs t u h = ground arith

-- A review level never falls: after n accepted transitions it is at least n levels higher.
pub review_level_grows :
    {s t : ClaimReviewLevel} {n : ℕ}
    → Accepted claim_review_transitions s n t
    → review_rank s + n ≤ review_rank t
review_level_grows a = rank-le claim_review_transitions review_rank review-Climbs a

pub before_completed :
    (t : TaskStatus)
    → can task_transitions t TaskStatus.completed true ≡ true
    → t ≡ TaskStatus.review
unfolding can task_transitions
before_completed t h = ground arith

-- A task that starts elsewhere reaches COMPLETED by a last transition out of REVIEW.
pub completed_after_review :
    {s u : TaskStatus} {n : ℕ}
    → Accepted task_transitions s n u
    → s ≢ TaskStatus.completed
    → u ≡ TaskStatus.completed
    → (m : ℕ) × Accepted task_transitions s m TaskStatus.review × (n ≡ suc m)
completed_after_review here h e = absurd (h e)
completed_after_review {s = s} (next {n = m} {t = t} {u = u} name target guard reason a step) h e =
    let back : t ≡ TaskStatus.review =
      before_completed t
        (rw e at (transition-ok task_transitions name t target u guard reason step)) in
    (m, rw back at a, refl)

-- COMPLETED, FAILED and CANCELLED
abbrev pub IsTerminal : TaskStatus → Type 0
IsTerminal t = (t ≡ TaskStatus.completed) ⊎ (t ≡ TaskStatus.failed) ⊎ (t ≡ TaskStatus.cancelled)

pub out_of_terminal : (t u : TaskStatus) → IsTerminal t → can task_transitions t u true ≢ true
unfolding can task_transitions
out_of_terminal t u h e = ground arith
