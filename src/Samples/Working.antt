-- ===== src/Samples/Working.antt =====
-- Tasks, runs and the machines.
use researchd_agent.Domain.Enums.Claim.{ClaimReviewLevel, claim_review_level_eq}
use researchd_agent.Domain.Enums.Run.{RunStatus, run_status_eq}
use researchd_agent.Domain.Enums.Work.{TaskStatus, task_status_eq}
use researchd_agent.Domain.Machines.Paths.{Accepted, next}
use researchd_agent.Domain.Machines.Tables.{
  task_transitions, run_transitions, claim_review_transitions,
}
use researchd_agent.Domain.StateMachine.{can, transition}
use researchd_agent.Domain.Task.{result_from}
use researchd_agent.Domain.Task.History.{CompletedIn, completed_only_by_complete}
use researchd_agent.Domain.Task.Lifecycle.{
  TaskCall, perform, perform_all, call_start, call_submit_review, call_complete,
}
use researchd_agent.Prelude.{ℕ, refl, ◌≢◌, true, some, List, [], ◌∷◌}
use researchd_agent.Samples.Data.{task_in, passing}

ready-ne-completed : TaskStatus.ready ≢ TaskStatus.completed
ready-ne-completed h = cc

abbrev worked : List (ℕ × TaskCall)
worked =
    (1, call_start "R-1" "tok") ∷ (2, call_submit_review) ∷ (3, call_complete (some passing)) ∷ []

completed_only_by_complete_example : CompletedIn (task_in TaskStatus.ready) worked
unfolding perform_all perform transition can task_transitions result_from
completed_only_by_complete_example =
    completed_only_by_complete worked (task_in TaskStatus.ready) ready-ne-completed refl

run_path : Accepted run_transitions RunStatus.queued 2 RunStatus.running
unfolding transition can run_transitions
run_path =
    next "run" RunStatus.running true "" (next "run" RunStatus.starting true "" Accepted.here refl)
      refl

task_path : Accepted task_transitions TaskStatus.running 2 TaskStatus.completed
unfolding transition can task_transitions
task_path =
    next "task" TaskStatus.completed true ""
      (next "task" TaskStatus.review true "" Accepted.here refl) refl

running-ne-completed : TaskStatus.running ≢ TaskStatus.completed
running-ne-completed h = cc

review_path : Accepted claim_review_transitions ClaimReviewLevel.none 1 ClaimReviewLevel.internal
unfolding transition can claim_review_transitions
review_path = next "claim.review" ClaimReviewLevel.internal true "" Accepted.here refl
