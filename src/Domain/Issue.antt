-- ===== src/Domain/Issue.antt =====
-- `Issue` of src/researchd/domain/evidence.py.
use researchd_agent.Domain.Base.{DomainModel}
use researchd_agent.Domain.Enums.Issue.{IssueStatus, issue_status_eq}
use researchd_agent.Domain.Machines.Tables.{issue_transitions}
use researchd_agent.Domain.StateMachine.{InvalidTransition, transition}
use researchd_agent.Prelude.{Result, ok, raise, ℕ, String, true, Option}

pub record Issue : Type 0 where
  pub base : DomainModel
  pub open base use *
  pub issue_id : String
  pub status : IssueStatus
  pub title : String
  pub description : String
  pub severity : String
  pub task_id : Option String
  pub investigation_plan : Option String

abbrev issue_moved :
    ℕ
    → Issue
    → Result (InvalidTransition IssueStatus) IssueStatus
    → Result (InvalidTransition IssueStatus) Issue
issue_moved now i (ok s) = ok (record i { base = record i.base { updated_at = now }; status = s })
issue_moved now i (raise x) = raise x

unfoldable pub transition_issue :
    ℕ → IssueStatus → Issue → Result (InvalidTransition IssueStatus) Issue
transition_issue now target i =
    issue_moved now i (transition issue_transitions "issue" i.status target true "")
