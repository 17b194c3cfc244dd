-- ===== src/Domain/Machines/Tables.antt =====
-- The transition tables of src/researchd/domain/state_machine.py, one function for each class.
use researchd_agent.Domain.Enums.Claim.{
  ClaimEvidenceState, ClaimReviewLevel, ClaimUseState, claim_evidence_state_eq,
  claim_review_level_eq, claim_use_state_eq,
}
use researchd_agent.Domain.Enums.Decision.{DecisionStatus, decision_status_eq}
use researchd_agent.Domain.Enums.Evidence.{EvidenceStatus, evidence_status_eq}
use researchd_agent.Domain.Enums.Issue.{IssueStatus, issue_status_eq}
use researchd_agent.Domain.Enums.Run.{RunStatus, run_status_eq}
use researchd_agent.Domain.Enums.Work.{TaskStatus, task_status_eq}
use researchd_agent.Prelude.{List, [], ◌∷◌}

unfoldable pub task_transitions : TaskStatus → List TaskStatus
task_transitions TaskStatus.proposed = TaskStatus.ready ∷ TaskStatus.cancelled ∷ []
task_transitions TaskStatus.ready =
    TaskStatus.running ∷ TaskStatus.blocked ∷ TaskStatus.cancelled ∷ []
task_transitions TaskStatus.running =
    TaskStatus.review ∷ TaskStatus.blocked ∷ TaskStatus.failed ∷ TaskStatus.cancelled
    ∷ TaskStatus.ready ∷ []
task_transitions TaskStatus.blocked =
    TaskStatus.ready ∷ TaskStatus.review ∷ TaskStatus.cancelled ∷ []
task_transitions TaskStatus.review =
    TaskStatus.completed ∷ TaskStatus.ready ∷ TaskStatus.failed ∷ TaskStatus.cancelled ∷ []
task_transitions TaskStatus.completed = []
task_transitions TaskStatus.failed = []
task_transitions TaskStatus.cancelled = []

unfoldable pub run_transitions : RunStatus → List RunStatus
run_transitions RunStatus.queued =
    RunStatus.starting ∷ RunStatus.failed ∷ RunStatus.interrupted ∷ []
run_transitions RunStatus.starting =
    RunStatus.running ∷ RunStatus.failed ∷ RunStatus.interrupted ∷ []
run_transitions RunStatus.running =
    RunStatus.succeeded ∷ RunStatus.failed ∷ RunStatus.interrupted ∷ RunStatus.orphaned ∷ []
run_transitions RunStatus.succeeded = []
run_transitions RunStatus.failed = []
run_transitions RunStatus.interrupted = []
run_transitions RunStatus.orphaned = []

unfoldable pub evidence_transitions : EvidenceStatus → List EvidenceStatus
evidence_transitions EvidenceStatus.candidate =
    EvidenceStatus.verified ∷ EvidenceStatus.contested ∷ EvidenceStatus.invalid
    ∷ EvidenceStatus.superseded ∷ []
evidence_transitions EvidenceStatus.verified =
    EvidenceStatus.contested ∷ EvidenceStatus.invalid ∷ EvidenceStatus.superseded ∷ []
evidence_transitions EvidenceStatus.contested =
    EvidenceStatus.verified ∷ EvidenceStatus.invalid ∷ EvidenceStatus.superseded ∷ []
evidence_transitions EvidenceStatus.invalid = []
evidence_transitions EvidenceStatus.superseded = []

unfoldable pub issue_transitions : IssueStatus → List IssueStatus
issue_transitions IssueStatus.opened = IssueStatus.investigating ∷ IssueStatus.superseded ∷ []
issue_transitions IssueStatus.investigating =
    IssueStatus.resolved ∷ IssueStatus.accepted_risk ∷ IssueStatus.superseded ∷ []
issue_transitions IssueStatus.resolved = []
issue_transitions IssueStatus.accepted_risk = []
issue_transitions IssueStatus.superseded = []

unfoldable pub decision_transitions : DecisionStatus → List DecisionStatus
decision_transitions DecisionStatus.candidate = DecisionStatus.opened ∷ []
decision_transitions DecisionStatus.opened = DecisionStatus.answered ∷ DecisionStatus.withdrawn ∷ []
decision_transitions DecisionStatus.answered =
    DecisionStatus.applied ∷ DecisionStatus.withdrawn ∷ DecisionStatus.closed ∷ []
decision_transitions DecisionStatus.applied = DecisionStatus.closed ∷ []
decision_transitions DecisionStatus.closed = []
decision_transitions DecisionStatus.withdrawn = []

unfoldable pub claim_evidence_transitions : ClaimEvidenceState → List ClaimEvidenceState
claim_evidence_transitions ClaimEvidenceState.untested =
    ClaimEvidenceState.supported ∷ ClaimEvidenceState.mixed ∷ ClaimEvidenceState.unsupported
    ∷ ClaimEvidenceState.contradicted ∷ []
claim_evidence_transitions ClaimEvidenceState.supported =
    ClaimEvidenceState.mixed ∷ ClaimEvidenceState.unsupported ∷ ClaimEvidenceState.contradicted ∷ []
claim_evidence_transitions ClaimEvidenceState.mixed =
    ClaimEvidenceState.supported ∷ ClaimEvidenceState.unsupported ∷ ClaimEvidenceState.contradicted
    ∷ []
claim_evidence_transitions ClaimEvidenceState.unsupported =
    ClaimEvidenceState.supported ∷ ClaimEvidenceState.mixed ∷ ClaimEvidenceState.contradicted ∷ []
claim_evidence_transitions ClaimEvidenceState.contradicted =
    ClaimEvidenceState.supported ∷ ClaimEvidenceState.mixed ∷ ClaimEvidenceState.unsupported ∷ []

unfoldable pub claim_review_transitions : ClaimReviewLevel → List ClaimReviewLevel
claim_review_transitions ClaimReviewLevel.none =
    ClaimReviewLevel.internal ∷ ClaimReviewLevel.cross_model ∷ ClaimReviewLevel.pi ∷ []
claim_review_transitions ClaimReviewLevel.internal =
    ClaimReviewLevel.cross_model ∷ ClaimReviewLevel.pi ∷ []
claim_review_transitions ClaimReviewLevel.cross_model = ClaimReviewLevel.pi ∷ []
claim_review_transitions ClaimReviewLevel.pi = []

unfoldable pub claim_use_transitions : ClaimUseState → List ClaimUseState
claim_use_transitions ClaimUseState.draft =
    ClaimUseState.manuscript_eligible ∷ ClaimUseState.retired ∷ []
claim_use_transitions ClaimUseState.manuscript_eligible =
    ClaimUseState.included ∷ ClaimUseState.retired ∷ []
claim_use_transitions ClaimUseState.included = ClaimUseState.retired ∷ []
claim_use_transitions ClaimUseState.retired = []
