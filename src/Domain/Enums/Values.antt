-- ===== src/Domain/Enums/Values.antt =====
-- src/researchd/domain/enums.py: the values of the enumerations that are stored, and a stored value read back.
use researchd_agent.Domain.Enums.Claim.{
  ClaimEvidenceState, ClaimReviewLevel, ClaimUseState, claim_evidence_state_eq,
  claim_review_level_eq, claim_use_state_eq,
}
use researchd_agent.Domain.Enums.Decision.{
  DecisionStatus, DecisionCategory, decision_status_eq, decision_category_eq,
}
use researchd_agent.Domain.Enums.Evidence.{
  EvidenceStatus, EvidenceType, evidence_status_eq, evidence_type_eq,
}
use researchd_agent.Domain.Enums.Issue.{IssueStatus, issue_status_eq}
use researchd_agent.Domain.Enums.Run.{RunStatus, run_status_eq}
use researchd_agent.Domain.Enums.Work.{TaskStatus, task_status_eq}
use researchd_agent.Prelude.{
  if◌then◌else◌, ◌==◌, nat_eq, string_eq, String, ◌≡◌, refl, Option, none, some, List, [], ◌∷◌,
  option_eq,
}

-- `Enum(value)`: the member with the value
unfoldable pub member_of : {A : Type 0} → (A → String) → List A → String → Option A
member_of text [] v = none
member_of text (a ∷ rest) v = if text a == v then some a else member_of text rest v

abbrev pub task_status_value : TaskStatus → String
task_status_value TaskStatus.proposed = "PROPOSED"
task_status_value TaskStatus.ready = "READY"
task_status_value TaskStatus.running = "RUNNING"
task_status_value TaskStatus.blocked = "BLOCKED"
task_status_value TaskStatus.review = "REVIEW"
task_status_value TaskStatus.completed = "COMPLETED"
task_status_value TaskStatus.failed = "FAILED"
task_status_value TaskStatus.cancelled = "CANCELLED"

abbrev pub task_status_members : List TaskStatus
task_status_members =
    TaskStatus.proposed ∷ TaskStatus.ready ∷ TaskStatus.running ∷ TaskStatus.blocked
    ∷ TaskStatus.review ∷ TaskStatus.completed ∷ TaskStatus.failed ∷ TaskStatus.cancelled ∷ []

pub member_of-task_status_value :
    (s : TaskStatus)
    → member_of task_status_value task_status_members (task_status_value s) ≡ some s
unfolding member_of
member_of-task_status_value TaskStatus.proposed = refl
member_of-task_status_value TaskStatus.ready = refl
member_of-task_status_value TaskStatus.running = refl
member_of-task_status_value TaskStatus.blocked = refl
member_of-task_status_value TaskStatus.review = refl
member_of-task_status_value TaskStatus.completed = refl
member_of-task_status_value TaskStatus.failed = refl
member_of-task_status_value TaskStatus.cancelled = refl

abbrev pub evidence_status_value : EvidenceStatus → String
evidence_status_value EvidenceStatus.candidate = "CANDIDATE"
evidence_status_value EvidenceStatus.verified = "VERIFIED"
evidence_status_value EvidenceStatus.contested = "CONTESTED"
evidence_status_value EvidenceStatus.invalid = "INVALID"
evidence_status_value EvidenceStatus.superseded = "SUPERSEDED"

abbrev pub evidence_status_members : List EvidenceStatus
evidence_status_members =
    EvidenceStatus.candidate ∷ EvidenceStatus.verified ∷ EvidenceStatus.contested
    ∷ EvidenceStatus.invalid ∷ EvidenceStatus.superseded ∷ []

pub member_of-evidence_status_value :
    (s : EvidenceStatus)
    → member_of evidence_status_value evidence_status_members (evidence_status_value s) ≡ some s
unfolding member_of
member_of-evidence_status_value EvidenceStatus.candidate = refl
member_of-evidence_status_value EvidenceStatus.verified = refl
member_of-evidence_status_value EvidenceStatus.contested = refl
member_of-evidence_status_value EvidenceStatus.invalid = refl
member_of-evidence_status_value EvidenceStatus.superseded = refl

abbrev pub evidence_type_value : EvidenceType → String
evidence_type_value EvidenceType.literature = "literature"
evidence_type_value EvidenceType.computational = "computational"
evidence_type_value EvidenceType.model_annotation = "model_annotation"
evidence_type_value EvidenceType.human = "human"
evidence_type_value EvidenceType.other = "other"

abbrev pub evidence_type_members : List EvidenceType
evidence_type_members =
    EvidenceType.literature ∷ EvidenceType.computational ∷ EvidenceType.model_annotation
    ∷ EvidenceType.human ∷ EvidenceType.other ∷ []

pub member_of-evidence_type_value :
    (s : EvidenceType)
    → member_of evidence_type_value evidence_type_members (evidence_type_value s) ≡ some s
unfolding member_of
member_of-evidence_type_value EvidenceType.literature = refl
member_of-evidence_type_value EvidenceType.computational = refl
member_of-evidence_type_value EvidenceType.model_annotation = refl
member_of-evidence_type_value EvidenceType.human = refl
member_of-evidence_type_value EvidenceType.other = refl

abbrev pub claim_evidence_state_value : ClaimEvidenceState → String
claim_evidence_state_value ClaimEvidenceState.untested = "UNTESTED"
claim_evidence_state_value ClaimEvidenceState.supported = "SUPPORTED"
claim_evidence_state_value ClaimEvidenceState.mixed = "MIXED"
claim_evidence_state_value ClaimEvidenceState.unsupported = "UNSUPPORTED"
claim_evidence_state_value ClaimEvidenceState.contradicted = "CONTRADICTED"

abbrev pub claim_evidence_state_members : List ClaimEvidenceState
claim_evidence_state_members =
    ClaimEvidenceState.untested ∷ ClaimEvidenceState.supported ∷ ClaimEvidenceState.mixed
    ∷ ClaimEvidenceState.unsupported ∷ ClaimEvidenceState.contradicted ∷ []

pub member_of-claim_evidence_state_value :
    (s : ClaimEvidenceState)
    → member_of claim_evidence_state_value claim_evidence_state_members
        (claim_evidence_state_value s)
      ≡ some s
unfolding member_of
member_of-claim_evidence_state_value ClaimEvidenceState.untested = refl
member_of-claim_evidence_state_value ClaimEvidenceState.supported = refl
member_of-claim_evidence_state_value ClaimEvidenceState.mixed = refl
member_of-claim_evidence_state_value ClaimEvidenceState.unsupported = refl
member_of-claim_evidence_state_value ClaimEvidenceState.contradicted = refl

abbrev pub claim_review_level_value : ClaimReviewLevel → String
claim_review_level_value ClaimReviewLevel.none = "NONE"
claim_review_level_value ClaimReviewLevel.internal = "INTERNAL"
claim_review_level_value ClaimReviewLevel.cross_model = "CROSS_MODEL"
claim_review_level_value ClaimReviewLevel.pi = "PI"

abbrev pub claim_review_level_members : List ClaimReviewLevel
claim_review_level_members =
    ClaimReviewLevel.none ∷ ClaimReviewLevel.internal ∷ ClaimReviewLevel.cross_model
    ∷ ClaimReviewLevel.pi ∷ []

pub member_of-claim_review_level_value :
    (s : ClaimReviewLevel)
    → member_of claim_review_level_value claim_review_level_members (claim_review_level_value s)
      ≡ some s
unfolding member_of
member_of-claim_review_level_value ClaimReviewLevel.none = refl
member_of-claim_review_level_value ClaimReviewLevel.internal = refl
member_of-claim_review_level_value ClaimReviewLevel.cross_model = refl
member_of-claim_review_level_value ClaimReviewLevel.pi = refl

abbrev pub claim_use_state_value : ClaimUseState → String
claim_use_state_value ClaimUseState.draft = "DRAFT"
claim_use_state_value ClaimUseState.manuscript_eligible = "MANUSCRIPT_ELIGIBLE"
claim_use_state_value ClaimUseState.included = "INCLUDED"
claim_use_state_value ClaimUseState.retired = "RETIRED"

abbrev pub claim_use_state_members : List ClaimUseState
claim_use_state_members =
    ClaimUseState.draft ∷ ClaimUseState.manuscript_eligible ∷ ClaimUseState.included
    ∷ ClaimUseState.retired ∷ []

pub member_of-claim_use_state_value :
    (s : ClaimUseState)
    → member_of claim_use_state_value claim_use_state_members (claim_use_state_value s) ≡ some s
unfolding member_of
member_of-claim_use_state_value ClaimUseState.draft = refl
member_of-claim_use_state_value ClaimUseState.manuscript_eligible = refl
member_of-claim_use_state_value ClaimUseState.included = refl
member_of-claim_use_state_value ClaimUseState.retired = refl

abbrev pub issue_status_value : IssueStatus → String
issue_status_value IssueStatus.opened = "OPEN"
issue_status_value IssueStatus.investigating = "INVESTIGATING"
issue_status_value IssueStatus.resolved = "RESOLVED"
issue_status_value IssueStatus.accepted_risk = "ACCEPTED_RISK"
issue_status_value IssueStatus.superseded = "SUPERSEDED"

abbrev pub issue_status_members : List IssueStatus
issue_status_members =
    IssueStatus.opened ∷ IssueStatus.investigating ∷ IssueStatus.resolved
    ∷ IssueStatus.accepted_risk ∷ IssueStatus.superseded ∷ []

pub member_of-issue_status_value :
    (s : IssueStatus)
    → member_of issue_status_value issue_status_members (issue_status_value s) ≡ some s
unfolding member_of
member_of-issue_status_value IssueStatus.opened = refl
member_of-issue_status_value IssueStatus.investigating = refl
member_of-issue_status_value IssueStatus.resolved = refl
member_of-issue_status_value IssueStatus.accepted_risk = refl
member_of-issue_status_value IssueStatus.superseded = refl

abbrev pub decision_status_value : DecisionStatus → String
decision_status_value DecisionStatus.candidate = "CANDIDATE"
decision_status_value DecisionStatus.opened = "OPEN"
decision_status_value DecisionStatus.answered = "ANSWERED"
decision_status_value DecisionStatus.applied = "APPLIED"
decision_status_value DecisionStatus.closed = "CLOSED"
decision_status_value DecisionStatus.withdrawn = "WITHDRAWN"

abbrev pub decision_status_members : List DecisionStatus
decision_status_members =
    DecisionStatus.candidate ∷ DecisionStatus.opened ∷ DecisionStatus.answered
    ∷ DecisionStatus.applied ∷ DecisionStatus.closed ∷ DecisionStatus.withdrawn ∷ []

pub member_of-decision_status_value :
    (s : DecisionStatus)
    → member_of decision_status_value decision_status_members (decision_status_value s) ≡ some s
unfolding member_of
member_of-decision_status_value DecisionStatus.candidate = refl
member_of-decision_status_value DecisionStatus.opened = refl
member_of-decision_status_value DecisionStatus.answered = refl
member_of-decision_status_value DecisionStatus.applied = refl
member_of-decision_status_value DecisionStatus.closed = refl
member_of-decision_status_value DecisionStatus.withdrawn = refl

abbrev pub decision_category_value : DecisionCategory → String
decision_category_value DecisionCategory.charter_change = "charter_change"
decision_category_value DecisionCategory.core_question = "core_question"
decision_category_value DecisionCategory.inclusion_criteria = "inclusion_criteria"
decision_category_value DecisionCategory.analysis_strategy = "analysis_strategy"
decision_category_value DecisionCategory.narrative = "narrative"
decision_category_value DecisionCategory.title_abstract = "title_abstract"
decision_category_value DecisionCategory.publication = "publication"
decision_category_value DecisionCategory.budget_permission = "budget_permission"
decision_category_value DecisionCategory.destructive = "destructive"
decision_category_value DecisionCategory.other = "other"

abbrev pub decision_category_members : List DecisionCategory
decision_category_members =
    DecisionCategory.charter_change ∷ DecisionCategory.core_question
    ∷ DecisionCategory.inclusion_criteria ∷ DecisionCategory.analysis_strategy
    ∷ DecisionCategory.narrative ∷ DecisionCategory.title_abstract ∷ DecisionCategory.publication
    ∷ DecisionCategory.budget_permission ∷ DecisionCategory.destructive ∷ DecisionCategory.other
    ∷ []

pub member_of-decision_category_value :
    (s : DecisionCategory)
    → member_of decision_category_value decision_category_members (decision_category_value s)
      ≡ some s
unfolding member_of
member_of-decision_category_value DecisionCategory.charter_change = refl
member_of-decision_category_value DecisionCategory.core_question = refl
member_of-decision_category_value DecisionCategory.inclusion_criteria = refl
member_of-decision_category_value DecisionCategory.analysis_strategy = refl
member_of-decision_category_value DecisionCategory.narrative = refl
member_of-decision_category_value DecisionCategory.title_abstract = refl
member_of-decision_category_value DecisionCategory.publication = refl
member_of-decision_category_value DecisionCategory.budget_permission = refl
member_of-decision_category_value DecisionCategory.destructive = refl
member_of-decision_category_value DecisionCategory.other = refl

abbrev pub run_status_value : RunStatus → String
run_status_value RunStatus.queued = "QUEUED"
run_status_value RunStatus.starting = "STARTING"
run_status_value RunStatus.running = "RUNNING"
run_status_value RunStatus.succeeded = "SUCCEEDED"
run_status_value RunStatus.failed = "FAILED"
run_status_value RunStatus.interrupted = "INTERRUPTED"
run_status_value RunStatus.orphaned = "ORPHANED"

abbrev pub run_status_members : List RunStatus
run_status_members =
    RunStatus.queued ∷ RunStatus.starting ∷ RunStatus.running ∷ RunStatus.succeeded
    ∷ RunStatus.failed ∷ RunStatus.interrupted ∷ RunStatus.orphaned ∷ []

pub member_of-run_status_value :
    (s : RunStatus) → member_of run_status_value run_status_members (run_status_value s) ≡ some s
unfolding member_of
member_of-run_status_value RunStatus.queued = refl
member_of-run_status_value RunStatus.starting = refl
member_of-run_status_value RunStatus.running = refl
member_of-run_status_value RunStatus.succeeded = refl
member_of-run_status_value RunStatus.failed = refl
member_of-run_status_value RunStatus.interrupted = refl
member_of-run_status_value RunStatus.orphaned = refl
