-- ===== src/Domain/Decision.antt =====
-- src/researchd/domain/decision.py. `applied_revision` is written before the transition that may raise.
pub mod Answers
use researchd_agent.Domain.Base.{DomainModel}
use researchd_agent.Domain.Enums.Decision.{
  DecisionStatus, DecisionCategory, decision_status_eq, decision_category_eq,
}
use researchd_agent.Domain.Machines.Tables.{decision_transitions}
use researchd_agent.Domain.StateMachine.{InvalidTransition, transition}
use researchd_agent.Prelude.{
  if◌then◌else◌, ◌==◌, nat_eq, string_eq, any, contains, Result, ok, raise, Method, ℕ, ◌*◌, String,
  Bool, true, false, not, Option, none, some, List, [], ◌∷◌,
}

pub record DecisionOption : Type 0 where
  pub option_id : String
  pub label : String
  pub description : String
  pub scientific_consequence : String

pub record Decision : Type 0 where
  pub base : DomainModel
  pub open base use *
  pub decision_id : String
  pub status : DecisionStatus
  pub question : String
  pub trigger : String
  pub why_material : String
  pub options : List DecisionOption
  pub recommendation : Option String
  pub recommendation_basis : Option String
  pub evidence_refs : List String
  pub unresolved_uncertainty : Option String
  pub reversibility : Option String
  pub blocking_scope : List String
  pub continue_scope : List String
  pub decision_version : ℕ
  pub category : DecisionCategory
  pub affected_object : Option String
  pub fingerprint : Option String
  pub answer : Option String
  pub answered_by : Option String
  pub answered_at : Option ℕ
  pub applied_revision : Option ℕ

pub data DecisionError : Type 0 where
  version_mismatch : (expected got : ℕ) → DecisionError
  unknown_option : String → DecisionError
  not_answerable : DecisionStatus → DecisionError
  invalid_transition : InvalidTransition DecisionStatus → DecisionError

abbrev pub DecisionMethod : Type 0
DecisionMethod = Method DecisionError Decision DecisionStatus

abbrev decision_moved :
    ℕ
    → Decision
    → Result (InvalidTransition DecisionStatus) DecisionStatus
    → Result DecisionError DecisionStatus × Decision
decision_moved now d (ok s) =
    (ok s, record d { base = record d.base { updated_at = now }; status = s })
decision_moved now d (raise x) = (raise (invalid_transition x), d)

unfoldable pub transition_decision : ℕ → DecisionStatus → DecisionMethod
transition_decision now target d =
    decision_moved now d (transition decision_transitions "decision" d.status target true "")

-- `version is not None and version != self.decision_version`
abbrev pub stale : Option ℕ → ℕ → Bool
stale none current = false
stale (some v) current = not (v == current)

abbrev pub version_or : Option ℕ → ℕ
version_or none = 0
version_or (some v) = v

unfoldable pub apply_answer : ℕ → String → String → Option ℕ → DecisionMethod
unfolding transition_decision
apply_answer now option_id actor version d =
    if stale version d.decision_version
    then (raise (version_mismatch d.decision_version (version_or version)), d)
    else if not (any (λ o. o.option_id == option_id) d.options)
    then (raise (unknown_option option_id), d)
    else if not (contains d.status (DecisionStatus.opened ∷ []))
    then (raise (not_answerable d.status), d)
    else transition_decision now DecisionStatus.answered
        (record d { answer = some option_id; answered_by = some actor; answered_at = some now })

unfoldable pub apply_decision : ℕ → ℕ → DecisionMethod
unfolding transition_decision
apply_decision now revision d =
    transition_decision now DecisionStatus.applied (record d { applied_revision = some revision })

unfoldable pub withdraw : ℕ → DecisionMethod
unfolding transition_decision
withdraw now d = transition_decision now DecisionStatus.withdrawn d
