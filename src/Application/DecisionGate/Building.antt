-- ===== src/Application/DecisionGate/Building.antt =====
-- Answers to a decision that the gate opened.
use researchd_agent.Application.DecisionGate.{
  GateAction, GateVerdict, DecisionDetails, opened_decision, build_decision,
}
use researchd_agent.Domain.Decision.{Decision, apply_answer}
use researchd_agent.Domain.Decision.Answers.{HasOption, apply_answer_exact}
use researchd_agent.Domain.Enums.Decision.{DecisionStatus, decision_status_eq}
use researchd_agent.Prelude.{ok, ℕ, String, ◌≡◌, refl, some}

built :
    (v : GateVerdict) (k : DecisionDetails)
    → v.action ≡ GateAction.ask_pi
    → build_decision v k ≡ some (opened_decision v k)
unfolding build_decision
built v k h = rw h refl

-- From a verdict that asks the PI `build_decision` builds a decision with its fingerprint and its blocking
-- scope, which accepts each of its options as the answer to its first version.
pub built_is_answerable :
    (v : GateVerdict) (k : DecisionDetails) (now : ℕ) (option_id actor : String)
    → HasOption option_id k.options
    → v.action ≡ GateAction.ask_pi
    → (d : Decision) × (build_decision v k ≡ some d)
      × (d.fingerprint ≡ v.fingerprint)
      × (d.blocking_scope ≡ v.blocking_scope)
      × ((apply_answer now option_id actor (some d.decision_version) d).0
          ≡ ok DecisionStatus.answered)
built_is_answerable v k now option_id actor has h = (
  opened_decision v k,
  built v k h,
  refl,
  refl,
  (apply_answer_exact now option_id actor (some 1) (opened_decision v k)).1 (refl, has, refl),
)
