-- ===== src/Domain/Claim.antt =====
-- `Claim` of src/researchd/domain/evidence.py.
pub mod Manuscript
use researchd_agent.Domain.Base.{DomainModel}
use researchd_agent.Domain.Enums.Claim.{
  ClaimEvidenceState, ClaimReviewLevel, ClaimUseState, claim_evidence_state_eq,
  claim_review_level_eq, claim_use_state_eq,
}
use researchd_agent.Domain.Machines.Tables.{
  claim_evidence_transitions, claim_review_transitions, claim_use_transitions,
}
use researchd_agent.Domain.StateMachine.{InvalidTransition, transition}
use researchd_agent.Prelude.{
  if◌then◌else◌, nat_eq, string_eq, contains, Result, ok, raise, ℕ, ◌*◌, String, Bool, true, not,
  ◌&&◌, Option, List, [], ◌∷◌,
}

pub data ClaimEvidenceRelation : Type 0 where
  supports challenges qualifies defines_scope provides_context invalidates : ClaimEvidenceRelation

pub record ClaimEvidenceLink : Type 0 where
  pub evidence_id : String
  pub relation : ClaimEvidenceRelation
  pub note : Option String

pub record Claim : Type 0 where
  pub base : DomainModel
  pub open base use *
  pub claim_id : String
  pub text : String
  pub is_core : Bool
  pub evidence_state : ClaimEvidenceState
  pub review_level : ClaimReviewLevel
  pub use_state : ClaimUseState
  pub evidence_links : List ClaimEvidenceLink

abbrev touch_claim : ℕ → Claim → Claim
touch_claim now c = record c { base = record c.base { updated_at = now } }

abbrev on_ok {ℓ} : {E A B : Type ℓ} → (A → B) → Result E A → Result E B
on_ok f (ok a) = ok (f a)
on_ok f (raise e) = raise e

unfoldable pub set_evidence_state :
    ℕ → ClaimEvidenceState → Claim → Result (InvalidTransition ClaimEvidenceState) Claim
set_evidence_state now target c =
    on_ok (λ s. record (touch_claim now c) { evidence_state = s })
      (transition claim_evidence_transitions "claim.evidence" c.evidence_state target true "")

unfoldable pub set_review_level :
    ℕ → ClaimReviewLevel → Claim → Result (InvalidTransition ClaimReviewLevel) Claim
set_review_level now target c =
    on_ok (λ s. record (touch_claim now c) { review_level = s })
      (transition claim_review_transitions "claim.review" c.review_level target true "")

unfoldable pub set_use_state :
    ℕ → ClaimUseState → Claim → Result (InvalidTransition ClaimUseState) Claim
set_use_state now target c =
    on_ok (λ s. record (touch_claim now c) { use_state = s })
      (transition claim_use_transitions "claim.use" c.use_state target true "")

unfoldable pub can_enter_manuscript : Claim → Bool
can_enter_manuscript c =
    if c.is_core
    then contains c.review_level (ClaimReviewLevel.cross_model ∷ ClaimReviewLevel.pi ∷ [])
      && contains c.evidence_state (ClaimEvidenceState.supported ∷ ClaimEvidenceState.mixed ∷ [])
    else not (
        contains c.evidence_state
          (ClaimEvidenceState.contradicted ∷ ClaimEvidenceState.untested ∷ []))
