-- ===== src/Domain/Enums/Claim.antt =====
-- src/researchd/domain/enums.py: claims, with `==` on each.
use researchd_agent.Prelude.{Eq, ◌≡◌, ◌↔◌, Bool, true, false, arith}

pub data ClaimEvidenceState : Type 0 where
  untested supported mixed unsupported contradicted : ClaimEvidenceState

abbrev pub claim_evidence_state_beq : ClaimEvidenceState → ClaimEvidenceState → Bool
claim_evidence_state_beq untested untested = true
claim_evidence_state_beq supported supported = true
claim_evidence_state_beq mixed mixed = true
claim_evidence_state_beq unsupported unsupported = true
claim_evidence_state_beq contradicted contradicted = true
claim_evidence_state_beq _ _ = false

pub claim_evidence_state_beq_iff :
    (a b : ClaimEvidenceState) → (claim_evidence_state_beq a b ≡ true) ↔ (a ≡ b)
claim_evidence_state_beq_iff a b = ground arith

instance abbrev pub claim_evidence_state_eq : Eq ClaimEvidenceState
claim_evidence_state_eq = record {
  beq = claim_evidence_state_beq;
  beq_iff = claim_evidence_state_beq_iff;
}

pub data ClaimReviewLevel : Type 0 where
  none internal cross_model pi : ClaimReviewLevel

abbrev pub claim_review_level_beq : ClaimReviewLevel → ClaimReviewLevel → Bool
claim_review_level_beq none none = true
claim_review_level_beq internal internal = true
claim_review_level_beq cross_model cross_model = true
claim_review_level_beq pi pi = true
claim_review_level_beq _ _ = false

pub claim_review_level_beq_iff :
    (a b : ClaimReviewLevel) → (claim_review_level_beq a b ≡ true) ↔ (a ≡ b)
claim_review_level_beq_iff a b = ground arith

instance abbrev pub claim_review_level_eq : Eq ClaimReviewLevel
claim_review_level_eq = record {
  beq = claim_review_level_beq;
  beq_iff = claim_review_level_beq_iff;
}

pub data ClaimUseState : Type 0 where
  draft manuscript_eligible included retired : ClaimUseState

abbrev pub claim_use_state_beq : ClaimUseState → ClaimUseState → Bool
claim_use_state_beq draft draft = true
claim_use_state_beq manuscript_eligible manuscript_eligible = true
claim_use_state_beq included included = true
claim_use_state_beq retired retired = true
claim_use_state_beq _ _ = false

pub claim_use_state_beq_iff : (a b : ClaimUseState) → (claim_use_state_beq a b ≡ true) ↔ (a ≡ b)
claim_use_state_beq_iff a b = ground arith

instance abbrev pub claim_use_state_eq : Eq ClaimUseState
claim_use_state_eq = record { beq = claim_use_state_beq; beq_iff = claim_use_state_beq_iff }
