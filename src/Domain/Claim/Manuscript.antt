-- ===== src/Domain/Claim/Manuscript.antt =====
-- What the three states of a claim must have been for it to enter a manuscript.
use researchd_agent.Domain.Claim.{Claim, can_enter_manuscript}
use researchd_agent.Domain.Enums.Claim.{
  ClaimEvidenceState, ClaimReviewLevel, claim_evidence_state_eq, claim_review_level_eq,
}
use researchd_agent.Prelude.{◌≡◌, ◌≢◌, ◌↔◌, ◌⊎◌, true, false, arith}

-- A core claim may enter exactly with a review outside the team and evidence for it; another claim
-- exactly when its evidence has been tested and does not contradict it.
pub manuscript_exact :
    (c : Claim)
    → (can_enter_manuscript c ≡ true)
      ↔ ((c.is_core ≡ true)
          × ((c.review_level ≡ ClaimReviewLevel.cross_model)
              ⊎ (c.review_level ≡ ClaimReviewLevel.pi))
          × ((c.evidence_state ≡ ClaimEvidenceState.supported)
              ⊎ (c.evidence_state ≡ ClaimEvidenceState.mixed)))
        ⊎ ((c.is_core ≡ false)
            × (c.evidence_state ≢ ClaimEvidenceState.contradicted)
            × (c.evidence_state ≢ ClaimEvidenceState.untested))
unfolding can_enter_manuscript
manuscript_exact c = (λ h. ground arith, λ h. ground arith)
