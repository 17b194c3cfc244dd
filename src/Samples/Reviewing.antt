-- ===== src/Samples/Reviewing.antt =====
-- Evidence and claims.
use researchd_agent.Application.EvidenceValidation.{
  Records, get_by_run_id, get_by_artifact_id, verify_evidence,
}
use researchd_agent.Application.EvidenceValidation.Provenance.{
  Backing, verified_computational_is_backed,
}
use researchd_agent.Domain.Claim.{Claim}
use researchd_agent.Domain.Enums.Claim.{
  ClaimEvidenceState, ClaimReviewLevel, ClaimUseState, claim_evidence_state_eq,
  claim_review_level_eq, claim_use_state_eq,
}
use researchd_agent.Domain.Enums.Evidence.{
  EvidenceStatus, EvidenceType, evidence_status_eq, evidence_type_eq,
}
use researchd_agent.Domain.Evidence.{
  LiteratureProvenance, Evidence, provenance_ok, set_evidence_status, verify,
}
use researchd_agent.Domain.Evidence.Gate.{EvidenceHistory, by_verify, no_step, one_more}
use researchd_agent.Domain.Machines.Tables.{evidence_transitions}
use researchd_agent.Domain.StateMachine.{can}
use researchd_agent.Persistence.Table.Keyed.{find}
use researchd_agent.Prelude.{
  nat_eq, string_eq, is_blank, given, ok, ℕ, ◌≡◌, refl, ◌≢◌, true, none, some, [], ◌∷◌, option_eq,
}
use researchd_agent.Samples.Data.{base_one, run_of, artifact_one, computed}

abbrev computed_at : ℕ → Evidence
computed_at now =
    set_evidence_status now EvidenceStatus.verified (computed EvidenceStatus.candidate)

verifies : verify 9 (computed EvidenceStatus.candidate) ≡ ok (computed_at 9)
unfolding verify provenance_ok can evidence_transitions
verifies = refl

candidate_computed : EvidenceHistory (computed EvidenceStatus.candidate) (computed_at 9)
unfolding verify
candidate_computed = one_more no_step (by_verify 9 verifies)

candidate-ne-verified : EvidenceStatus.candidate ≢ EvidenceStatus.verified
candidate-ne-verified h = cc

abbrev records_one : Records
records_one = record { runs = run_of "R-1" none ∷ []; artifacts = artifact_one ∷ [] }

verifies_against :
    verify_evidence 9 records_one (computed EvidenceStatus.candidate) ≡ ok (computed_at 9)
unfolding verify_evidence verify provenance_ok can evidence_transitions get_by_run_id
    get_by_artifact_id find
verifies_against = refl

verified_computational_is_backed_example :
    (given (some "P-1") ≡ true)
    × (provenance_ok (computed EvidenceStatus.candidate) ≡ true)
    × (computed_at 9 ≡ computed_at 9)
    × Backing records_one (computed EvidenceStatus.candidate)
verified_computational_is_backed_example =
    verified_computational_is_backed 9 records_one (computed EvidenceStatus.candidate)
      (computed_at 9) verifies_against refl

abbrev paper : LiteratureProvenance
paper = record {
  source_id = "doi:10/1";
  locator = none;
  snapshot_artifact_id = some "A-1";
  fetched_at = none;
  limitations = [];
}

abbrev from_paper : Evidence
from_paper = record (computed EvidenceStatus.candidate) {
  type = EvidenceType.literature;
  computational = none;
  literature = some paper;
}

paper_verifies :
    verify_evidence 9 records_one from_paper
    ≡ ok (set_evidence_status 9 EvidenceStatus.verified from_paper)
unfolding verify_evidence verify provenance_ok can evidence_transitions get_by_run_id
    get_by_artifact_id find is_blank
paper_verifies = refl

abbrev core_claim : Claim
core_claim = record {
  base = base_one;
  claim_id = "CL-1";
  text = "the effect is small";
  is_core = true;
  evidence_state = ClaimEvidenceState.supported;
  review_level = ClaimReviewLevel.cross_model;
  use_state = ClaimUseState.draft;
  evidence_links = [];
}
