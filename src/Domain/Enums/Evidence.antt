-- ===== src/Domain/Enums/Evidence.antt =====
-- src/researchd/domain/enums.py: evidence, with `==` on each.
use researchd_agent.Prelude.{Eq, ◌≡◌, ◌↔◌, Bool, true, false, arith}

pub data EvidenceStatus : Type 0 where
  candidate verified contested invalid superseded : EvidenceStatus

abbrev pub evidence_status_beq : EvidenceStatus → EvidenceStatus → Bool
evidence_status_beq candidate candidate = true
evidence_status_beq verified verified = true
evidence_status_beq contested contested = true
evidence_status_beq invalid invalid = true
evidence_status_beq superseded superseded = true
evidence_status_beq _ _ = false

pub evidence_status_beq_iff : (a b : EvidenceStatus) → (evidence_status_beq a b ≡ true) ↔ (a ≡ b)
evidence_status_beq_iff a b = ground arith

instance abbrev pub evidence_status_eq : Eq EvidenceStatus
evidence_status_eq = record { beq = evidence_status_beq; beq_iff = evidence_status_beq_iff }

pub data EvidenceType : Type 0 where
  literature computational model_annotation human other : EvidenceType

abbrev pub evidence_type_beq : EvidenceType → EvidenceType → Bool
evidence_type_beq literature literature = true
evidence_type_beq computational computational = true
evidence_type_beq model_annotation model_annotation = true
evidence_type_beq human human = true
evidence_type_beq other other = true
evidence_type_beq _ _ = false

pub evidence_type_beq_iff : (a b : EvidenceType) → (evidence_type_beq a b ≡ true) ↔ (a ≡ b)
evidence_type_beq_iff a b = ground arith

instance abbrev pub evidence_type_eq : Eq EvidenceType
evidence_type_eq = record { beq = evidence_type_beq; beq_iff = evidence_type_beq_iff }
