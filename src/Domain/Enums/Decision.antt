-- ===== src/Domain/Enums/Decision.antt =====
-- src/researchd/domain/enums.py: decisions, with `==` on each.
use researchd_agent.Prelude.{Eq, ◌≡◌, ◌↔◌, Bool, true, false, arith}

pub data DecisionStatus : Type 0 where
  candidate opened answered applied closed withdrawn : DecisionStatus

abbrev pub decision_status_beq : DecisionStatus → DecisionStatus → Bool
decision_status_beq candidate candidate = true
decision_status_beq opened opened = true
decision_status_beq answered answered = true
decision_status_beq applied applied = true
decision_status_beq closed closed = true
decision_status_beq withdrawn withdrawn = true
decision_status_beq _ _ = false

pub decision_status_beq_iff : (a b : DecisionStatus) → (decision_status_beq a b ≡ true) ↔ (a ≡ b)
decision_status_beq_iff a b = ground arith

instance abbrev pub decision_status_eq : Eq DecisionStatus
decision_status_eq = record { beq = decision_status_beq; beq_iff = decision_status_beq_iff }

pub data DecisionCategory : Type 0 where
  charter_change core_question inclusion_criteria analysis_strategy narrative title_abstract
        publication budget_permission destructive other :
      DecisionCategory

abbrev pub decision_category_beq : DecisionCategory → DecisionCategory → Bool
decision_category_beq charter_change charter_change = true
decision_category_beq core_question core_question = true
decision_category_beq inclusion_criteria inclusion_criteria = true
decision_category_beq analysis_strategy analysis_strategy = true
decision_category_beq narrative narrative = true
decision_category_beq title_abstract title_abstract = true
decision_category_beq publication publication = true
decision_category_beq budget_permission budget_permission = true
decision_category_beq destructive destructive = true
decision_category_beq other other = true
decision_category_beq _ _ = false

pub decision_category_beq_iff :
    (a b : DecisionCategory) → (decision_category_beq a b ≡ true) ↔ (a ≡ b)
decision_category_beq_iff a b = ground arith

instance abbrev pub decision_category_eq : Eq DecisionCategory
decision_category_eq = record { beq = decision_category_beq; beq_iff = decision_category_beq_iff }
