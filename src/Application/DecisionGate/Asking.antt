-- ===== src/Application/DecisionGate/Asking.antt =====
-- When the gate asks the PI.
use researchd_agent.Application.DecisionGate.{
  GateAction, category_enum, is_material, is_unresolved, is_taste_sensitive, is_hard_gate,
  Candidate, judge, evaluate,
}
use researchd_agent.Domain.Enums.Decision.{DecisionCategory, decision_category_eq}
use researchd_agent.Domain.Evidence.{nonempty}
use researchd_agent.Prelude.{
  nat_eq, string_eq, contains, is_blank, given, String, ◌≡◌, ◌≢◌, ◌↔◌, ◌⊎◌, true, false, List, [],
  arith,
}

-- the categories that always go to the PI
abbrev pub HardGate : Candidate → Type 0
HardGate c = (is_hard_gate (category_enum c.category) ≡ true) ⊎ (c.hard_gate_override ≡ true)

-- a narrative fork, or another with a stated reason, that is in conflict and rests on evidence or doubt
abbrev pub TasteFork : Candidate → Type 0
TasteFork c =
    ((category_enum c.category ≡ DecisionCategory.narrative)
      ⊎ ((category_enum c.category ≡ DecisionCategory.other) × (is_blank c.why_material ≡ false)))
    × (c.has_option_conflict ≡ true)
    × ((nonempty c.evidence_refs ≡ true) ⊎ (given c.unresolved_uncertainty ≡ true))

-- The gate asks the PI exactly for a question that was not asked before, is no numerical difference, and is
-- behind a hard gate or is such a fork.
pub asks_exactly :
    (fp : String) (c : Candidate) (existing : List String)
    → ((evaluate fp c existing).0.action ≡ GateAction.ask_pi)
      ↔ ((contains fp existing ≡ false) × (c.numerical_only ≡ false) × (HardGate c ⊎ TasteFork c))
unfolding evaluate judge is_material is_unresolved is_taste_sensitive is_hard_gate
asks_exactly fp c existing = (λ h. ground arith, λ h. ground arith)

-- A verdict that does not ask the PI pauses no task.
pub only_asking_blocks :
    (fp : String) (c : Candidate) (existing : List String)
    → (evaluate fp c existing).0.action ≢ GateAction.ask_pi
    → ((evaluate fp c existing).0.blocking_scope ≡ [])
      × ((evaluate fp c existing).0.continue_scope ≡ [])
unfolding evaluate judge
only_asking_blocks fp c existing h = (ground arith, ground arith)
