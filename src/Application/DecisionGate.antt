-- ===== src/Application/DecisionGate.antt =====
-- src/researchd/application/decision_gate.py. The fingerprint of a candidate, a hash of its project, category,
-- object, question and options, comes with it.
pub mod Asking
pub mod Duplicates
pub mod Building
use researchd_agent.Domain.Base.{DomainModel}
use researchd_agent.Domain.Decision.{DecisionOption, Decision}
use researchd_agent.Domain.Enums.Decision.{
  DecisionStatus, DecisionCategory, decision_status_eq, decision_category_eq,
}
use researchd_agent.Domain.Evidence.{nonempty}
use researchd_agent.Prelude.{
  if◌then◌else◌, nat_eq, string_eq, contains, is_blank, given, String, Bool, true, false, not, ◌&&◌,
  ◌||◌, Option, none, some, List, [], ◌∷◌,
}

unfoldable pub hard_gate_categories : List DecisionCategory
hard_gate_categories =
    DecisionCategory.charter_change ∷ DecisionCategory.core_question
    ∷ DecisionCategory.inclusion_criteria ∷ DecisionCategory.title_abstract
    ∷ DecisionCategory.publication ∷ DecisionCategory.budget_permission
    ∷ DecisionCategory.destructive ∷ []

unfoldable pub material_categories : List DecisionCategory
material_categories =
    DecisionCategory.charter_change ∷ DecisionCategory.core_question
    ∷ DecisionCategory.inclusion_criteria ∷ DecisionCategory.analysis_strategy
    ∷ DecisionCategory.narrative ∷ DecisionCategory.title_abstract ∷ DecisionCategory.publication
    ∷ DecisionCategory.budget_permission ∷ DecisionCategory.destructive ∷ []

pub data GateAction : Type 0 where
  ask_pi resolve_automatically run_parallel resolve_numerically duplicate : GateAction

pub record GateVerdict : Type 0 where
  pub action : GateAction
  pub decision_id : Option String
  pub reason : String
  pub fingerprint : Option String
  pub blocking_scope : List String
  pub continue_scope : List String

-- a category of the enumeration, or a text that is none of its values
pub data CategoryInput : Type 0 where
  known : DecisionCategory → CategoryInput
  unknown : String → CategoryInput

abbrev pub category_enum : CategoryInput → DecisionCategory
category_enum (known c) = c
category_enum (unknown s) = DecisionCategory.other

unfoldable pub is_material : DecisionCategory → String → Bool → Bool
unfolding material_categories
is_material category why_material has_option_conflict =
    if contains category material_categories
    then true
    else not (is_blank why_material) && has_option_conflict

unfoldable pub is_unresolved : List String → Option String → Bool → Bool
is_unresolved evidence_refs unresolved_uncertainty option_conflict =
    if not option_conflict
    then false
    else if not (nonempty evidence_refs) && not (given unresolved_uncertainty)
    then false
    else true

unfoldable pub is_taste_sensitive : DecisionCategory → Bool
is_taste_sensitive category =
    contains category
      (DecisionCategory.narrative ∷ DecisionCategory.title_abstract ∷ DecisionCategory.other ∷ [])

unfoldable pub is_hard_gate : DecisionCategory → Bool
unfolding hard_gate_categories
is_hard_gate category = contains category hard_gate_categories

-- the arguments of `evaluate` that it reads
pub record Candidate : Type 0 where
  pub category : CategoryInput
  pub why_material : String
  pub evidence_refs : List String
  pub unresolved_uncertainty : Option String
  pub blocking_scope : List String
  pub continue_scope : List String
  pub has_option_conflict : Bool
  pub numerical_only : Bool
  pub hard_gate_override : Bool

abbrev verdict : GateAction → String → String → GateVerdict
verdict action fp reason = record {
  action = action;
  decision_id = none;
  reason = reason;
  fingerprint = some fp;
  blocking_scope = [];
  continue_scope = [];
}

abbrev asking : String → String → Candidate → GateVerdict
asking fp reason c = record (verdict GateAction.ask_pi fp reason) {
  blocking_scope = c.blocking_scope;
  continue_scope = c.continue_scope;
}

-- `evaluate` past the test for a duplicate
unfoldable pub judge : String → Candidate → GateVerdict
judge fp c =
    let cat = category_enum c.category in
    let material = is_material cat c.why_material c.has_option_conflict in
    let unresolved = is_unresolved c.evidence_refs c.unresolved_uncertainty c.has_option_conflict in
    if c.numerical_only
    then verdict GateAction.resolve_numerically fp "numerical-only difference"
    else if is_hard_gate cat || c.hard_gate_override
    then asking fp "hard gate (publication/budget/destructive/external)" c
    else if not material
    then verdict GateAction.resolve_automatically fp "engineering problem, not a scientific fork"
    else if not c.has_option_conflict
    then verdict GateAction.run_parallel fp "cheap parallel options; no conflict"
    else if not unresolved
    then verdict GateAction.resolve_numerically fp
        "numerical-only difference or no scientific uncertainty"
    else if material && unresolved && (is_taste_sensitive cat || is_hard_gate cat)
    then asking fp "material AND unresolved AND (taste-sensitive OR hard gate)" c
    else verdict GateAction.resolve_automatically fp
        "not (material AND unresolved AND (taste OR hard gate))"

-- the verdict, and `existing_fingerprints` after the call
unfoldable pub evaluate : String → Candidate → List String → GateVerdict × List String
evaluate fp c existing =
    if contains fp existing
    then (verdict GateAction.duplicate fp "same question already asked", existing)
    else (judge fp c, fp ∷ existing)

-- the arguments of `build_decision`
pub record DecisionDetails : Type 0 where
  pub base : DomainModel
  pub decision_id : String
  pub question : String
  pub options : List DecisionOption
  pub category : DecisionCategory
  pub trigger : String
  pub why_material : String
  pub recommendation : Option String
  pub recommendation_basis : Option String
  pub evidence_refs : List String
  pub unresolved_uncertainty : Option String
  pub reversibility : Option String

abbrev pub asks : GateAction → Bool
asks GateAction.ask_pi = true
asks _ = false

abbrev pub opened_decision : GateVerdict → DecisionDetails → Decision
opened_decision v k = record {
  base = k.base;
  decision_id = k.decision_id;
  status = DecisionStatus.opened;
  question = k.question;
  trigger = k.trigger;
  why_material = k.why_material;
  options = k.options;
  recommendation = k.recommendation;
  recommendation_basis = k.recommendation_basis;
  evidence_refs = k.evidence_refs;
  unresolved_uncertainty = k.unresolved_uncertainty;
  reversibility = k.reversibility;
  blocking_scope = v.blocking_scope;
  continue_scope = v.continue_scope;
  decision_version = 1;
  category = k.category;
  affected_object = none;
  fingerprint = v.fingerprint;
  answer = none;
  answered_by = none;
  answered_at = none;
  applied_revision = none;
}

-- `none` is the failed assertion
unfoldable pub build_decision : GateVerdict → DecisionDetails → Option Decision
build_decision v k = if asks v.action then some (opened_decision v k) else none
