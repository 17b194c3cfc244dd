-- ===== src/Samples/Deciding.antt =====
-- Decisions and the gate before them.
use researchd_agent.Application.Commands.{
  ParsedCommand, CommandSpec, command_specs, spec_in, match_flag, set_flag, consume, parse_named,
  parse_command, flag_text,
}
use researchd_agent.Application.Commands.Accepted.{accepted_by_table}
use researchd_agent.Application.DecisionGate.{
  GateAction, GateVerdict, CategoryInput, Candidate, evaluate, DecisionDetails,
}
use researchd_agent.Application.DecisionGate.Asking.{HardGate, TasteFork, asks_exactly}
use researchd_agent.Application.DecisionGate.Duplicates.{
  evaluate_all, times_asked, asked_at_most_once,
}
use researchd_agent.Domain.Decision.{DecisionOption, Decision, apply_answer}
use researchd_agent.Domain.Decision.Answers.{
  DecisionCall, ask_all, answered_once, call_answer, call_apply,
}
use researchd_agent.Domain.Enums.Decision.{
  DecisionStatus, DecisionCategory, decision_status_eq, decision_category_eq,
}
use researchd_agent.Domain.Machines.Tables.{decision_transitions}
use researchd_agent.Domain.StateMachine.{can, transition}
use researchd_agent.Prelude.{
  if◌then◌else◌, nat_eq, string_eq, contains, ok, ℕ, ◌≤◌, String, ◌≡◌, refl, ◌≢◌, ◌↔◌, ◌⊎◌, true,
  false, none, some, List, [], ◌∷◌, All, option_eq,
}
use researchd_agent.Samples.Data.{base_one}

abbrev two_options : List DecisionOption
two_options =
    record { option_id = "A"; label = "keep"; description = ""; scientific_consequence = "" }
    ∷ record { option_id = "B"; label = "drop"; description = ""; scientific_consequence = "" }
    ∷ []

abbrev open_decision : Decision
open_decision = record {
  base = base_one;
  decision_id = "D-1";
  status = DecisionStatus.opened;
  question = "keep the outlier?";
  trigger = "";
  why_material = "it changes the claim";
  options = two_options;
  recommendation = none;
  recommendation_basis = none;
  evidence_refs = [];
  unresolved_uncertainty = none;
  reversibility = none;
  blocking_scope = "T-1" ∷ [];
  continue_scope = [];
  decision_version = 1;
  category = DecisionCategory.narrative;
  affected_object = none;
  fingerprint = some "fp-1";
  answer = none;
  answered_by = none;
  answered_at = none;
  applied_revision = none;
}

answer_accepted : (apply_answer 5 "B" "pi" (some 1) open_decision).0 ≡ ok DecisionStatus.answered
unfolding apply_answer transition can decision_transitions
answer_accepted = refl

abbrev calls_after : List (ℕ × DecisionCall)
calls_after = (6, call_answer "A" "member" none) ∷ (7, call_apply 2) ∷ []

answered_once_example :
    ((ask_all calls_after (apply_answer 5 "B" "pi" (some 1) open_decision).1).answer ≡ some "B")
    × ((ask_all calls_after (apply_answer 5 "B" "pi" (some 1) open_decision).1).answered_by
        ≡ some "pi")
answered_once_example = answered_once 5 "B" "pi" (some 1) open_decision calls_after answer_accepted

abbrev narrative_fork : Candidate
narrative_fork = record {
  category = CategoryInput.known DecisionCategory.narrative;
  why_material = "it changes the story";
  evidence_refs = "E-1" ∷ [];
  unresolved_uncertainty = none;
  blocking_scope = "T-1" ∷ [];
  continue_scope = [];
  has_option_conflict = true;
  numerical_only = false;
  hard_gate_override = false;
}

asks_exactly_example : ((evaluate "fp-1" narrative_fork []).0.action ≡ GateAction.ask_pi) ↔ (
    (contains {A = String} "fp-1" [] ≡ false)
    × (false ≡ false)
    × (HardGate narrative_fork ⊎ TasteFork narrative_fork))
asks_exactly_example = asks_exactly "fp-1" narrative_fork []

known_question : (evaluate "fp-1" narrative_fork ("fp-1" ∷ [])).0.action ≢ GateAction.ask_pi
unfolding evaluate
known_question h = cc

abbrev asked_twice : List (String × Candidate)
asked_twice = ("fp-1", narrative_fork) ∷ ("fp-1", narrative_fork) ∷ []

asked_at_most_once_example :
    times_asked "fp-1" (evaluate_all asked_twice [])
    ≤ (if contains {A = String} "fp-1" [] then 0 else 1)
asked_at_most_once_example = asked_at_most_once "fp-1" asked_twice []

abbrev details : DecisionDetails
details = record {
  base = base_one;
  decision_id = "D-1";
  question = "keep the outlier?";
  options = two_options;
  category = DecisionCategory.narrative;
  trigger = "";
  why_material = "it changes the story";
  recommendation = none;
  recommendation_basis = none;
  evidence_refs = "E-1" ∷ [];
  unresolved_uncertainty = none;
  reversibility = none;
}

abbrev asking_verdict : GateVerdict
asking_verdict = record {
  action = GateAction.ask_pi;
  decision_id = none;
  reason = "";
  fingerprint = some "fp-1";
  blocking_scope = "T-1" ∷ [];
  continue_scope = [];
}

abbrev unchanged_text : String → String
unchanged_text s = s

abbrev answer_command : ParsedCommand
answer_command = record {
  name = "decision";
  args = "D-2" ∷ "B" ∷ [];
  flags = ("--version", flag_text "3") ∷ [];
}

abbrev answer_tokens : List String
answer_tokens = "/decision" ∷ "D-2" ∷ "B" ∷ "--version" ∷ "3" ∷ []

answer_parses : parse_command unchanged_text answer_tokens ≡ ok answer_command
unfolding parse_command parse_named consume spec_in command_specs match_flag set_flag
answer_parses = refl

accepted_by_table_example :
    (spec : CommandSpec) × (spec_in "decision" command_specs ≡ some spec)
    × (spec.lo ≤ 2)
    × (2 ≤ spec.hi)
    × All (λ f. contains f.0 spec.allowed ≡ true) answer_command.flags
accepted_by_table_example =
    accepted_by_table unchanged_text answer_tokens answer_command answer_parses
