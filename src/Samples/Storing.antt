-- ===== src/Samples/Storing.antt =====
-- Objects that were stored and read back.
use researchd_agent.Domain.Decision.{DecisionOption, Decision}
use researchd_agent.Domain.Enums.Decision.{
  DecisionStatus, DecisionCategory, decision_status_eq, decision_category_eq,
}
use researchd_agent.Domain.Enums.Evidence.{EvidenceStatus, evidence_status_eq}
use researchd_agent.Domain.Enums.Work.{TaskStatus, task_status_eq}
use researchd_agent.Persistence.Repository.{object_id, save}
use researchd_agent.Persistence.Rows.{Dumping}
use researchd_agent.Persistence.Rows.Decisions.{
  DecisionRow, row_of_decision, read_options, option_rows, DecisionTables, save_decision,
}
use researchd_agent.Persistence.Rows.Decisions.Roundtrip.{
  decision_row_base, ReadBack, decision_roundtrip,
}
use researchd_agent.Persistence.Rows.Findings.{row_of_evidence, evidence_of_row, evidence_roundtrip}
use researchd_agent.Persistence.Rows.Kinds.{task_rows}
use researchd_agent.Persistence.Rows.Storing.{
  rows_of, save_row, stored, get_row, rows_implement_objects,
}
use researchd_agent.Persistence.Table.{select_where}
use researchd_agent.Persistence.Table.Keyed.{find}
use researchd_agent.Prelude.{
  nat_eq, string_eq, ok, String, ◌≡◌, refl, none, some, List, [], ◌∷◌, map, arith, option_eq,
}
use researchd_agent.Samples.Data.{base_one, task_in, computed}

abbrev kept_as : {A : Type 0} → Dumping A
kept_as {A = A} = record { Json = A; dump = λ a. a; load = λ a. some a; load-dump = λ a. refl }

evidence_roundtrip_example :
    evidence_of_row kept_as kept_as kept_as
      (row_of_evidence kept_as kept_as kept_as (computed EvidenceStatus.verified))
    ≡ some (computed EvidenceStatus.verified)
evidence_roundtrip_example =
    evidence_roundtrip kept_as kept_as kept_as (computed EvidenceStatus.verified)

rows_implement_objects_example :
    (save_row
        (task_rows kept_as).kind
        9
        (task_in TaskStatus.review)
        (rows_of (task_rows kept_as).kind (task_in TaskStatus.running ∷ []))
      ≡ stored (task_rows kept_as).kind (
          save
            (task_rows kept_as).kind.object_base
            (task_rows kept_as).kind.with_object_base
            9
            (task_in TaskStatus.review)
            (task_in TaskStatus.running ∷ [])))
    × (get_row
          (task_rows kept_as)
          "X-1"
          (rows_of (task_rows kept_as).kind (task_in TaskStatus.running ∷ []))
        ≡ find
            (object_id (task_rows kept_as).kind.object_base)
            "X-1"
            (task_in TaskStatus.running ∷ []))
rows_implement_objects_example =
    rows_implement_objects (task_rows kept_as) 9 (task_in TaskStatus.review) "X-1"
      (task_in TaskStatus.running ∷ [])

abbrev option_named : String → DecisionOption
option_named k = record { option_id = k; label = k; description = ""; scientific_consequence = "" }

abbrev pub decision_with : List DecisionOption → Decision
decision_with options = record {
  base = record base_one { id = "D-1" };
  decision_id = "D-1";
  status = DecisionStatus.opened;
  question = "which prior";
  trigger = "";
  why_material = "";
  options = options;
  recommendation = none;
  recommendation_basis = none;
  evidence_refs = "E-1" ∷ [];
  unresolved_uncertainty = none;
  reversibility = none;
  blocking_scope = "T-1" ∷ [];
  continue_scope = [];
  decision_version = 1;
  category = DecisionCategory.analysis_strategy;
  affected_object = none;
  fingerprint = none;
  answer = none;
  answered_by = none;
  answered_at = none;
  applied_revision = none;
}

abbrev two_options : List DecisionOption
two_options = option_named "a" ∷ option_named "b" ∷ []

abbrev no_decisions : DecisionTables
no_decisions = record { decisions = []; options = [] }

abbrev tables_with : Decision → DecisionTables
tables_with d = record { decisions = row_of_decision d ∷ []; options = option_rows d 0 d.options }

decision_saved :
    save_decision 9 (decision_with two_options) no_decisions
    ≡ ok (decision_with two_options, tables_with (decision_with two_options))
unfolding save_decision find select_where save_row
decision_saved = refl

decision_roundtrip_example :
    (row : DecisionRow) × (find
        (object_id decision_row_base)
        (decision_with two_options).id
        (tables_with (decision_with two_options)).decisions
      ≡ some row)
    × ReadBack (decision_with two_options) (tables_with (decision_with two_options)) row
decision_roundtrip_example =
    decision_roundtrip 9 (decision_with two_options) (decision_with two_options) no_decisions
      (tables_with (decision_with two_options)) (omega arith) tt decision_saved

-- the eleventh option is read third
abbrev eleven_options : List DecisionOption
eleven_options =
    map option_named ("0" ∷ "1" ∷ "2" ∷ "3" ∷ "4" ∷ "5" ∷ "6" ∷ "7" ∷ "8" ∷ "9" ∷ "10" ∷ [])

eleventh_is_third :
    read_options "D-1" (option_rows (decision_with eleven_options) 0 eleven_options)
    ≡ map option_named ("0" ∷ "1" ∷ "10" ∷ "2" ∷ "3" ∷ "4" ∷ "5" ∷ "6" ∷ "7" ∷ "8" ∷ "9" ∷ [])
unfolding read_options select_where option_rows
eleventh_is_third = refl
