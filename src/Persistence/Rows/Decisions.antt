-- ===== src/Persistence/Rows/Decisions.antt =====
-- `DecisionRow`, `DecisionOptionRow` and `DecisionRepo`: the options of a decision are rows of their own, whose ids
-- number them, and are read in the order of the ids' texts.
pub mod Options
pub mod Roundtrip
use Prim.Native.Char.{code}
use Prim.Native.Nat.{◌/◌, ◌%◌}
use Prim.Native.String.{◌++◌ as str_append}
use researchd_agent.Domain.Base.{DomainModel}
use researchd_agent.Domain.Decision.{DecisionOption, Decision}
use researchd_agent.Domain.Enums.Decision.{
  DecisionStatus, DecisionCategory, decision_status_eq, decision_category_eq,
}
use researchd_agent.Domain.Enums.Values.{
  member_of, decision_status_value, decision_status_members, decision_category_value,
  decision_category_members,
}
use researchd_agent.Persistence.Repository.{StaleVersion}
use researchd_agent.Persistence.Rows.{list_or_null, list_column}
use researchd_agent.Persistence.Rows.Storing.{RowOf, save_row}
use researchd_agent.Persistence.Table.{select_where}
use researchd_agent.Prelude.{
  ltb, if◌then◌else◌, ◌==◌, nat_eq, string_eq, Result, ok, raise, ℕ, zero, suc, String, refl, Bool,
  true, false, not, ◌&&◌, Option, none, some, List, [], ◌∷◌, ◌++◌, option_eq,
}

pub record DecisionRow : Type 0 where
  pub base : DomainModel
  pub decision_id : String
  pub status : String
  pub category : String
  pub evidence_refs_json : Option (List String)
  pub blocking_scope_json : Option (List String)
  pub continue_scope_json : Option (List String)
  pub question : String
  pub trigger : String
  pub why_material : String
  pub recommendation : Option String
  pub recommendation_basis : Option String
  pub unresolved_uncertainty : Option String
  pub reversibility : Option String
  pub decision_version : ℕ
  pub affected_object : Option String
  pub fingerprint : Option String
  pub answer : Option String
  pub answered_by : Option String
  pub answered_at : Option ℕ
  pub applied_revision : Option ℕ

pub record DecisionOptionRow : Type 0 where
  pub id : String
  pub decision_id : String
  pub option_id : String
  pub label : String
  pub description : String
  pub scientific_consequence : String

abbrev pub row_of_decision : Decision → DecisionRow
row_of_decision d = record {
  base = d.base;
  decision_id = d.decision_id;
  status = decision_status_value d.status;
  category = decision_category_value d.category;
  evidence_refs_json = list_or_null d.evidence_refs;
  blocking_scope_json = list_or_null d.blocking_scope;
  continue_scope_json = list_or_null d.continue_scope;
  question = d.question;
  trigger = d.trigger;
  why_material = d.why_material;
  recommendation = d.recommendation;
  recommendation_basis = d.recommendation_basis;
  unresolved_uncertainty = d.unresolved_uncertainty;
  reversibility = d.reversibility;
  decision_version = d.decision_version;
  affected_object = d.affected_object;
  fingerprint = d.fingerprint;
  answer = d.answer;
  answered_by = d.answered_by;
  answered_at = d.answered_at;
  applied_revision = d.applied_revision;
}

abbrev pub option_of_row : DecisionOptionRow → DecisionOption
option_of_row row = record {
  option_id = row.option_id;
  label = row.label;
  description = row.description;
  scientific_consequence = row.scientific_consequence;
}

-- ORDER BY on a text column: code point by code point, and a prefix comes first
unfoldable pub text_before : String → String → Bool
text_before s String.[] = false
text_before String.[] (String.◌∷◌ d t) = true
text_before (String.◌∷◌ c s) (String.◌∷◌ d t) =
    let rest = text_before s t in if ltb (code c) (code d) then true else code c == code d && rest

unfoldable pub insert_row : DecisionOptionRow → List DecisionOptionRow → List DecisionOptionRow
unfolding text_before
insert_row r [] = r ∷ []
insert_row r (x ∷ xs) =
    let rest = insert_row r xs in if text_before r.id x.id then r ∷ x ∷ xs else x ∷ rest

unfoldable pub sort_rows : List DecisionOptionRow → List DecisionOptionRow → List DecisionOptionRow
unfolding insert_row
sort_rows sorted [] = sorted
sort_rows sorted (r ∷ rows) = sort_rows (insert_row r sorted) rows

abbrev pub options_from : List DecisionOptionRow → List DecisionOption
options_from [] = []
options_from (row ∷ rows) = option_of_row row ∷ options_from rows

abbrev pub of_decision : String → DecisionOptionRow → Bool
of_decision decision_id row = row.decision_id == decision_id

unfoldable pub read_options : String → List DecisionOptionRow → List DecisionOption
unfolding sort_rows
read_options decision_id rows =
    options_from (sort_rows [] (select_where (of_decision decision_id) rows))

abbrev decision_from :
    Option DecisionStatus
    → Option DecisionCategory
    → List DecisionOption
    → DecisionRow
    → Option Decision
decision_from (some status) (some category) options row = some (record {
  base = row.base;
  decision_id = row.decision_id;
  status = status;
  category = category;
  options = options;
  evidence_refs = list_column row.evidence_refs_json;
  blocking_scope = list_column row.blocking_scope_json;
  continue_scope = list_column row.continue_scope_json;
  question = row.question;
  trigger = row.trigger;
  why_material = row.why_material;
  recommendation = row.recommendation;
  recommendation_basis = row.recommendation_basis;
  unresolved_uncertainty = row.unresolved_uncertainty;
  reversibility = row.reversibility;
  decision_version = row.decision_version;
  affected_object = row.affected_object;
  fingerprint = row.fingerprint;
  answer = row.answer;
  answered_by = row.answered_by;
  answered_at = row.answered_at;
  applied_revision = row.applied_revision;
})
decision_from _ _ options row = none

unfoldable pub decision_of_row : List DecisionOptionRow → DecisionRow → Option Decision
unfolding member_of read_options
decision_of_row options row =
    decision_from (member_of decision_status_value decision_status_members row.status)
      (member_of decision_category_value decision_category_members row.category)
      (read_options row.decision_id options) row

abbrev nth_text : ℕ → List String → String
nth_text n [] = ""
nth_text zero (s ∷ ss) = s
nth_text (suc n) (s ∷ ss) = nth_text n ss

abbrev pub digit : ℕ → String
digit n = nth_text n ("0" ∷ "1" ∷ "2" ∷ "3" ∷ "4" ∷ "5" ∷ "6" ∷ "7" ∷ "8" ∷ "9" ∷ [])

-- `str(n)`; `n` steps are enough
unfoldable pub decimal_from : ℕ → ℕ → String
decimal_from zero n = digit n
decimal_from (suc fuel) n =
    let rest = decimal_from fuel (n / 10) in
    if ltb n 10 then digit n else str_append rest (digit (n % 10))

abbrev pub decimal : ℕ → String
decimal n = decimal_from n n

-- `f"-O{idx}"`
abbrev pub option_suffix : ℕ → String
option_suffix n = str_append "-O" (decimal n)

abbrev pub option_row : Decision → ℕ → DecisionOption → DecisionOptionRow
option_row d n opt = record {
  id = str_append d.id (option_suffix n);
  decision_id = d.decision_id;
  option_id = opt.option_id;
  label = opt.label;
  description = opt.description;
  scientific_consequence = opt.scientific_consequence;
}

-- `enumerate(d.options)`
unfoldable pub option_rows : Decision → ℕ → List DecisionOption → List DecisionOptionRow
unfolding decimal_from
option_rows d n [] = []
option_rows d n (opt ∷ opts) = option_row d n opt ∷ option_rows d (suc n) opts

pub record DecisionTables : Type 0 where
  pub decisions : List DecisionRow
  pub options : List DecisionOptionRow

abbrev pub with_options :
    Result StaleVersion (Decision × List DecisionRow)
    → Decision
    → List DecisionOptionRow
    → Result StaleVersion (Decision × DecisionTables)
with_options (raise x) d options = raise x
with_options (ok (result, decisions)) d options = ok (
  result,
  record {
    decisions = decisions;
    options =
        select_where (λ row. not (of_decision d.decision_id row)) options
        ++ option_rows d 0 d.options;
  },
)

abbrev pub decision_rows : RowOf Decision DecisionRow
decision_rows = record {
  object_base = λ o. o.base;
  with_object_base = λ b o. record o { base = b };
  row_base = λ r. r.base;
  with_row_base = λ b r. record r { base = b };
  to_row = row_of_decision;
  base-to_row = λ o. refl;
  with_base-to_row = λ b o. refl;
}

unfoldable pub save_decision :
    ℕ → Decision → DecisionTables → Result StaleVersion (Decision × DecisionTables)
unfolding option_rows
save_decision now d tables =
    with_options (save_row decision_rows now d tables.decisions) d tables.options
