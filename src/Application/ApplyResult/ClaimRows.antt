-- ===== src/Application/ApplyResult/ClaimRows.antt =====
-- src/researchd/application/apply_result.py: the loops over the claim changes and the issues.
use researchd_agent.Application.ApplyResult.Data.{
  ClaimEvidenceRow, ClaimOperation, EvidenceRelation, ClaimChange, WorkIssue, ApplyError, new_base,
  text_or, row_saved, retire_claim, duplicate_row,
}
use researchd_agent.Domain.Base.{DomainModel}
use researchd_agent.Domain.Claim.{Claim}
use researchd_agent.Domain.Enums.Claim.{
  ClaimEvidenceState, ClaimReviewLevel, ClaimUseState, claim_evidence_state_eq,
  claim_review_level_eq, claim_use_state_eq,
}
use researchd_agent.Domain.Enums.Issue.{IssueStatus, issue_status_eq}
use researchd_agent.Domain.Issue.{Issue}
use researchd_agent.Domain.Run.{Run}
use researchd_agent.Persistence.Repository.{save}
use researchd_agent.Persistence.Table.Keyed.{find}
use researchd_agent.Prelude.{
  if◌then◌else◌, ◌==◌, nat_eq, string_eq, any, truthy, Result, ok, ◌>>=◌, ℕ, suc, String, Bool,
  false, not, ◌&&◌, Option, none, some, List, [], ◌∷◌, ◌++◌, option_eq, require,
}

abbrev pub base_of_claim : Claim → DomainModel
base_of_claim c = c.base

abbrev pub with_claim_base : DomainModel → Claim → Claim
with_claim_base b c = record c { base = b }

abbrev pub claim_id_of : Claim → String
claim_id_of c = c.claim_id

abbrev pub true_or_false : Option Bool → Bool
true_or_false none = false
true_or_false (some b) = b

abbrev pub new_claim : ℕ → Option String → String → ClaimChange → Claim
new_claim now project_id claim_id change = record {
  base = new_base claim_id project_id now;
  claim_id = claim_id;
  text = text_or change.text claim_id;
  is_core = true_or_false change.is_core;
  evidence_state = ClaimEvidenceState.untested;
  review_level = ClaimReviewLevel.none;
  use_state = ClaimUseState.draft;
  evidence_links = [];
}

abbrev pub core_or : Option Bool → Bool → Bool
core_or none b = b
core_or (some c) b = c

abbrev pub changed_claim : ClaimChange → Claim → Claim
changed_claim change c = record c {
  text = text_or change.text c.text;
  is_core = core_or change.is_core c.is_core;
}

abbrev pub link_of : String → String → ClaimEvidenceRow → Bool
link_of claim_id ev_id row = row.claim_id == claim_id && row.evidence_id == ev_id

-- `seen` are the links that the session had flushed
unfoldable pub add_link :
    List ClaimEvidenceRow
    → String
    → EvidenceRelation
    → List ClaimEvidenceRow
    → Result ApplyError (List ClaimEvidenceRow)
add_link seen claim_id rel links =
    let ev_id = text_or rel.evidence_id "" in
    if not (truthy ev_id)
    then ok links
    else if any (link_of claim_id ev_id) seen
    then ok links
    else require (not (any (link_of claim_id ev_id) links)) (duplicate_row ev_id) (
        ok (
          links
          ++ record {
            claim_id = claim_id;
            evidence_id = ev_id;
            relation = text_or rel.relation "supports";
          }
            ∷ []))

unfoldable pub add_links :
    List ClaimEvidenceRow
    → String
    → List EvidenceRelation
    → List ClaimEvidenceRow
    → Result ApplyError (List ClaimEvidenceRow)
unfolding add_link
add_links seen claim_id [] links = ok links
add_links seen claim_id (rel ∷ rels) links =
    add_link seen claim_id rel links >>= add_links seen claim_id rels

-- the two tables and `counts["claims"]`
pub record ClaimState : Type 0 where
  pub claims : List Claim
  pub links : List ClaimEvidenceRow
  pub count : ℕ

abbrev pub save_claim : ℕ → Claim → List Claim → Result ApplyError (List Claim)
save_claim now c rows = row_saved (save base_of_claim with_claim_base now c rows)

unfoldable pub write_claim :
    ℕ → String → ClaimChange → Claim → ClaimState → Result ApplyError ClaimState
unfolding save add_links
write_claim now claim_id change c s = do
  rows ← save_claim now c s.claims
  linked ← add_links s.links claim_id change.evidence_relations s.links
  ok (record { claims = rows; links = linked; count = suc s.count })

unfoldable pub retire : ℕ → Claim → ClaimState → Result ApplyError ClaimState
unfolding save
retire now c s = do
  rows ← save_claim now (record c { use_state = ClaimUseState.retired }) s.claims
  ok (record s { claims = rows; count = suc s.count })

unfoldable pub change_claim :
    ℕ
    → Option String
    → String
    → ClaimChange
    → ClaimOperation
    → Option Claim
    → ClaimState
    → Result ApplyError ClaimState
unfolding write_claim retire
change_claim now project_id claim_id change retire_claim none s = ok s
change_claim now project_id claim_id change _ none s =
    write_claim now claim_id change (new_claim now project_id claim_id change) s
change_claim now project_id claim_id change op (some c) s =
    if not (c.project_id == project_id) then ok s else elim op [
      | retire_claim ↦ retire now c s
      | _ ↦ write_claim now claim_id change (changed_claim change c) s
    ]

unfoldable pub apply_changes :
    ℕ
    → Option String
    → (ℕ → String)
    → ℕ
    → List ClaimChange
    → ClaimState
    → Result ApplyError ClaimState
unfolding change_claim
apply_changes now project_id ids n [] s = ok s
apply_changes now project_id ids n (change ∷ changes) s =
    let claim_id = text_or change.claim_id (ids n) in
    change_claim now project_id claim_id change change.operation
      (find claim_id_of claim_id s.claims) s
    >>= apply_changes now project_id ids (suc n) changes

abbrev pub base_of_issue : Issue → DomainModel
base_of_issue i = i.base

abbrev pub with_issue_base : DomainModel → Issue → Issue
with_issue_base b i = record i { base = b }

abbrev pub new_issue : ℕ → Run → String → WorkIssue → Issue
new_issue now run issue_id issue = record {
  base = new_base issue_id run.project_id now;
  issue_id = issue_id;
  status = IssueStatus.opened;
  title = issue.title;
  description = issue.description;
  severity = issue.severity;
  task_id = some run.task_id;
  investigation_plan = none;
}

-- the rows of issues; `counts["issues"]` is the number of those that the worker reported
unfoldable pub apply_issues :
    ℕ → Run → (ℕ → String) → ℕ → List WorkIssue → List Issue → Result ApplyError (List Issue)
unfolding save
apply_issues now run ids n [] rows = ok rows
apply_issues now run ids n (issue ∷ issues) rows =
    row_saved (save base_of_issue with_issue_base now (new_issue now run (ids n) issue) rows)
    >>= apply_issues now run ids (suc n) issues
