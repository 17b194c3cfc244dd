-- ===== src/Domain/Project.antt =====
-- `Project` and its policy of src/researchd/domain/project.py. `default_budget` is free-form and left out.
use researchd_agent.Domain.Enums.Work.{ProjectStatus, project_status_eq}
use researchd_agent.Prelude.{if◌then◌else◌, truthy, ℕ, String, Option, none, some, List}

pub record ExecutorPolicy : Type 0 where
  pub role_overrides : List (String × String)

-- the common fields, with a `project_id` that is never `None`
pub record Project : Type 0 where
  pub id : String
  pub project_id : String
  pub version : ℕ
  pub created_at : ℕ
  pub updated_at : ℕ
  pub created_by : String
  pub name : String
  pub description : String
  pub status : ProjectStatus
  pub workspace_root : Option String
  pub policy : ExecutorPolicy
  pub paused_reason : Option String
  pub initial_brief_hash : Option String

abbrev text_or_none : String → Option String
text_or_none s = if truthy s then some s else none

unfoldable pub set_status : ℕ → ProjectStatus → String → Project → Project
set_status now status reason p = record p {
  status = status;
  paused_reason = text_or_none reason;
  updated_at = now;
}
