-- ===== src/Persistence/Rows/Tasks.antt =====
-- `TaskRow` and `TaskRepo`.
use researchd_agent.Domain.Base.{DomainModel}
use researchd_agent.Domain.Enums.Values.{
  member_of, task_status_value, task_status_members, member_of-task_status_value,
}
use researchd_agent.Domain.Enums.Work.{TaskStatus, task_status_eq}
use researchd_agent.Domain.Task.{TaskContract, Task}
use researchd_agent.Persistence.Rows.{Dumping, list_or_null, list_column, list_column-list_or_null}
use researchd_agent.Prelude.{String, ◌≡◌, refl, Option, none, some, List}

module _ (contracts : Dumping TaskContract) where
  pub record TaskRow : Type 0 where
    pub base : DomainModel
    pub status : String
    pub task_id : String
    pub contract_json : contracts.Json
    pub parent_task_id : Option String
    pub blocked_by_json : Option (List String)
    pub depends_on_json : Option (List String)
    pub current_run_id : Option String
    pub lease_token : Option String
    pub error_message : Option String

  abbrev pub row_of_task : Task → TaskRow
  row_of_task t = record {
    base = t.base;
    status = task_status_value t.status;
    task_id = t.task_id;
    contract_json = contracts.dump t.contract;
    parent_task_id = t.parent_task_id;
    blocked_by_json = list_or_null t.blocked_by;
    depends_on_json = list_or_null t.depends_on;
    current_run_id = t.current_run_id;
    lease_token = t.lease_token;
    error_message = t.error_message;
  }

  abbrev task_from : Option TaskStatus → Option TaskContract → TaskRow → Option Task
  task_from none contract row = none
  task_from (some status) none row = none
  task_from (some status) (some contract) row = some (record {
    base = row.base;
    task_id = row.task_id;
    status = status;
    contract = contract;
    parent_task_id = row.parent_task_id;
    blocked_by = list_column row.blocked_by_json;
    depends_on = list_column row.depends_on_json;
    current_run_id = row.current_run_id;
    lease_token = row.lease_token;
    error_message = row.error_message;
  })

  unfoldable pub task_of_row : TaskRow → Option Task
  unfolding member_of
  task_of_row row =
      task_from (member_of task_status_value task_status_members row.status)
        (contracts.load row.contract_json) row

  -- A task is read back from its row as it was written.
  pub task_roundtrip : (t : Task) → task_of_row (row_of_task t) ≡ some t
  unfolding task_of_row
  task_roundtrip t =
      rw
        (
          member_of-task_status_value t.status,
          contracts.load-dump t.contract,
          list_column-list_or_null t.blocked_by,
          list_column-list_or_null t.depends_on,
        )
        refl
