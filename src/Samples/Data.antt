-- ===== src/Samples/Data.antt =====
-- Objects that the samples share.
use researchd_agent.Domain.Base.{DomainModel}
use researchd_agent.Domain.Enums.Evidence.{
  EvidenceStatus, EvidenceType, evidence_status_eq, evidence_type_eq,
}
use researchd_agent.Domain.Enums.Run.{RunStatus, run_status_eq}
use researchd_agent.Domain.Enums.Work.{TaskStatus, task_status_eq}
use researchd_agent.Domain.Evidence.{Artifact, Evidence}
use researchd_agent.Domain.Run.{RunResult, Run}
use researchd_agent.Domain.Task.{TaskContract, Task, CriterionResult}
use researchd_agent.Prelude.{ℕ, String, Bool, true, Option, none, some, List, [], ◌∷◌}
use researchd_agent.Scheduler.Leases.{Draw}

abbrev pub base_one : DomainModel
base_one = record {
  id = "X-1";
  project_id = some "P-1";
  version = 1;
  created_at = 0;
  updated_at = 0;
  created_by = "planner";
}

abbrev pub one_criterion : TaskContract
one_criterion = record {
  task_id = "T-1";
  role = "analysis_worker";
  objective = "fit the model";
  why_now = "";
  inputs = [];
  deliverables = [];
  success_criteria = record { id = "C-1"; text = "it converges" } ∷ [];
  stop_conditions = [];
  escalation_conditions = [];
  budget = record {
    max_wall_seconds = none;
    max_executor_turns = none;
    max_model_calls = none;
    max_parallel_workers = none;
  };
  executor_profile = none;
}

abbrev pub task_in : TaskStatus → Task
task_in s = record {
  base = base_one;
  task_id = "T-1";
  status = s;
  contract = one_criterion;
  parent_task_id = none;
  blocked_by = [];
  depends_on = [];
  current_run_id = some "R-1";
  lease_token = none;
  error_message = none;
}

abbrev pub passing : List CriterionResult
passing = record { criterion_id = some "C-1"; status = some "PASS" } ∷ []

abbrev pub run_of : String → Option RunResult → Run
run_of k result = record {
  base = record base_one { id = k };
  run_id = k;
  task_id = "T-1";
  status = RunStatus.running;
  executor = none;
  executor_profile = none;
  resolved_model = none;
  session_id = none;
  turn_id = none;
  started_at = none;
  heartbeat_at = none;
  termination_reason = none;
  lease_token = none;
  outcome = none;
  error_message = none;
  repair_attempts = 0;
  result = result;
  metadata = record { worker_run_id = none };
}

abbrev pub artifact_one : Artifact
artifact_one = record {
  base = base_one;
  artifact_id = "A-1";
  task_id = some "T-1";
  run_id = some "R-1";
  kind = "table";
  path = "out/table.csv";
  sha256 = none;
  size_bytes = none;
  mime_type = none;
  description = "";
  code_commit = none;
  data_version = none;
  status = "registered";
}

abbrev pub computed : EvidenceStatus → Evidence
computed s = record {
  base = base_one;
  evidence_id = "E-1";
  type = EvidenceType.computational;
  status = s;
  statement = "the effect is small";
  task_id = some "T-1";
  run_id = some "R-1";
  artifact_refs = "A-1" ∷ [];
  literature = none;
  computational = some (record {
    run_id = "R-1";
    artifact_id = "A-1";
    code_commit = none;
    data_snapshot = none;
    interpretation_limits = [];
  });
  model_annotation = none;
  limitations = [];
}

abbrev pub any_owner : String → String → Bool
any_owner prefix owner = true

abbrev pub draw_at : ℕ → String → Draw
draw_at now token = record {
  id = "L-2";
  token = token;
  at_run = now;
  at_task = now;
  at_expiry = now;
  at_creation = now;
}
