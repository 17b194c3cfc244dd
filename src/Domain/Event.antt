-- ===== src/Domain/Event.antt =====
-- `Event`, `Actor` and `AggregateRef` of src/researchd/domain/events.py and base.py. Of a payload the model keeps the texts.
use researchd_agent.Prelude.{ℕ, String, Option, none, List}

pub record AggregateRef : Type 0 where
  pub type : String
  pub id : String
  pub version : ℕ

pub record Actor : Type 0 where
  pub type : String
  pub role : Option String
  pub executor : Option String
  pub model : Option String
  pub run_id : Option String
  pub platform_user_id : Option String
  pub display_name : Option String

pub record Event : Type 0 where
  pub event_id : String
  pub event_type : String
  pub occurred_at : ℕ
  pub project_id : Option String
  pub aggregate : AggregateRef
  pub actor : Actor
  pub correlation_id : Option String
  pub causation_id : Option String
  pub idempotency_key : String
  pub payload : List (String × String)

-- `Actor(type="system")`, also the default
abbrev pub system_actor : Actor
system_actor = record {
  type = "system";
  role = none;
  executor = none;
  model = none;
  run_id = none;
  platform_user_id = none;
  display_name = none;
}
