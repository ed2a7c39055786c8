-- ===== src/Commands.antt =====
-- brain/domain/commands.py and brain/application/command_dispatcher.py: command envelopes, and
-- their routing to the registered handlers.
pub mod Dispatcher
use development_brain.Prelude.{ℕ, String, Option, Eq, eq_of_discrete}
use development_brain.Prelude.Object.{Fields}

pub data TriggerType : Type 0 where
  user event scheduled internal : TriggerType

pub data CommandType : Type 0 where
  analyze_project sync_repository ingest_repository ingest_document : CommandType
  extract_requirements analyze_work_item plan_work_item build_context : CommandType
  run_work_item execute_work_item verify_execution create_pull_request : CommandType
  reconcile_project bootstrap_project sync_work_management : CommandType

unfoldable pub CommandType-discrete : Discrete CommandType
CommandType-discrete = hlevel

instance abbrev pub command_type_eq : Eq CommandType
command_type_eq = eq_of_discrete CommandType-discrete

-- `command_type.value`
unfoldable pub value : CommandType → String
value CommandType.analyze_project = "analyze_project"
value CommandType.sync_repository = "sync_repository"
value CommandType.ingest_repository = "ingest_repository"
value CommandType.ingest_document = "ingest_document"
value CommandType.extract_requirements = "extract_requirements"
value CommandType.analyze_work_item = "analyze_work_item"
value CommandType.plan_work_item = "plan_work_item"
value CommandType.build_context = "build_context"
value CommandType.run_work_item = "run_work_item"
value CommandType.execute_work_item = "execute_work_item"
value CommandType.verify_execution = "verify_execution"
value CommandType.create_pull_request = "create_pull_request"
value CommandType.reconcile_project = "reconcile_project"
value CommandType.bootstrap_project = "bootstrap_project"
value CommandType.sync_work_management = "sync_work_management"

-- A UUID is a number, and a time a number of clock ticks.
pub record CommandEnvelope : Type 0 where
  pub command_id : ℕ
  pub command_type : CommandType
  pub project_id : Option ℕ
  pub requested_at : ℕ
  pub requested_by : Option ℕ
  pub trigger_type : TriggerType
  pub correlation_id : ℕ
  pub payload : Fields
