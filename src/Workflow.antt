-- ===== src/Workflow.antt =====
-- brain/domain/workflow.py: the checkpointed state of an engineering workflow and the declarative
-- graph of its stages. The start and update times, which nothing here reads, are left out.
pub mod Engine
use development_brain.Prelude.{
  ℕ, String, Bool, true, false, Option, none, some, List, [], ◌∷◌, Eq, ◌==◌, eq_of_discrete,
  if◌then◌else◌,
}
use development_brain.Prelude.Text.{Text}

pub data WorkflowStage : Type 0 where
  intake understand build_context route_executor execute verify : WorkflowStage
  retry human create_pr update_brain complete failed : WorkflowStage

unfoldable pub WorkflowStage-discrete : Discrete WorkflowStage
WorkflowStage-discrete = hlevel

instance abbrev pub workflow_stage_eq : Eq WorkflowStage
workflow_stage_eq = eq_of_discrete WorkflowStage-discrete

pub data WorkflowStatus : Type 0 where
  running completed failed blocked : WorkflowStatus

pub data ApprovalState : Type 0 where
  not_required pending approved rejected : ApprovalState

pub data RetryPolicyType : Type 0 where
  transient_tool_failure llm_failure verification_failure : RetryPolicyType
  invalid_input human_required : RetryPolicyType

pub record WorkflowState : Type 0 where
  pub workflow_id : ℕ
  pub project_id : Option ℕ
  pub work_item_id : Option ℕ
  pub repository_id : Option ℕ
  pub revision : Option Text
  pub current_execution_id : Option ℕ
  pub current_context_capsule_id : Option ℕ
  pub stage : WorkflowStage
  pub status : WorkflowStatus
  pub retry_count : ℕ
  pub max_retries : ℕ
  pub approval_state : ApprovalState
  pub last_error : Option Text
  pub verification_id : Option ℕ
  pub waiting_for_human : Bool
  pub correlation_id : Option ℕ

pub record WorkflowEdge : Type 0 where
  pub source : WorkflowStage
  pub target : WorkflowStage
  pub condition : Option String

pub record WorkflowGraph : Type 0 where
  pub name : String
  pub edges : List WorkflowEdge

targets : WorkflowStage → List WorkflowEdge → List WorkflowStage
unfolding WorkflowStage-discrete
targets stage [] = []
targets stage (e ∷ es) =
    let rest = targets stage es in if e.source == stage then e.target ∷ rest else rest

unfoldable pub next_stages : WorkflowGraph → WorkflowStage → List WorkflowStage
unfolding targets
next_stages graph stage = targets stage graph.edges

abbrev pub edge : WorkflowStage → WorkflowStage → WorkflowEdge
edge a b = record { source = a; target = b; condition = none }

abbrev pub edge_if : WorkflowStage → WorkflowStage → String → WorkflowEdge
edge_if a b condition = record { source = a; target = b; condition = some condition }

unfoldable pub main_engineering_graph : WorkflowGraph
main_engineering_graph = record {
  name = "main_engineering";
  edges =
      edge WorkflowStage.intake WorkflowStage.understand
      ∷ edge WorkflowStage.understand WorkflowStage.build_context
      ∷ edge WorkflowStage.build_context WorkflowStage.route_executor
      ∷ edge WorkflowStage.route_executor WorkflowStage.execute
      ∷ edge WorkflowStage.execute WorkflowStage.verify
      ∷ edge_if WorkflowStage.verify WorkflowStage.retry "verification_failed"
      ∷ edge_if WorkflowStage.verify WorkflowStage.human "human_required"
      ∷ edge_if WorkflowStage.verify WorkflowStage.create_pr "passed"
      ∷ edge WorkflowStage.retry WorkflowStage.execute
      ∷ edge WorkflowStage.create_pr WorkflowStage.update_brain
      ∷ edge WorkflowStage.update_brain WorkflowStage.complete
      ∷ [];
}
