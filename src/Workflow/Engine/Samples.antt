-- ===== src/Workflow/Engine/Samples.antt =====
-- An executor whose executions all fail.
use development_brain.Prelude.{ℕ, ◌+◌, ◌≤◌, ◌≡◌, refl, true, false, none, some, [], ◌∷◌, arith}
use development_brain.Prelude.Dict
use development_brain.Prelude.Text.{codes, decimal}
use development_brain.Errors.{ok}
use development_brain.Workflow.{
  WorkflowStage, WorkflowStatus, WorkflowState, main_engineering_graph,
}
use development_brain.Workflow.Engine.{
  Services, ExecutionStatus, ExecutionRequest, ExecutionResult, Store, start, resume,
}
use development_brain.Workflow.Engine.Completion.{IsCompleted, clean_completes}

-- The world counts the UUIDs.
abbrev failing : Services ℕ
failing = record {
  select = λ n. (true, n);
  uuid4 = λ n. (n, n + 1);
  uuid_text = decimal;
  execute = λ request n.
      (ok (record { execution_id = request.execution_id; status = ExecutionStatus.failed }), n);
}

abbrev nothing : Store ℕ
nothing = record { checkpoints = []; world = 100 }

-- A workflow that stands at `verify` with a retryable error.
abbrev retrying : WorkflowState
retrying = record {
  workflow_id = 1;
  project_id = some 2;
  work_item_id = some 3;
  repository_id = some 4;
  revision = some (codes "main");
  current_execution_id = none;
  current_context_capsule_id = none;
  stage = WorkflowStage.verify;
  status = WorkflowStatus.running;
  retry_count = 1;
  max_retries = 3;
  approval_state = development_brain.Workflow.ApprovalState.not_required;
  last_error = some (codes "verification failed");
  verification_id = none;
  waiting_for_human = false;
  correlation_id = none;
}

abbrev one_saved : Store ℕ
one_saved = record { checkpoints = (1, retrying) ∷ []; world = 100 }

eight : 8 ≤ 8
eight = omega arith

returns :
    (request : ExecutionRequest) (w : ℕ)
    → (r : ExecutionResult) × ((failing.execute request w).0 ≡ ok r)
returns request w =
    (record { execution_id = request.execution_id; status = ExecutionStatus.failed }, refl)

clean_completes_example :
    IsCompleted
      (resume failing main_engineering_graph true 8 1 (start 1 2 3 4 (codes "main") nothing).1).0
clean_completes_example =
    clean_completes failing true (λ w. refl) returns 8 1 2 3 4 (codes "main") nothing eight
