-- ===== src/Policies/Samples.antt =====
-- Work of high risk, under a policy that denies it and one that grants the shell.
use development_brain.Prelude.{
  ◌≡◌, refl, String, Bool, true, false, not, ◌||◌, Option, none, some, [], ◌∷◌, any, nat_eq,
}
use development_brain.Prelude.Dict
use development_brain.Workflow.{WorkflowStage, WorkflowStatus, ApprovalState, WorkflowState}
use development_brain.Policies.{
  RiskLevel, ApprovalType, ApprovalDecision, PolicyAction, PolicySet, default_permissions,
  rules_for_risk, WorkItem, classify_risk, evaluate, denies,
}
use development_brain.Policies.Evaluation.{
  Permission, grants, rule_grants, evaluate-grants, evaluate-allowed,
}
use development_brain.Policies.Approvals.{
  decision_is_pending, Approvals, get_approval, requires_approval, request_approval, decide,
  apply_to_workflow,
}
use development_brain.Policies.Approvals.Passing.{first_of, request-decide}

abbrev search : String → String → Bool
search pattern text = true

abbrev policies : PolicySet
policies = record {
  name = "strict";
  rules =
      record {
        name = "shell";
        risk_levels = RiskLevel.high ∷ RiskLevel.low ∷ [];
        action = PolicyAction.allow;
        approval_type = none;
        permissions = some (record default_permissions { shell = true });
      }
      ∷ record {
        name = "no high risk";
        risk_levels = RiskLevel.high ∷ [];
        action = PolicyAction.deny;
        approval_type = none;
        permissions = none;
      }
      ∷ [];
}

abbrev work_item : Option WorkItem
work_item = some (record { title = "deploy"; description = "to production" })

evaluate-grants_example :
    grants (evaluate search policies work_item "" "").permissions Permission.shell ≡ (
      grants default_permissions Permission.shell
      || any
          (λ r. rule_grants r Permission.shell)
          (rules_for_risk policies (classify_risk search work_item "" "").risk))
evaluate-grants_example = evaluate-grants search policies work_item "" "" Permission.shell

evaluate-allowed_example :
    (evaluate search policies work_item "" "").allowed
    ≡ not (
        any
          (λ r. denies r.action)
          (rules_for_risk policies (classify_risk search work_item "" "").risk))
evaluate-allowed_example = evaluate-allowed search policies work_item "" ""

abbrev state : WorkflowState
state = record {
  workflow_id = 1;
  project_id = none;
  work_item_id = some 3;
  repository_id = none;
  revision = none;
  current_execution_id = some 8;
  current_context_capsule_id = none;
  stage = WorkflowStage.execute;
  status = WorkflowStatus.running;
  retry_count = 0;
  max_retries = 3;
  approval_state = ApprovalState.not_required;
  last_error = none;
  verification_id = none;
  waiting_for_human = false;
  correlation_id = none;
}

abbrev rows : Approvals
rows = []

no_row : get_approval 20 rows ≡ none
unfolding get_approval Dict.get
no_row = refl

request-decide_example :
    let (a, (state', rows')) = request_approval 20 100 state ApprovalType.execution none rows in
    let (b, rows'') = decide a 4 ApprovalDecision.rejected "no" rows' in
    (requires_approval state' rows'
      ≡ first_of (requires_approval state rows) (some ApprovalType.execution))
    × ((requires_approval state' rows'' ≡ first_of (requires_approval state rows) none)
        × (apply_to_workflow b state' ≡ record state { approval_state = ApprovalState.rejected }))
unfolding decision_is_pending
request-decide_example =
    request-decide 20 100 state ApprovalType.execution none rows 4 ApprovalDecision.rejected "no"
      no_row
