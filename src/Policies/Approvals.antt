-- ===== src/Policies/Approvals.antt =====
-- Approvals: brain/domain/policies.py, brain/application/approval_gate.py, `decide_approval` of
-- brain/application/policy_service.py and the repository of brain/adapters/in_memory/policies.py. The
-- repository holds the very object that is changed, and every change is saved, so rows under the ids
-- serve as well. The clock is an argument.
pub mod Passing
use development_brain.Prelude.{
  ℕ, String, Bool, true, false, ◌&&◌, Option, none, some, List, [], ◌∷◌, keep, ◌==◌, nat_eq,
  if◌then◌else◌,
}
use development_brain.Prelude.Dict
use development_brain.Prelude.Dict.{Dict}
use development_brain.Workflow.{ApprovalState, WorkflowState}
use development_brain.Policies.{ApprovalType, ApprovalDecision}

-- The metadata of an approval are left out.
pub record Approval : Type 0 where
  pub id : ℕ
  pub approval_type : ApprovalType
  pub workflow_id : Option ℕ
  pub work_item_id : Option ℕ
  pub execution_id : Option ℕ
  pub requested_by : Option ℕ
  pub decided_by : Option ℕ
  pub decision : ApprovalDecision
  pub reason : String
  pub requested_at : ℕ
  pub decided_at : Option ℕ

unfoldable pub decision_is_pending : ApprovalDecision → Bool
decision_is_pending ApprovalDecision.pending = true
decision_is_pending _ = false

unfoldable pub is_open : Approval → Bool
is_open approval = decision_is_pending approval.decision

unfoldable pub decide_approval : Approval → ℕ → ApprovalDecision → String → ℕ → Approval
decide_approval approval decided_by decision reason now = record approval {
  decided_by = some decided_by;
  decision = decision;
  reason = reason;
  decided_at = some now;
}

abbrev pub Approvals : Type 0
Approvals = Dict ℕ Approval

unfoldable pub save_approval : Approval → Approvals → Approvals
save_approval approval rows = Dict.insert rows approval.id approval

unfoldable pub get_approval : ℕ → Approvals → Option Approval
get_approval i rows = Dict.get rows i

-- `x == i` on an optional id.
abbrev pub is_id : ℕ → Option ℕ → Bool
is_id i none = false
is_id i (some j) = j == i

unfoldable pub list_open_for_work_item : ℕ → Approvals → List Approval
list_open_for_work_item i rows = keep (λ a. is_id i a.work_item_id && is_open a) (Dict.values rows)

unfoldable pub list_for_workflow : ℕ → Approvals → List Approval
list_for_workflow i rows = keep (λ a. is_id i a.workflow_id) (Dict.values rows)

unfoldable pub first_open : List Approval → Option ApprovalType
first_open [] = none
first_open (a ∷ rest) =
    let later = first_open rest in if is_open a then some a.approval_type else later

unfoldable pub requires_approval : WorkflowState → Approvals → Option ApprovalType
requires_approval state rows = first_open (list_for_workflow state.workflow_id rows)

-- `id` and `now` are the new approval's.
unfoldable pub request_approval :
    (id now : ℕ)
    → WorkflowState
    → ApprovalType
    → Option ℕ
    → Approvals
    → Approval × (WorkflowState × Approvals)
request_approval id now state approval_type requested_by rows =
    let approval : Approval = record {
      id = id;
      approval_type = approval_type;
      workflow_id = some state.workflow_id;
      work_item_id = state.work_item_id;
      execution_id = state.current_execution_id;
      requested_by = requested_by;
      decided_by = none;
      decision = ApprovalDecision.pending;
      reason = "";
      requested_at = now;
      decided_at = none;
    } in
    (
      approval,
      (record state { approval_state = ApprovalState.pending }, save_approval approval rows),
    )

unfoldable pub decide :
    Approval → (decided_by : ℕ) → ApprovalDecision → String → Approvals → Approval × Approvals
decide approval decided_by decision reason rows =
    let decided : Approval = record approval {
      decided_by = some decided_by;
      decision = decision;
      reason = reason;
    } in
    (decided, save_approval decided rows)

unfoldable pub with_decision : ApprovalDecision → WorkflowState → WorkflowState
with_decision ApprovalDecision.approved s = record s { approval_state = ApprovalState.approved }
with_decision ApprovalDecision.rejected s = record s { approval_state = ApprovalState.rejected }
with_decision ApprovalDecision.needs_changes s = record s { approval_state = ApprovalState.pending }
with_decision ApprovalDecision.pending s = s

unfoldable pub apply_to_workflow : Approval → WorkflowState → WorkflowState
apply_to_workflow approval state =
    if is_id state.workflow_id approval.workflow_id
    then with_decision approval.decision state
    else state
